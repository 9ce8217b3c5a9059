-- ===== src/Client/Lists.antt =====
-- Counts of the services of a list: by id, and by address.
use micro_adb.Common.{
  ℕ, ◌+◌, ◌<◌, ◌≡◌, refl, List, [], ◌∷◌, none, some, false, ◌==◌, if◌then◌else◌, arith,
  Option-cases, inl, inr,
}
use micro_adb.Client.{Service}
use micro_adb.Client.Services.{find_service, unlink, update}

-- How many services of a list have an id.
abbrev pub count : ℕ → List Service → ℕ
count i [] = 0
count i (s ∷ ss) = (if s.id == i then 1 else 0) + count i ss

-- How many services of a list stand at an address.
abbrev pub count_at : ℕ → List Service → ℕ
count_at a [] = 0
count_at a (s ∷ ss) = (if s.addr == a then 1 else 0) + count_at a ss

pub count-update :
    (i addr : ℕ) (f : Service → Service) (ss : List Service)
    → ((s : Service) → (f s).id ≡ s.id)
    → count i (update ss addr f) ≡ count i ss
unfolding update
count-update i addr f [] h = refl
count-update i addr f (s ∷ ss) h = ground (arith, h s, count-update i addr f ss h)

pub count_at-update :
    (a addr : ℕ) (f : Service → Service) (ss : List Service)
    → ((s : Service) → (f s).addr ≡ s.addr)
    → count_at a (update ss addr f) ≡ count_at a ss
unfolding update
count_at-update a addr f [] h = refl
count_at-update a addr f (s ∷ ss) h = ground (arith, h s, count_at-update a addr f ss h)

-- A service that leaves the list takes its id with it.
pub count-unlink :
    (i addr : ℕ) (ss : List Service) (r : Service × List Service)
    → unlink ss addr ≡ some r
    → count i ss ≡ (if r.0.id == i then 1 else 0) + count i r.1
unfolding unlink
count-unlink i addr [] r h = cc
count-unlink i addr (s ∷ ss) (t, rest) h = elim (Option-cases (unlink ss addr)) [
  | inl z ↦ ground arith
  | inr (q, z) ↦ ground (arith, count-unlink i addr ss q z)
]

-- Only a list without a service at the address leaves nothing to unlink.
pub unlink-none : (ss : List Service) (addr : ℕ) → unlink ss addr ≡ none → count_at addr ss ≡ 0
unfolding unlink
unlink-none [] addr h = refl
unlink-none (s ∷ ss) addr h = elim (Option-cases (unlink ss addr)) [
  | inl z ↦ ground (arith, unlink-none ss addr z)
  | inr (q, z) ↦ ground arith
]

pub unlink-some :
    (ss : List Service) (addr : ℕ) (r : Service × List Service)
    → unlink ss addr ≡ some r
    → (count_at addr ss == 0) ≡ false
unfolding unlink
unlink-some [] addr r h = cc
unlink-some (s ∷ ss) addr (t, rest) h = elim (Option-cases (unlink ss addr)) [
  | inl z ↦ ground arith
  | inr (q, z) ↦ ground (arith, unlink-some ss addr q z)
]

pub find_service-count_at :
    (ss : List Service) (id peer : ℕ) (s : Service)
    → find_service ss id peer ≡ some s
    → 0 < count_at s.addr ss
unfolding find_service
find_service-count_at [] id peer s h = cc
find_service-count_at (t ∷ ss) id peer s h = ground (arith, find_service-count_at ss id peer s)
