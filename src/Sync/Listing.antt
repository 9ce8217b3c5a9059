-- ===== src/Sync/Listing.antt =====
-- file_sync_service.c: what LIST sends of a directory while the peer acknowledges.
use mathlib.Core.Path.{subst}
use micro_adb.Common.{
  ℕ, zero, suc, ◌+◌, ◌-◌, ◌%◌, ◌^◌, ◌≤◌, ◌<◌, ◌≡◌, refl, sym, ap, ◌∙◌, Option, none, some, false,
  List, [], ◌∷◌, ◌++◌, min, leb, if_elim, on_option, arith, length, length-append, take, bytes32,
  sub64,
}
use micro_adb.Packet.{Packet, Config}
use micro_adb.Os.{Os, Stat}
use micro_adb.Sync.{Ctx, Ret, done, more, wait_cmd, process_list, id_dent, id_done}
use micro_adb.Sync.Reply.{append_reply, prepare_done_dent}
use micro_adb.Sync.Transfer.{
  set_world, state_reset, stat_bytes, put_dent, stat_entry, list_entry, state_process_list,
}
use micro_adb.Sync.Service.{ack_state, end_ack, file_sync_on_ack, rewind}
use micro_adb.Sync.Recv.{reply, replies, more_replies, reply-append}

-- Mode, size and time, and the name.
abbrev pub dent_message : Option Stat → List ℕ → List ℕ
dent_message st name = bytes32 id_dent ++ stat_bytes st ++ bytes32 (length name) ++ name

abbrev pub done_dent : List ℕ
done_dent = bytes32 id_done ++ bytes32 0 ++ bytes32 0 ++ bytes32 0 ++ bytes32 0

-- Replies that carry the names in their order, each with what is known of it, and then the end.
pub data Tells : List (List ℕ) → List (List ℕ) → Type 0 where
  end : {names : List (List ℕ)} {r : List ℕ} → names ≡ [] → r ≡ done_dent → Tells names (r ∷ [])
  entry :
      {names rs : List (List ℕ)} {r : List ℕ} (st : Option Stat) (name : List ℕ)
      (rest : List (List ℕ))
      → names ≡ name ∷ rest
      → r ≡ dent_message st name
      → Tells rest rs
      → Tells names (r ∷ rs)

-- readdir gives the names of a directory one after another; lstat leaves the rest of them alone.
pub record Directory {W : Type 0} (os : Os W) (dir : ℕ) (names : W → List (List ℕ)) : Type 0 where
  pub last : (w : W) → names w ≡ [] → (os.readdir dir w).0 ≡ none
  pub next :
      (w : W) (name : List ℕ) (rest : List (List ℕ))
      → names w ≡ name ∷ rest
      → let r = os.readdir dir w in (r.0 ≡ some name) × (names r.1 ≡ rest)
  pub lstat : (path : List ℕ) (w : W) → names (os.lstat path w).1 ≡ names w

-- Every name fits a packet with the 20 bytes before it.
abbrev pub Short : Config → List (List ℕ) → Type 0
Short c [] = Unit {0}
Short c (name ∷ names) = (20 + length name ≤ c.payload_size) × Short c names

take-all : (xs : List ℕ) → take (length xs) xs ≡ xs
take-all [] = refl
take-all (x ∷ xs) = ap (λ ys. x ∷ ys) (take-all xs)

length-stat_bytes : (st : Option Stat) → length (stat_bytes st) ≡ 12
unfolding stat_bytes
length-stat_bytes none = refl
length-stat_bytes (some st) = refl

length-dent_message :
    (st : Option Stat) (name : List ℕ) → length (dent_message st name) ≡ 20 + length name
length-dent_message st name = omega (
  arith,
  length-append (bytes32 id_dent ++ stat_bytes st ++ bytes32 (length name)) name,
  length-append (bytes32 id_dent ++ stat_bytes st) (bytes32 (length name)),
  length-append (bytes32 id_dent) (stat_bytes st),
  length-stat_bytes st,
)

module _ {W : Type 0} (c : Config) (os : Os W) (small : c.payload_size < 2 ^ 31) where
  put_dent-whole :
      (st : Option Stat) (name : List ℕ) (s : Ctx W)
      → s.write_len ≡ 0
      → 20 + length name ≤ c.payload_size
      → put_dent c (stat_bytes st) name s ≡ (more, append_reply (dent_message st name) s)
  unfolding put_dent
  put_dent-whole st name s z h =
      let room = sub64 c.payload_size (20 + s.write_len) % 2 ^ 32 in
      let l : leb (2 ^ 31) room ≡ false = ground (arith, small, z, h) in
      let k : min (length name) room ≡ length name = omega (arith, small, z, h) in
      rw (l, k, take-all name) refl

  module _ (dir : ℕ) (names : W → List (List ℕ)) (d : Directory os dir names) where
    -- An entry has been sent, and the service goes on with the rest.
    record Sent (name : List ℕ) (rest : List (List ℕ)) (s : Ctx W) : Type 0 where
      known : Option Stat
      message : reply s ≡ dent_message known name
      state : s.state ≡ process_list
      list_d : s.list_d ≡ dir
      left : names s.world ≡ rest

    -- A service that reads the directory, with a packet in which nothing is written.
    record Lists (rest : List (List ℕ)) (s : Ctx W) : Type 0 where
      blank : s.write_len ≡ 0
      state : s.state ≡ process_list
      list_d : s.list_d ≡ dir
      left : names s.world ≡ rest

    put_dent-Sent :
        (st : Option Stat) (name : List ℕ) (rest : List (List ℕ)) (s : Ctx W)
        → Lists rest s
        → 20 + length name ≤ c.payload_size
        → Sent name rest (end_ack c os (put_dent c (stat_bytes st) name s)).1
    unfolding end_ack
    put_dent-Sent st name rest s l h =
        let m =
          reply-append c os (dent_message st name) s l.blank
            (omega (arith, length-dent_message st name, h, small)) in
        rw (put_dent-whole st name s l.blank h) (
          unfold append_reply in
          record { known = st; message = m; state = l.state; list_d = l.list_d; left = l.left })

    list_entry-Sent :
        (name : List ℕ) (rest : List (List ℕ)) (s : Ctx W)
        → Lists rest s
        → 20 + length name ≤ c.payload_size
        → Sent name rest (end_ack c os (list_entry c os name s)).1
    unfolding list_entry stat_entry
    list_entry-Sent name rest s l h =
        if_elim (λ (r : Ret × Ctx W). Sent name rest (end_ack c os r).1)
          (leb (c.path_max - s.file_ptr) (length name)) (put_dent-Sent none name rest s l h)
          (put_dent-Sent _ name rest _
            (record {
              blank = l.blank;
              state = l.state;
              list_d = l.list_d;
              left = d.lstat _ s.world ∙ l.left;
            })
            h)

    -- What the service does with an answer of readdir.
    read_entry : Option (List ℕ) → Ctx W → Ret × Ctx W
    read_entry o s = on_option o (done, prepare_done_dent s) (λ name. list_entry c os name s)

    on_ack-list :
        (s : Ctx W) (o : Option (List ℕ))
        → s.state ≡ process_list
        → s.list_d ≡ dir
        → (os.readdir dir s.world).0 ≡ o
        → file_sync_on_ack c os s
          ≡ end_ack c os (read_entry o (set_world (os.readdir dir s.world).1 (rewind s)))
    unfolding file_sync_on_ack rewind ack_state state_process_list read_entry
    on_ack-list s o z y h =
        ap (λ st. end_ack c os (ack_state c os st (rewind s))) z
        ∙ ap
            (λ i.
              let a = os.readdir i s.world in
              end_ack c os (read_entry a.0 (set_world a.1 (rewind s))))
            y
        ∙ ap (λ a. end_ack c os (read_entry a (set_world (os.readdir dir s.world).1 (rewind s)))) h

    ended :
        (s : Ctx W)
        → s.write_len ≡ 0
        → let s' = (end_ack c os (read_entry none s)).1 in
          (reply s' ≡ done_dent) × (s'.state ≡ wait_cmd)
    unfolding end_ack read_entry state_reset prepare_done_dent
    ended s z = (unfold append_reply in reply-append c os done_dent s z (omega arith), refl)

    after_entry :
        (n : ℕ) (p : Packet) (name : List ℕ) (rest ns : List (List ℕ)) (s' : Ctx W)
        → ns ≡ name ∷ rest
        → Sent name rest s'
        → Tells (names s'.world) (replies c os n p s')
        → Tells ns (reply s' ∷ more_replies c os s'.state (replies c os n p s'))
    after_entry n p name rest ns s' z m t = entry m.known name rest z m.message (
        subst (λ l. Tells l (more_replies c os s'.state (replies c os n p s'))) m.left
          (subst (λ st. Tells (names s'.world) (more_replies c os st (replies c os n p s')))
            (sym m.state) t))

    -- LIST tells the peer every name of the directory. Where readdir gives the names one after another and
    -- each fits a packet, a service that reads the directory answers the peer's acknowledgements, each
    -- in a packet with nothing written, by one DENT for each name, in their order and whole, with what
    -- is known of it, and then by DONE. As many acknowledgements as there are names left and one more
    -- are enough.
    pub list-Tells :
        (n : ℕ) (p : Packet) (ns : List (List ℕ)) (s : Ctx W)
        → p.write_len ≡ 0
        → s.state ≡ process_list
        → s.list_d ≡ dir
        → names s.world ≡ ns
        → Short c ns
        → length ns < n
        → Tells (names s.world) (replies c os n p s)
    unfolding replies set_world rewind read_entry
    list-Tells zero p ns s z y l h f k = absurd (omega arith)
    list-Tells (suc n) p [] s z y l h f k =
        let t = record s { pkt = p } in
        let t' = set_world (os.readdir dir s.world).1 (rewind t) in
        let v = ended t' z in
        subst
          (λ (o : Ret × Ctx W).
            Tells (names s.world) (reply o.1 ∷ more_replies c os o.1.state (replies c os n p o.1)))
          (sym (on_ack-list t none y l (d.last s.world h)))
          (subst
            (λ st. Tells (names s.world) (
              reply (end_ack c os (read_entry none t')).1
              ∷ more_replies c os st (replies c os n p (end_ack c os (read_entry none t')).1)))
            (sym v.1) (end h v.0))
    list-Tells (suc n) p (name ∷ rest) s z y l h f k =
        let t = record s { pkt = p } in
        let t' = set_world (os.readdir dir s.world).1 (rewind t) in
        let g = d.next s.world name rest h in
        let m =
          list_entry-Sent name rest t' (record { blank = z; state = y; list_d = l; left = g.1 })
            f.0 in
        subst
          (λ (o : Ret × Ctx W).
            Tells (names s.world) (reply o.1 ∷ more_replies c os o.1.state (replies c os n p o.1)))
          (sym (on_ack-list t (some name) y l g.0))
          (after_entry n p name rest (names s.world) _ h m
            (list-Tells n p rest _ z m.state m.list_d m.left f.1 (omega (arith, k))))
