-- ===== src/Sync/Room.antt =====
-- Room in the packet's buffer for a reply, and the replies that stay inside it.
use micro_adb.Common.{
  ℕ, ◌+◌, ◌-◌, ◌%◌, ◌^◌, ◌≤◌, ◌<◌, ◌≡◌, ◌≢◌, refl, Bool, true, false, Option, none, some, List,
  ◌++◌, min, arith, length, take, length-append, length-take, length-write_at, sub64, bytes32,
  if◌then◌else◌, on_option, leb,
}
use micro_adb.Packet.{Config}
use micro_adb.Os.{Os, Stat, Read, got, read_failed}
use micro_adb.Sync.{Ctx, id_dent, Ret, failed, done, more, stuck}
use micro_adb.Sync.Reply.{
  append_reply, prepare_fail_message, prepare_fail_errno, prepare_okay_message, prepare_done_dent,
}
use micro_adb.Sync.Transfer.{set_state, stat_bytes, put_dent}
use micro_adb.Sync.Command.{stat_result}

-- read(2) stores at most as many bytes as it is asked for.
abbrev pub read_count : Read → ℕ
read_count (got bs) = length bs
read_count read_failed = 0

abbrev pub ReadsAtMost : {W : Type 0} → Os W → Type 0
ReadsAtMost {W} os = (fd n : ℕ) (w : W) → read_count (os.read fd n w).0 ≤ n

pub length-stat_bytes : (o : Option Stat) → length (stat_bytes o) ≡ 12
unfolding stat_bytes
length-stat_bytes none = refl
length-stat_bytes (some st) = refl

-- The int that the code computes for the space left is that space.
pub room-exact : (p w : ℕ) → p < 2 ^ 31 → w + 20 ≤ p → sub64 p (20 + w) % 2 ^ 32 ≡ p - (20 + w)
room-exact p w h k = omega arith

module _ {W : Type 0} (c : Config) where
  -- The packet has its payload_size bytes and room for 20 more of a reply.
  pub record Room (s : Ctx W) : Type 0 where
    pub sized : length s.payload ≡ c.payload_size
    pub small : c.payload_size < 2 ^ 31
    pub free : s.write_len + 20 ≤ c.payload_size

  -- The packet has its payload_size bytes still: nothing was written past them.
  abbrev pub Fits : Ctx W → Type 0
  Fits s = length s.payload ≡ c.payload_size

  pub append_reply-Fits :
      (bs : List ℕ) (s : Ctx W)
      → length s.payload ≡ c.payload_size
      → s.write_len + length bs ≤ c.payload_size
      → Fits (append_reply bs s)
  unfolding append_reply
  append_reply-Fits bs s e h = omega (arith, length-write_at s.write_len bs s.payload)

  pub fail-Fits : (reason : List ℕ) (s : Ctx W) → Room s → Fits (prepare_fail_message c reason s)
  unfolding prepare_fail_message
  fail-Fits reason s r =
      let len = min (length reason) (sub64 c.payload_size (8 + s.write_len)) in
      append_reply-Fits _ s r.sized (ground (arith, length-take len reason))

  pub errno-Fits : (os : Os W) (s : Ctx W) → Room s → Fits (prepare_fail_errno c os s)
  unfolding prepare_fail_errno
  errno-Fits os s r = fail-Fits _ s r

  pub okay-Fits : (s : Ctx W) → Room s → Fits (prepare_okay_message s)
  unfolding prepare_okay_message
  okay-Fits s r = append_reply-Fits _ s r.sized (omega arith)

  pub done_dent-Fits : (s : Ctx W) → Room s → Fits (prepare_done_dent s)
  unfolding prepare_done_dent
  done_dent-Fits s r = append_reply-Fits _ s r.sized (omega arith)

  -- The same of a result, which is also not stuck.
  pub record Clean (r : Ret × Ctx W) : Type 0 where
    pub fits : Fits r.1
    pub unstuck : r.0 ≢ stuck

  pub Clean-if : (b : Bool) {x y : Ret × Ctx W} → Clean x → Clean y → Clean (if b then x else y)
  Clean-if true h k = h
  Clean-if false h k = k

  pub Clean-else : (b : Bool) (x y : Ret × Ctx W) → b ≡ false → Clean y → Clean (if b then x else y)
  Clean-else true x y e k = cc
  Clean-else false x y e k = k

  pub Clean-option :
      {A : Type 0} (o : Option A) {x : Ret × Ctx W} {f : A → Ret × Ctx W}
      → Clean x
      → ((a : A) → Clean (f a))
      → Clean (on_option o x f)
  Clean-option none h k = h
  Clean-option (some a) h k = k a

  pub Clean-done : {s : Ctx W} → Fits s → Clean (done, s)
  Clean-done h = record { fits = h; unstuck = λ e. cc }

  pub Clean-more : {s : Ctx W} → Fits s → Clean (more, s)
  Clean-more h = record { fits = h; unstuck = λ e. cc }

  pub Clean-failed : {s : Ctx W} → Fits s → Clean (failed, s)
  Clean-failed h = record { fits = h; unstuck = λ e. cc }

  pub stat_result-Clean : (o : Option Stat) (s : Ctx W) → Fits s → Clean (stat_result o s)
  unfolding stat_result set_state
  stat_result-Clean none s h = Clean-done h
  stat_result-Clean (some st) s h = Clean-more h

  pub put_dent-Clean :
      (stats name : List ℕ) (s : Ctx W)
      → length stats ≡ 12
      → Room s
      → Clean (put_dent c stats name s)
  unfolding put_dent
  put_dent-Clean stats name s e r =
      let room = sub64 c.payload_size (20 + s.write_len) % 2 ^ 32 in
      let len = min (length name) room in
      let exact = room-exact c.payload_size s.write_len r.small r.free in
      let size : s.write_len + length (bytes32 id_dent ++ stats ++ bytes32 len ++ take len name)
          ≤ c.payload_size =
        omega (
          arith,
          length-append (stats ++ bytes32 len) (take len name),
          length-append stats (bytes32 len),
          length-take len name,
        ) in
      Clean-else (leb (2 ^ 31) room) _ _ (ground (arith, exact))
        (Clean-more (append_reply-Fits _ s r.sized size))
