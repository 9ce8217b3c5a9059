-- ===== src/Sync/Push/Service.antt =====
-- Packets of a SEND, one file_sync_on_write after another, up to the header that ends the file.
use mathlib.Core.Path.{subst}
use micro_adb.Common.{
  ℕ, zero, suc, ◌≤◌, ◌<◌, ◌≡◌, ◌≢◌, inl, inr, refl, sym, ap, ◌∙◌, List, [], ◌++◌, Option, some,
  Bool, true, false, ◌==◌, if◌then◌else◌, append-nil, append_assoc, arith, length, take, drop,
}
use micro_adb.Packet.{Config}
use micro_adb.Os.{Os}
use micro_adb.Sync.{Ctx, Ret, failed, done, more, stuck}
use micro_adb.Sync.Invariant.{measure, Phase, Inv}
use micro_adb.Sync.Progress.{write_round-After}
use micro_adb.Sync.Service.{reset_unless_more, process_state, write_round, write_loop, close_ret}
use micro_adb.Sync.Push.{Push, over, after, content, after-append, content-append, after-over}
use micro_adb.Sync.Push.Rounds.{Stores, rest, Rep, in_header, in_block, Moves, Round}
use micro_adb.Sync.Push.Block.{block-Round}
use micro_adb.Sync.Push.Header.{header-Round}

module _ {W : Type 0} (c : Config) (os : Os W) (retry fd : ℕ) (contents : W → List ℕ) where
  -- The service is where the machine is, and in the middle of a packet that may all be written.
  pub record Pushing (s : Ctx W) (p : Push) : Type 0 where
    pub inv : Inv c s
    pub rep : Rep s p
    pub descriptor : s.send_file_fd ≡ some fd
    pub room : length s.payload ≤ retry

  reset-Moves :
      (s : Ctx W) (p : Push) (xs : List ℕ) (r : Ret × Ctx W)
      → Moves contents s p xs r
      → Moves contents s p xs (reset_unless_more os r)
  unfolding reset_unless_more
  reset-Moves s p xs (more, u) m = m
  reset-Moves s p xs (stuck, u) m = m
  reset-Moves s p xs (failed, u) m = absurd (let z = m.result in cc)
  reset-Moves s p xs (done, u) m = absurd (let z = m.result in cc)

  reset-Round :
      (s : Ctx W) (p : Push) (r : Ret × Ctx W)
      → Round contents s p r
      → Round contents s p (reset_unless_more os r)
  reset-Round s p r (xs, inl m) = (xs, inl (reset-Moves s p xs r m))
  reset-Round s p r (xs, inr z) = (xs, inr z)

  state-Round :
      (t : Stores os fd contents) (s : Ctx W) (p : Push)
      → Pushing s p
      → Rep s p
      → 0 < s.data_length
      → Round contents s p (process_state c os retry s.state s)
  unfolding process_state
  state-Round t s p v (in_header h z y o b) n =
      let f : s.size < 8 = subst (λ st. Phase c st s.size s.namelen) y v.inv.phase in
      let k : length h < 8 = omega (arith, f) in
      subst (λ st. Round contents s p (process_state c os retry st s)) (sym y)
        (header-Round contents c s p h z y o b k v.inv.path_room n v.inv.in_packet)
  state-Round t s p v (in_block z y o) n =
      subst (λ st. Round contents s p (process_state c os retry st s)) (sym y)
        (block-Round os fd contents t c retry s p z y o v.descriptor v.inv.in_packet v.room)

  round :
      (t : Stores os fd contents) (s : Ctx W) (p : Push)
      → Pushing s p
      → 0 < s.data_length
      → Round contents s p (write_round c os retry s)
  unfolding write_round
  round t s p v n = reset-Round s p _ (state-Round t s p v v.rep n)

  loop-step :
      (n : ℕ) (ret : Ret) (s : Ctx W)
      → close_ret c os retry ret ≡ done
      → write_loop c os retry (suc n) ret s ≡ (
          let r = write_round c os retry s in
          if s.data_length == 0 then some (ret, s) else write_loop c os retry n r.0 r.1)
  unfolding write_loop close_ret
  loop-step n more s h = refl
  loop-step n done s h = refl
  loop-step n failed s h = absurd cc
  loop-step n stuck s h = absurd cc

  -- What the loop leaves, from `s` and `p`.
  pub record Pushed (s : Ctx W) (p : Push) (r : Option (Ret × Ctx W)) : Type 0 where
    pub ret : Ret
    pub end : Ctx W
    pub returns : r ≡ some (ret, end)
    pub result : close_ret c os retry ret ≡ done
    pub rep : Rep end (after p (rest s))
    pub file : contents end.world ≡ contents s.world ++ content p (rest s)
    pub descriptor : end.send_file_fd ≡ s.send_file_fd

  -- A step from `s`, with what the rest of the loop leaves.
  Pushed-after :
      (s : Ctx W) (p : Push) (xs : List ℕ) (r : Ret × Ctx W) (a : Option (Ret × Ctx W))
      → Moves contents s p xs r
      → Pushed r.1 (after p xs) a
      → Pushed s p a
  Pushed-after s p xs r a m g =
      let e = ap (λ ys. after p ys) m.taken ∙ after-append p xs (rest r.1) in
      record {
        ret = g.ret;
        end = g.end;
        returns = g.returns;
        result = g.result;
        rep = (rw e g.rep);
        file =
            g.file
            ∙ ap (λ ys. ys ++ content (after p xs) (rest r.1)) m.file
            ∙ append_assoc (contents s.world) (content p xs) (content (after p xs) (rest r.1))
            ∙ ap (λ ys. contents s.world ++ ys)
                (sym (ap (λ ys. content p ys) m.taken ∙ content-append p xs (rest r.1)));
        descriptor = g.descriptor ∙ m.descriptor;
      }

  Pushed-none :
      (s : Ctx W) (p : Push) (ret : Ret)
      → close_ret c os retry ret ≡ done
      → Pushing s p
      → s.data_length ≡ 0
      → Pushed s p (some (ret, s))
  unfolding after content
  Pushed-none s p ret h v z =
      let e : rest s ≡ [] = ap (λ k. take k (drop s.packet_ptr s.payload)) z in
      record {
        ret = ret;
        end = s;
        returns = refl;
        result = h;
        rep = (let a = ap (λ ys. after p ys) e in rw a v.rep);
        file = sym (ap (λ ys. contents s.world ++ content p ys) e ∙ append-nil (contents s.world));
        descriptor = refl;
      }

  -- The header that ends the file, which the bytes of the packet do not reach.
  over-absurd :
      (s : Ctx W) (p : Push) (xs ys : List ℕ)
      → rest s ≡ xs ++ ys
      → after p xs ≡ over
      → after p (rest s) ≡ over
  over-absurd s p xs ys e z =
      ap (λ x. after p x) e ∙ after-append p xs ys ∙ ap (λ q. after q ys) z ∙ after-over ys

  -- After a round that goes on the service still stands, with less to do.
  Moves-Pushing :
      (s : Ctx W) (p : Push) (xs : List ℕ)
      → let r = write_round c os retry s in
        Pushing s p
        → 0 < s.data_length
        → Moves contents s p xs r
        → Pushing r.1 (after p xs) × (measure r.1 < measure s)
  Moves-Pushing s p xs v d m =
      let r = write_round c os retry s in
      let k = write_round-After c os retry s v.inv d in
      let g = k.going_on (λ x. let z = m.result in cc) in
      (
        record {
          inv = record {
            path_room = v.inv.path_room;
            buff_size = k.buff_kept;
            in_packet = k.in_packet;
            phase = g.0;
          };
          rep = m.rep;
          descriptor = m.descriptor ∙ v.descriptor;
          room = (let z = ap (λ (x : List ℕ). length x) m.packet in omega (arith, z, v.room));
        },
        g.1 (λ x. let z = m.result in cc),
      )

  loop-Round :
      (n : ℕ) (s : Ctx W) (p : Push)
      → let r = write_round c os retry s in
        Pushing s p
        → after p (rest s) ≢ over
        → measure s < suc n
        → 0 < s.data_length
        → Round contents s p r
        → ((ret : Ret) (u : Ctx W) (q : Push)
            → close_ret c os retry ret ≡ done
            → Pushing u q
            → after q (rest u) ≢ over
            → measure u < n
            → Pushed u q (write_loop c os retry n ret u))
        → Pushed s p (write_loop c os retry n r.0 r.1)
  unfolding close_ret
  loop-Round n s p v o m d (xs, inl k) ih =
      let r = write_round c os retry s in
      let (g, l) = Moves-Pushing s p xs v d k in
      let e = ap (λ ys. after p ys) k.taken ∙ after-append p xs (rest r.1) in
      Pushed-after s p xs r _ k (
        ih r.0 r.1 (after p xs) (ap (close_ret c os retry) k.result) g (λ z. o (e ∙ z))
          (omega (arith, l, m)))
  loop-Round n s p v o m d (xs, inr (ys, e, z)) ih = absurd (o (over-absurd s p xs ys e z))

  loop_if :
      (b : Bool) (s : Ctx W) (p : Push) (x y : Option (Ret × Ctx W))
      → (s.data_length == 0) ≡ b
      → (s.data_length ≡ 0 → Pushed s p x)
      → (0 < s.data_length → Pushed s p y)
      → Pushed s p (if b then x else y)
  loop_if true s p x y q h k = h (ground arith)
  loop_if false s p x y q h k = k (ground arith)

  pub loop :
      (t : Stores os fd contents) (n : ℕ) (ret : Ret) (s : Ctx W) (p : Push)
      → close_ret c os retry ret ≡ done
      → Pushing s p
      → after p (rest s) ≢ over
      → measure s < n
      → Pushed s p (write_loop c os retry n ret s)
  loop t zero ret s p h v o m = absurd (omega (arith, m))
  loop t (suc n) ret s p h v o m =
      let e = loop-step n ret s h in
      rw e (
        loop_if _ s p _ _ refl (λ z. Pushed-none s p ret h v z)
          (λ d. loop-Round n s p v o m d (round t s p v d) (λ r u q. loop t n r u q)))
