-- ===== src/Sync/Push/File.antt =====
-- A file that a peer sends: DATA blocks, cut into packets anywhere.
use mathlib.Core.Path.{subst}
use mathlib.Core.Option.{some-injective}
use micro_adb.Common.{
  ℕ, ◌+◌, ◌*◌, ◌≤◌, ◌≡◌, ◌≢◌, refl, sym, ap, ◌∙◌, List, [], ◌∷◌, ◌++◌, Option, none, some,
  on_option, append-nil, append_assoc, arith, length, take,
}
use micro_adb.Packet.{Packet, Config}
use micro_adb.Os.{Os}
use micro_adb.Sync.{Ctx, Ret, done, stuck, process_send_file_hdr}
use micro_adb.Sync.Invariant.{Idle}
use micro_adb.Sync.Progress.{weight-le, file_sync_on_write_returns}
use micro_adb.Sync.Service.{close_ret, end_write, write_loop, file_sync_on_write, rewind}
use micro_adb.Sync.Push.{
  Push, header, over, after, content, after-append, content-append, after-over,
}
use micro_adb.Sync.Push.Rounds.{Stores, rest, Rep, in_header, in_block}
use micro_adb.Sync.Push.Service.{Pushed, loop}
use micro_adb.Sync.Push.Blocks.{blocks, join, AllShort, blocks-read}

-- The data of some packets, one after another.
abbrev pub stream : List Packet → List ℕ
stream [] = []
stream (q ∷ qs) = take q.data_length q.payload ++ stream qs

module _ {W : Type 0} (c : Config) (os : Os W) (retry : ℕ) where
  -- Every packet's data lies inside its payload, of which the retries allow a write of all.
  abbrev pub AllFit : List Packet → Type 0
  AllFit [] = Unit {0}
  AllFit (q ∷ qs) = (q.data_length ≤ length q.payload) × (length q.payload ≤ retry) × AllFit qs

  abbrev pub if_done : Ret → Option (Ctx W) → Option (Ctx W)
  if_done done x = x
  if_done ret x = none

  -- The service after a packet for each call of file_sync_on_write, all of which return 0.
  unfoldable pub receive : List Packet → Ctx W → Option (Ctx W)
  receive [] s = some s
  receive (q ∷ qs) s =
      on_option (file_sync_on_write c os retry (2 * q.data_length + 2) (record s { pkt = q })) none
        (λ r. if_done r.0 (receive qs r.1))

  module _ (fd : ℕ) (contents : W → List ℕ) (t : Stores os fd contents) where
    -- Between two packets.
    pub record Sending (s : Ctx W) (p : Push) : Type 0 where
      pub idle : Idle c s
      pub rep : Rep s p
      pub descriptor : s.send_file_fd ≡ some fd

    Rep-rewind : (s : Ctx W) (p : Push) → Rep s p → Rep (rewind s) p
    unfolding rewind
    Rep-rewind s p (in_header h z y o b) = in_header h z y o b
    Rep-rewind s p (in_block z y o) = in_block z y o

    Rep-packet : (q : Packet) (s : Ctx W) (p : Push) → Rep s p → Rep (record s { pkt = q }) p
    Rep-packet q s p (in_header h z y o b) = in_header h z y o b
    Rep-packet q s p (in_block z y o) = in_block z y o

    write_loop-pushes :
        (s : Ctx W) (p : Push)
        → Sending s p
        → s.data_length ≤ length s.payload
        → length s.payload ≤ retry
        → after p (take s.data_length s.payload) ≢ over
        → Pushed c os retry fd contents
            (rewind s)
            p
            (write_loop c os retry (2 * s.data_length + 2) done (rewind s))
    unfolding rewind close_ret
    write_loop-pushes s p v f k o =
        loop c os retry fd contents t _ done (rewind s) p refl
          (record {
            inv = record {
              path_room = v.idle.path_room;
              buff_size = v.idle.buff_size;
              in_packet = omega (arith, f);
              phase = v.idle.phase;
            };
            rep = Rep-rewind s p v.rep;
            descriptor = v.descriptor;
            room = k;
          })
          o (omega (arith, weight-le s.state))

    with_packet :
        (q : Packet) (s : Ctx W) (p : Push) → Sending s p → Sending (record s { pkt = q }) p
    with_packet q s p v = record {
      idle = record {
        path_room = v.idle.path_room;
        buff_size = v.idle.buff_size;
        phase = v.idle.phase;
      };
      rep = Rep-packet q s p v.rep;
      descriptor = v.descriptor;
    }

    -- The end of a call that has returned 0.
    end-pushes :
        (s : Ctx W) (p : Push) (r : Option (Ret × Ctx W))
        → Pushed c os retry fd contents s p r
        → (u : Ctx W) × (end_write c os retry r ≡ some (done, u))
          × Rep u (after p (rest s))
          × (contents u.world ≡ contents s.world ++ content p (rest s))
          × (u.send_file_fd ≡ s.send_file_fd)
    unfolding end_write
    end-pushes s p r g = (
      g.end,
      ap (end_write c os retry) g.returns ∙ ap (λ x. some (x, g.end)) g.result,
      g.rep,
      g.file,
      g.descriptor,
    )

    -- A packet.
    write-pushes :
        (s : Ctx W) (p : Push)
        → let xs = take s.data_length s.payload in
          Sending s p
          → s.data_length ≤ length s.payload
          → length s.payload ≤ retry
          → after p xs ≢ over
          → (u : Ctx W) × (file_sync_on_write c os retry (2 * s.data_length + 2) s ≡ some (done, u))
            × Sending u (after p xs)
            × (contents u.world ≡ contents s.world ++ content p xs)
    unfolding file_sync_on_write rewind
    write-pushes s p v f k o =
        let (u, e, m, d, g) = end-pushes (rewind s) p _ (write_loop-pushes s p v f k o) in
        let (out, z, i) = file_sync_on_write_returns c os retry s v.idle f in
        let same : out ≡ (done, u) = some-injective out (done, u) (sym z ∙ e) in
        (
          u,
          e,
          record {
            idle = subst (λ (r : Ret × Ctx W). r.0 ≢ stuck → Idle c r.1) same i (λ x. cc);
            rep = m;
            descriptor = g ∙ v.descriptor;
          },
          d,
        )

    receive-pushes :
        (qs : List Packet) (s : Ctx W) (p : Push)
        → Sending s p
        → AllFit qs
        → after p (stream qs) ≢ over
        → (u : Ctx W) × (receive qs s ≡ some u)
          × Sending u (after p (stream qs))
          × (contents u.world ≡ contents s.world ++ content p (stream qs))
    unfolding receive after content
    receive-pushes [] s p v f o = (s, refl, v, sym (append-nil (contents s.world)))
    receive-pushes (q ∷ qs) s p v (f, k, fs) o =
        let xs = take q.data_length q.payload in
        let split = after-append p xs (stream qs) in
        let (u, e, m, d) =
          write-pushes (record s { pkt = q }) p (with_packet q s p v) f k
            (λ z. o (split ∙ ap (λ x. after x (stream qs)) z ∙ after-over (stream qs))) in
        let (u', e', m', d') = receive-pushes qs u (after p xs) m fs (λ z. o (split ∙ z)) in
        (
          u',
          ap (λ a. on_option a none (λ (r : Ret × Ctx W). if_done r.0 (receive qs r.1))) e ∙ e',
          subst (λ x. Sending u' x) (sym split) m',
          d'
              ∙ ap (λ x. x ++ content (after p xs) (stream qs)) d
              ∙ append_assoc (contents s.world) (content p xs) (content (after p xs) (stream qs))
              ∙ ap (λ x. contents s.world ++ x) (sym (content-append p xs (stream qs))),
        )

    -- Where write(2) takes at least one byte of what it is given and appends what it takes to the file,
    -- a service that is in phase and waits for a DATA message of a SEND, and packets whose data lies
    -- inside their payloads, which are no longer than the retries, and is one after another the DATA
    -- messages of some blocks below 2 ^ 32 bytes, cut anywhere: every file_sync_on_write returns 0,
    -- the file has then got the blocks one after another and nothing else, and the service, in phase
    -- and with the same descriptor, waits for the next message.
    pub receive-stores :
        (qs : List Packet) (bs : List (List ℕ)) (s : Ctx W)
        → Idle c s
        → s.state ≡ process_send_file_hdr
        → s.size ≡ 0
        → s.send_file_fd ≡ some fd
        → AllFit qs
        → AllShort bs
        → stream qs ≡ blocks bs
        → (u : Ctx W) × (receive qs s ≡ some u)
          × Sending u (header [])
          × (contents u.world ≡ contents s.world ++ join bs)
    receive-stores qs bs s v y z o f a e =
        let (r, k) = blocks-read bs a in
        let w = ap (λ x. after (header []) x) e ∙ r in
        let (u, g, m, d) =
          receive-pushes qs s (header [])
            (record { idle = v; rep = in_header [] refl y z refl; descriptor = o }) f
            (λ x. let no = sym w ∙ x in cc) in
        (
          u,
          g,
          subst (λ x. Sending u x) w m,
          d
              ∙ ap (λ x. contents s.world ++ content (header []) x) e
              ∙ ap (λ x. contents s.world ++ x) k,
        )
