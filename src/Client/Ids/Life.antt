-- ===== src/Client/Ids/Life.antt =====
-- adb_client.c: the ids of the services over the whole life of a client.
use micro_adb.Common.{ℕ, ◌+◌, ◌^◌, ◌≤◌, ◌<◌, ◌≡◌, some, false, arith}
use micro_adb.Client.{Client, Env}
use micro_adb.Client.Transport.{set_world}
use micro_adb.Client.Receive.{no_buffers, adb_uv_allocate_frame}
use micro_adb.Client.Stream.{tcp_stream_allocate_frame}
use micro_adb.Client.Life.{adb_uv_create_client}
use micro_adb.Client.Begin.{Fresh, created-Begun}
use micro_adb.Client.Lists.{count}
use micro_adb.Client.Steady.{Steady-trans, steady, allocate-Steady}
use micro_adb.Client.Walk.Callbacks.{
  stream_read-Rel, stream_written-Rel, stream_closed-Rel, shell_read-Rel, shell_written-Rel,
  pipe_closed-Rel, process_closed-Rel,
}
use micro_adb.Client.Ownership.{Level}
use micro_adb.Client.Ownership.Steps.{
  Step, allocate_frame, data_available, after_write, socket_data, socket_full, socket_written,
  socket_connected, socket_closed, shell_data, shell_full, shell_written, shell_pipe_closed,
  shell_closed, elsewhere,
}
use micro_adb.Client.Ids.Steps.{
  Named, Named-Steady, moved-Named, on_connect-Named, allocate_for-Named, read-Named,
  written-Steady, buffered-Steady,
}

module _ {W : Type 0} (e : Env W) where
  Step-Named :
      (l : Level W) {c c' : Client W}
      → Step e l c c'
      → c.next_service_id + 1 < 2 ^ 32
      → Named c
      → Named c'
  unfolding tcp_stream_allocate_frame adb_uv_allocate_frame
  Step-Named l {c} allocate_frame h n = allocate_for-Named e c c.cur_packet n
  Step-Named l {c} (data_available r) h n = read-Named e c r n h
  Step-Named l {c} (after_write w p ok r) h n =
      Named-Steady (set_world w c) _ (written-Steady e _ p ok) (moved-Named w c n)
  Step-Named l {c} (socket_data s st p r z i j) h n =
      Named-Steady c _
        (Steady-trans (allocate-Steady e c false) (stream_read-Rel e (steady e) 0 s st p r _ j)) n
  Step-Named l {c} (socket_full s st p z i) h n =
      Named-Steady c _
        (Steady-trans (allocate-Steady e c false)
          (stream_read-Rel e (steady e) 0 s st p no_buffers _ i))
        n
  Step-Named l {c} (socket_written w s p ok r i) h n =
      Named-Steady (set_world w c) _ (stream_written-Rel e (steady e) 0 s p ok (set_world w c) i)
        (moved-Named w c n)
  Step-Named l {c} (socket_connected s st ok) h n = on_connect-Named e s st ok c n
  Step-Named l {c} (socket_closed s) h n = Named-Steady c _ (stream_closed-Rel e (steady e) 0 s c) n
  Step-Named l {c} (shell_data s a p r z i j) h n =
      Named-Steady c _
        (Steady-trans (buffered-Steady e c a) (shell_read-Rel e (steady e) 0 s p r _ j)) n
  Step-Named l {c} (shell_full s a p z i) h n =
      Named-Steady c _
        (Steady-trans (buffered-Steady e c a) (shell_read-Rel e (steady e) 0 s p no_buffers _ i)) n
  Step-Named l {c} (shell_written w s p ok r i) h n =
      Named-Steady (set_world w c) _ (shell_written-Rel e (steady e) 0 s p ok (set_world w c) i)
        (moved-Named w c n)
  Step-Named l {c} (shell_pipe_closed s) h n =
      Named-Steady c _ (pipe_closed-Rel e (steady e) 0 s c) n
  Step-Named l {c} (shell_closed s) h n = Named-Steady c _ (process_closed-Rel e (steady e) 0 s c) n
  Step-Named l {c} (elsewhere w i) h n = moved-Named w c n

  -- From adb_uv_create_client on, while the next id is not the last of its 32 bits.
  pub data Serves (l : Level W) : Client W → Type 0 where
    start : (w : W) (c : Client W) → (adb_uv_create_client e w).0 ≡ some c → Serves l c
    later :
        {c c' : Client W}
        → Serves l c
        → c.next_service_id + 1 < 2 ^ 32
        → Step e l c c'
        → Serves l c'

  Fresh-Named : (c : Client W) → Fresh c → Named c
  Fresh-Named c f = record {
    zeros = 0;
    numbered = rw f.services (record {
      next = omega (arith, f.next);
      once = λ i p. omega arith;
      below = λ i q. omega (arith, q);
      above = omega arith;
    });
  }

  Serves-Named : (l : Level W) {c : Client W} → Serves l c → Named c
  Serves-Named l (start w c h) = Fresh-Named c ((created-Begun e w).fresh c h)
  Serves-Named l (later r h s) = Step-Named l s h (Serves-Named l r)

  -- In any state that a client reaches by libuv's calls, until the next id is the last of its 32 bits,
  -- an id above 0 is the id of one service at most, and every id lies below the next one. Writes of a service that fail once it has left the
  -- list are left out.
  pub Serves-ids :
      (l : Level W) {c : Client W}
      → Serves l c
      → ((i : ℕ) → 0 < i → count i c.services ≤ 1)
        × ((i : ℕ) → 0 < count i c.services → i < c.next_service_id)
  Serves-ids l r = let n = (Serves-Named l r).numbered in (n.once, n.below)
