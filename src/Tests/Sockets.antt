-- ===== src/Tests/Sockets.antt =====
-- A socket with three writes, the first of which is done when the second one fails.
use distributed_systems_hw.Base.{ℕ, ◌+◌, ◌≤◌, ◌≡◌, ◌⊎◌, refl, true, false, List, [], ◌∷◌, ltb}
use distributed_systems_hw.Proto.HostBytes.{to_bytes}
use distributed_systems_hw.Proto.Platform.{Platform}
use distributed_systems_hw.Proto.SocketWrapper.{
  success, failed, aborted, PendingWrite, SocketWrapper, call, async_write, async_read,
  close_socket, emit_invalidated, create, start_write, check_pending_writes, invalidate,
  write_frame, after_write, on_written, read_frame,
}
use distributed_systems_hw.Proto.SocketWrapper.Writes.{called, waits, IsSteady}
use distributed_systems_hw.Proto.SocketWrapper.Runs.{
  Event, write, written, run_all, handed, run-IsSteady,
}
use distributed_systems_hw.Proto.SocketWrapper.Reads.{reads, read_frame_lem}

instance abbrev small : Platform
small = record { reserve_throws = λ n. ltb 1000 n; allocates = λ n. ltb n 1000 }

abbrev pending : ℕ → PendingWrite
pending callback = record { frame = (104 ∷ []) ∷ (105 ∷ []) ∷ []; callback = callback }

abbrev events : List Event
events =
    write (pending 6)
    ∷ write (pending 7)
    ∷ write (pending 8)
    ∷ written success
    ∷ written failed
    ∷ []

run-IsSteady_example :
    IsSteady (run_all events create).0
    × ((h : ℕ)
        → called h (run_all events create).1 + waits h (run_all events create).0 ≡ handed h events)
run-IsSteady_example = run-IsSteady events

effects :
    (run_all events create).1
    ≡ async_write (to_bytes 8 2 ∷ (104 ∷ []) ∷ (105 ∷ []) ∷ [])
      ∷ call 6 success
      ∷ async_write (to_bytes 8 2 ∷ (104 ∷ []) ∷ (105 ∷ []) ∷ [])
      ∷ call 7 failed
      ∷ close_socket
      ∷ call 8 aborted
      ∷ emit_invalidated
      ∷ []
unfolding check_pending_writes start_write invalidate write_frame after_write on_written
effects = refl

abbrev reading : SocketWrapper
reading = record create { incoming_frame_size = 400 }

read_frame_lem_example :
    (((read_frame reading).1 ≡ async_read 400 ∷ []) × (400 ≤ (read_frame reading).0.buffer_size))
    ⊎ (((read_frame reading).0.invalidated ≡ true)
        × (reads (read_frame reading).1 ≡ 0)
        × (ltb 400 1000 ≡ false))
read_frame_lem_example = read_frame_lem reading
