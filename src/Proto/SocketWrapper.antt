-- ===== src/Proto/SocketWrapper.antt =====
-- libs/proto/src/socketwrapper: frames behind their size on a socket. The calls that a method makes
-- are its effects; a callback is a number, and `in_flight` is the one that the running async_write
-- has captured.
pub mod Writes
pub mod Runs
pub mod Reads
use mathlib.Core.List.{reverse}
use distributed_systems_hw.Base.{
  ℕ, ◌+◌, ◌%◌, Bool, true, false, not, ◌||◌, Option, none, some, List, [], ◌∷◌, ◌++◌, length,
  if◌then◌else◌, ltb, ◌==◌, Bytes, u64_mod,
}
use distributed_systems_hw.Proto.HostBytes.{to_bytes}
use distributed_systems_hw.Proto.Platform.{Platform}
use distributed_systems_hw.Proto.Serializer.{Sequence}

-- The error code that a callback is given: none, that of an operation that failed, or
-- kAbortedErrorCode.
pub data ErrorCode : Type 0 where
  success failed aborted : ErrorCode

-- struct PendingWrite
pub record PendingWrite : Type 0 where
  pub frame : Sequence
  pub callback : ℕ

-- The members of SocketWrapper; of the incoming buffer its size.
pub record SocketWrapper : Type 0 where
  pub invalidated : Bool
  pub buffer_size : ℕ
  pub incoming_frame_size : ℕ
  pub outcoming_frame_size : ℕ
  pub write_in_progress : Bool
  pub in_flight : Option ℕ
  pub pending_writes : List PendingWrite

pub data Effect : Type 0 where
  call : ℕ → ErrorCode → Effect
  async_write : Sequence → Effect
  async_read : ℕ → Effect
  close_socket emit_invalidated : Effect
  emit_frame : Bytes → Effect

-- create()
abbrev pub create : SocketWrapper
create = record {
  invalidated = false;
  buffer_size = 0;
  incoming_frame_size = 0;
  outcoming_frame_size = 0;
  write_in_progress = false;
  in_flight = none;
  pending_writes = [];
}

-- The loop of checkPendingWrites() on a socket that was invalidated.
abbrev pub abort_loop : List PendingWrite → List Effect
abort_loop [] = []
abort_loop (w ∷ rest) = call w.callback aborted ∷ abort_loop rest

-- The loop over the pieces of a frame.
abbrev pub frame_size : ℕ → Sequence → ℕ
frame_size size [] = size
frame_size size (piece ∷ rest) = frame_size ((size + length piece) % u64_mod) rest

-- The frame with the buffer of its size in front.
abbrev pub with_size : ℕ → Sequence → Sequence
with_size size frame = reverse (reverse frame ++ to_bytes 8 size ∷ [])

-- checkPendingWrites(), where no write is in progress.
unfoldable pub start_write : List PendingWrite → SocketWrapper → SocketWrapper × List Effect
start_write [] s = (s, [])
start_write (w ∷ rest) s =
    let size = frame_size 0 w.frame in
    (
      record s {
        write_in_progress = true;
        in_flight = some w.callback;
        pending_writes = rest;
        outcoming_frame_size = size;
      },
      async_write (with_size size w.frame) ∷ [],
    )

-- checkPendingWrites()
unfoldable pub check_pending_writes : SocketWrapper → SocketWrapper × List Effect
unfolding start_write
check_pending_writes s =
    if s.invalidated
    then (record s { pending_writes = [] }, abort_loop s.pending_writes)
    else if s.write_in_progress
    then (s, [])
    else start_write s.pending_writes s

-- invalidate()
unfoldable pub invalidate : SocketWrapper → SocketWrapper × List Effect
unfolding check_pending_writes
invalidate s =
    let checked = check_pending_writes (record s { invalidated = true }) in
    if s.invalidated
    then checked
    else (checked.0, close_socket ∷ (checked.1 ++ emit_invalidated ∷ []))

-- The destructor, which emits no signal.
unfoldable pub destroy : SocketWrapper → SocketWrapper × List Effect
unfolding check_pending_writes
destroy s =
    let checked = check_pending_writes (record s { invalidated = true }) in
    if s.invalidated then checked else (checked.0, close_socket ∷ checked.1)

-- The function that writeFrame() posts.
unfoldable pub write_frame : PendingWrite → SocketWrapper → SocketWrapper × List Effect
unfolding check_pending_writes
write_frame w s = check_pending_writes (record s { pending_writes = s.pending_writes ++ w ∷ [] })

-- The same where the SocketWrapper is gone.
abbrev pub write_frame_gone : PendingWrite → List Effect
write_frame_gone w = call w.callback aborted ∷ []

-- The callback of async_write, behind the call of `callback`: with an error the socket is invalidated.
unfoldable pub after_write : ErrorCode → SocketWrapper → SocketWrapper × List Effect
unfolding invalidate check_pending_writes
after_write success s =
    check_pending_writes (record s { write_in_progress = false; in_flight = none })
after_write error s =
    let dead = invalidate s in
    let checked =
      check_pending_writes (record dead.0 { write_in_progress = false; in_flight = none }) in
    (checked.0, dead.1 ++ checked.1)

-- The callback of async_write.
unfoldable pub on_written : ErrorCode → SocketWrapper → SocketWrapper × List Effect
unfolding after_write
on_written code s = elim s.in_flight [
  | none ↦ (s, [])
  | some callback ↦ let after = after_write code s in (after.0, call callback code ∷ after.1)
]

-- readFrameSize()
abbrev pub read_frame_size : SocketWrapper → SocketWrapper × List Effect
read_frame_size s = (s, async_read 8 ∷ [])

-- Buffer::resize(), of a buffer with its size: the new size, which is 0 where nothing is allocated.
unfoldable pub resize : ⦃p : Platform⦄ → ℕ → ℕ → Bool × ℕ
resize ⦃p⦄ bytes size =
    if bytes == size then (true, size) else if p.allocates bytes then (true, bytes) else (false, 0)

-- The size of the buffer behind the first test of readFrame().
unfoldable pub prepared_size : ⦃p : Platform⦄ → SocketWrapper → ℕ
unfolding resize
prepared_size s =
    if ltb s.buffer_size s.incoming_frame_size || ltb 128 s.buffer_size
    then (resize s.incoming_frame_size s.buffer_size).1
    else s.buffer_size

-- readFrame()
unfoldable pub read_frame : ⦃p : Platform⦄ → SocketWrapper → SocketWrapper × List Effect
unfolding invalidate prepared_size
read_frame s =
    let size = prepared_size s in
    let s' = record s { buffer_size = size } in
    if ltb size s.incoming_frame_size
    then invalidate s'
    else (s', async_read s.incoming_frame_size ∷ [])

-- The callback of the read in readFrameSize(): none is an error.
unfoldable pub on_size_read :
    ⦃p : Platform⦄ → Option ℕ → SocketWrapper → SocketWrapper × List Effect
unfolding invalidate read_frame
on_size_read none s = invalidate s
on_size_read (some size) s = read_frame (record s { incoming_frame_size = size })

-- The callback of the read in readFrame(): none is an error.
unfoldable pub on_frame_read : Option Bytes → SocketWrapper → SocketWrapper × List Effect
unfolding invalidate
on_frame_read none s = invalidate s
on_frame_read (some frame) s = (s, emit_frame frame ∷ async_read 8 ∷ [])
