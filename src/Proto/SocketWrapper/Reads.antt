-- ===== src/Proto/SocketWrapper/Reads.antt =====
-- libs/proto/src/socketwrapper: the buffer that a frame is read into.
use distributed_systems_hw.Base.{
  ℕ, suc, ◌+◌, List, ◌++◌, ◌≤◌, ◌≡◌, refl, ◌⊎◌, inl, inr, true, false, [], ◌∷◌, ltb, arith,
  Bool-cases,
}
use distributed_systems_hw.Proto.Platform.{Platform}
use distributed_systems_hw.Proto.SocketWrapper.{
  SocketWrapper, Effect, PendingWrite, call, async_write, close_socket, emit_invalidated,
  emit_frame, abort_loop, check_pending_writes, invalidate, async_read, resize, prepared_size,
  read_frame,
}
use distributed_systems_hw.Proto.SocketWrapper.Writes.{invalidate-invalidated}

prepared_enough :
    ⦃p : Platform⦄
    → (s : SocketWrapper) → p.allocates s.incoming_frame_size ≡ true
    → s.incoming_frame_size ≤ prepared_size s
unfolding prepared_size resize
prepared_enough ⦃p⦄ s h = elim (Bool-cases (ltb s.buffer_size s.incoming_frame_size)) [
  | inl small ↦ rw small (ground (arith, h))
  | inr large ↦ rw large (ground (arith, h, large))
]

-- The reads that are started.
abbrev pub reads : List Effect → ℕ
reads [] = 0
reads (async_read n ∷ rest) = suc (reads rest)
reads (effect ∷ rest) = reads rest

reads-abort : (ws : List PendingWrite) → reads (abort_loop ws) ≡ 0
reads-abort [] = refl
reads-abort (w ∷ ws) = reads-abort ws

reads-append : (xs ys : List Effect) → reads (xs ++ ys) ≡ reads xs + reads ys
reads-append [] ys = omega arith
reads-append (call c code ∷ xs) ys = reads-append xs ys
reads-append (async_write frame ∷ xs) ys = reads-append xs ys
reads-append (async_read n ∷ xs) ys = omega (arith, reads-append xs ys)
reads-append (close_socket ∷ xs) ys = reads-append xs ys
reads-append (emit_invalidated ∷ xs) ys = reads-append xs ys
reads-append (emit_frame frame ∷ xs) ys = reads-append xs ys

reads-invalidate : (s : SocketWrapper) → reads (invalidate s).1 ≡ 0
unfolding invalidate check_pending_writes
reads-invalidate s = elim (Bool-cases s.invalidated) [
  | inl twice ↦ rw twice (reads-abort s.pending_writes)
  | inr once ↦ rw once (
      omega (
        arith,
        reads-append (abort_loop s.pending_writes) (emit_invalidated ∷ []),
        reads-abort s.pending_writes,
      ))
]

-- readFrame() starts one read, of a frame into a buffer that has room for it, or invalidates the
-- socket and starts no read; the second it does only when the allocator gives no memory.
pub read_frame_lem :
    ⦃p : Platform⦄
    → (s : SocketWrapper)
    → (((read_frame s).1 ≡ async_read s.incoming_frame_size ∷ [])
        × (s.incoming_frame_size ≤ (read_frame s).0.buffer_size))
      ⊎ (((read_frame s).0.invalidated ≡ true)
          × (reads (read_frame s).1 ≡ 0)
          × (p.allocates s.incoming_frame_size ≡ false))
unfolding read_frame
read_frame_lem ⦃p⦄ s = elim (Bool-cases (ltb (prepared_size s) s.incoming_frame_size)) [
  | inl short ↦
      rw (short, read_frame)
        (inr (
          invalidate-invalidated (record s { buffer_size = prepared_size s }),
          reads-invalidate (record s { buffer_size = prepared_size s }),
          elim (Bool-cases (p.allocates s.incoming_frame_size)) [
            | inl given ↦ absurd (ground (arith, prepared_enough s given, short))
            | inr refused ↦ refused
          ],
        ))
  | inr enough ↦ rw (enough, read_frame) (inl (refl, ground (arith, enough)))
]
