-- ===== src/BinaryBuffer/Refine.antt =====
-- The promise of `BinaryBuffer` (fma-common/binary_buffer.h): it is a text that `Write` extends
-- behind, `WriteHead` in front, and that `Read` takes its bytes from.
use fma_common.Common.{
  ℕ, ◌+◌, ◌*◌, ◌^◌, ◌≤◌, ◌⊎◌, ◌<◌, ◌≡◌, refl, ◌∙◌, true, false, some, [], ◌++◌, arith, Bytes, ltb,
  length, take, drop, length-append, take-append-drop, length-take, length-drop, sym, ap, subst,
  Bool-cases, inl, inr, take-append, drop-append,
}
use fma_common.BinaryBuffer.{
  BinaryBuffer, Allocator, ok, failed, read, write, write_head, prepare, grow, make_room, append,
  prepend, init_ostream, reserved_header_space, empty,
}
use fma_common.BinaryBuffer.Content.{
  Holds, grow-Holds, append-Holds, make_room-Holds, prepend-Holds, read-Holds, read_failed,
}

-- A buffer that is fresh or holds a text, and that may be written.
pub data Stores (s : BinaryBuffer) : Bytes → Type 0 where
  fresh : s ≡ empty → Stores s []
  held : {text : Bytes} → s.const_buf ≡ false → Holds s text → Stores s text

abbrev allocated : Allocator → BinaryBuffer
allocated alloc = record {
  buf = some (alloc.malloc (reserved_header_space * 2));
  const_buf = false;
  pend = reserved_header_space * 2;
  gpos = reserved_header_space;
  ppos = reserved_header_space;
}

held_some : (s : BinaryBuffer) {text : Bytes} → Holds s text → (b : Bytes) × (s.buf ≡ some b)
held_some s h = (_, h.block)

module _ (alloc : Allocator) where
  allocated-Holds : Holds (allocated alloc) []
  allocated-Holds = record {
    before = take 64 (alloc.malloc 128);
    behind = drop 64 (alloc.malloc 128);
    block = ap some (sym (take-append-drop 64 (alloc.malloc 128)));
    start = omega (arith, length-take 64 (alloc.malloc 128), alloc.malloc_size 128);
    end = omega (arith, length-take 64 (alloc.malloc 128), alloc.malloc_size 128);
    size = omega (
      arith,
      length-take 64 (alloc.malloc 128),
      length-drop 64 (alloc.malloc 128),
      alloc.malloc_size 128,
    );
    fits = omega arith;
  }

  prepare-empty : prepare alloc empty ≡ ok (allocated alloc)
  unfolding prepare init_ostream empty
  prepare-empty = refl

  prepare_stored :
      (s : BinaryBuffer) {text : Bytes}
      → Stores s text
      → (t : BinaryBuffer) × (prepare alloc s ≡ ok t)
        × Holds t text
        × (t.const_buf ≡ false)
        × (t.ppos ≤ 64 + s.ppos)
  unfolding prepare init_ostream
  prepare_stored s (fresh e) = (
    allocated alloc,
    ap (prepare alloc) e ∙ prepare-empty,
    allocated-Holds,
    refl,
    rw e (omega arith),
  )
  prepare_stored s (held own h) =
      let (b, e) = held_some s h in (s, ground arith, h, own, omega arith)

  write_step :
      (s t : BinaryBuffer) (bytes : Bytes)
      → prepare alloc s ≡ ok t
      → write alloc s bytes ≡ ok (append (grow alloc t (length bytes)) bytes)
  unfolding write
  write_step s t bytes e = rw e refl

  write_head_step :
      (s t : BinaryBuffer) (bytes : Bytes)
      → prepare alloc s ≡ ok t
      → write_head alloc s bytes ≡ ok (prepend (make_room alloc t (length bytes)) bytes)
  unfolding write_head
  write_head_step s t bytes e = rw e refl

  grow_own : (s : BinaryBuffer) (n : ℕ) → s.const_buf ≡ false → (grow alloc s n).const_buf ≡ false
  unfolding grow
  grow_own s n e = ground arith

  make_room_own :
      (s : BinaryBuffer) (n : ℕ) → s.const_buf ≡ false → (make_room alloc s n).const_buf ≡ false
  unfolding make_room
  make_room_own s n e = ground arith

  append_own : (s : BinaryBuffer) (b : Bytes) → s.const_buf ≡ false → (append s b).const_buf ≡ false
  unfolding append
  append_own s b e = e

  prepend_own :
      (s : BinaryBuffer) (b : Bytes) → s.const_buf ≡ false → (prepend s b).const_buf ≡ false
  unfolding prepend
  prepend_own s b e = e

  -- A buffer that is fresh, or may be written and holds a text, has the text and the written bytes
  -- behind it after `Write`, whether the block had to grow or not, if the end stays below 2 ^ 64.
  pub write-Stores :
      (s : BinaryBuffer) {text : Bytes} (bytes : Bytes)
      → Stores s text
      → 64 + s.ppos + length bytes < 2 ^ 64
      → (t : BinaryBuffer) × (write alloc s bytes ≡ ok t) × Stores t (text ++ bytes)
  write-Stores s {text} bytes h small =
      let (t, e, th, own, near) = prepare_stored s h in
      let (gh, room, same) = grow-Holds t text th alloc (length bytes) (omega arith) in
      let u = grow alloc t (length bytes) in
      (
        append u bytes,
        write_step s t bytes e,
        held (append_own u bytes (grow_own t (length bytes) own))
            (append-Holds u text gh bytes (omega arith)),
      )

  write_head_held :
      (s : BinaryBuffer) {text : Bytes} (bytes : Bytes)
      → Stores s text
      → 128 + s.ppos + length bytes < 2 ^ 64
      → (t : BinaryBuffer) × (write_head alloc s bytes ≡ ok t)
        × (t.const_buf ≡ false)
        × Holds t (bytes ++ text)
  write_head_held s {text} bytes h small =
      let (t, e, th, own, near) = prepare_stored s h in
      let (mh, room) = make_room-Holds t text th alloc (length bytes) (omega arith) (omega arith) in
      let u = make_room alloc t (length bytes) in
      (
        prepend u bytes,
        write_head_step s t bytes e,
        prepend_own u bytes (make_room_own t (length bytes) own),
        prepend-Holds u text mh bytes room,
      )

  -- `WriteHead` on a buffer that is fresh, or may be written and holds a text, puts the written bytes
  -- before the text, in the room there or in a new block, if 128 bytes more stay below 2 ^ 64.
  pub write_head-Stores :
      (s : BinaryBuffer) {text : Bytes} (bytes : Bytes)
      → Stores s text
      → 128 + s.ppos + length bytes < 2 ^ 64
      → (t : BinaryBuffer) × (write_head alloc s bytes ≡ ok t) × Stores t (bytes ++ text)
  write_head-Stores s bytes h small =
      let (t, e, own, th) = write_head_held s bytes h small in (t, e, held own th)

  -- A header that `WriteHead` puts before a text is what `Read` returns first, and the text is left,
  -- if 128 bytes more stay below 2 ^ 64.
  pub read-write_head :
      (s : BinaryBuffer) {text : Bytes} (header : Bytes)
      → Stores s text
      → 128 + s.ppos + length header < 2 ^ 64
      → (t : BinaryBuffer) × (u : BinaryBuffer) × (write_head alloc s header ≡ ok t)
        × (read t (length header) ≡ ok (header, u))
        × Holds u text
  read-write_head s {text} header h small =
      let (t, e, own, th) = write_head_held s header h small in
      let size = length-append header text in
      let (u, r, uh) =
        read-Holds t (header ++ text) th (length header) (inside t th) (omega (arith, size)) in
      (t, u, e, r ∙ rw (take-append header text) refl, subst (Holds u) (drop-append header text) uh)
    where
      inside : (t : BinaryBuffer) → Holds t (header ++ text) → t.gpos + length header < 2 ^ 64
      inside t th = omega (arith, length-append header text, th.start, th.end, th.size, th.fits)

  -- Both writes fail on a const buffer.
  pub write_const :
      (s : BinaryBuffer) (bytes : Bytes)
      → s.const_buf ≡ true
      → (write alloc s bytes ≡ failed) × (write_head alloc s bytes ≡ failed)
  unfolding write write_head prepare
  write_const s bytes e = ground arith

-- `Read` of `n` bytes fails when the buffer holds fewer, and otherwise returns the first `n` bytes
-- of its text and leaves the rest, if the read position stays below 2 ^ 64.
pub read-cases :
    (s : BinaryBuffer) {text : Bytes} (n : ℕ)
    → Holds s text
    → s.gpos + n < 2 ^ 64
    → (read s n ≡ failed) × (length text < n)
      ⊎ ((t : BinaryBuffer) × (read s n ≡ ok (take n text, t))
          × Holds t (drop n text)
          × (n ≤ length text))
read-cases s {text} n h small = elim (Bool-cases (ltb (length text) n)) [
  | inl less ↦ inl (read_failed s text h n small (ground arith), ground arith)
  | inr more ↦
      let le : n ≤ length text = ground arith in
      let (t, e, th) = read-Holds s text h n small le in inr (t, e, th, le)
]
