-- ===== src/BinaryBuffer/Content.antt =====
-- When a `BinaryBuffer` (fma-common/binary_buffer.h) holds a text, and what its steps do to it.
use fma_common.Common.{
  ℕ, ◌+◌, ◌-◌, ◌*◌, ◌%◌, ◌^◌, ◌≤◌, ◌<◌, max, ◌≡◌, refl, sym, ◌∙◌, ap, true, some, ◌++◌, arith,
  Bytes, ltb, leb, length, take, drop, take-append, take-append-drop, length-take, length-append,
  length-drop, append_assoc, inl, inr, Bool-cases,
}
use fma_common.BinaryBuffer.{
  BinaryBuffer, Allocator, ok, failed, read, size_mod, copy_to, copy_from, realloc, grow, append,
  make_room, prepend, memory,
}
use fma_common.BinaryBuffer.Blocks.{drop_prefix, take_all, take_inside, copy_to_prefix}

-- The block is the free room before the read position, the text, and the free room behind it.
pub record Holds (s : BinaryBuffer) (text : Bytes) : Type 0 where
  pub before : Bytes
  pub behind : Bytes
  pub block : s.buf ≡ some (before ++ (text ++ behind))
  pub start : s.gpos ≡ length before
  pub end : s.ppos ≡ length before + length text
  pub size : s.pend ≡ length before + length text + length behind
  pub fits : s.pend < 2 ^ 64

memory-some : (s : BinaryBuffer) {b : Bytes} → s.buf ≡ some b → memory s ≡ b
memory-some s e = rw e refl

module _ (alloc : Allocator) where
  realloc_grows :
      (b : Bytes) (n : ℕ) → length b ≤ n → realloc alloc b n ≡ b ++ drop (length b) (alloc.malloc n)
  unfolding realloc
  realloc_grows b n h = ap (λ (x : Bytes). x ++ drop (length b) (alloc.malloc n)) (take_all n b h)

length_block :
    (before text behind : Bytes)
    → length (before ++ (text ++ behind)) ≡ length before + length text + length behind
length_block before text behind =
    omega (arith, length-append before (text ++ behind), length-append text behind)

module _ (s : BinaryBuffer) (text : Bytes) (h : Holds s text) where
  open h use {before, behind, block, start, end, size, fits}

  held : memory s ≡ before ++ (text ++ behind)
  held = memory-some s block

  module _ (alloc : Allocator) where
    extended :
        (t : ℕ)
        → s.pend ≤ t
        → t < 2 ^ 64
        → Holds (record s { buf = some (realloc alloc (memory s) t); pend = t }) text
    extended t more small = record {
      before = before;
      behind = behind ++ spare;
      block = ap some (
          rw held (
            realloc_grows alloc (before ++ (text ++ behind)) t
              (omega (arith, length_block before text behind))
            ∙ simp append_assoc));
      start = start;
      end = end;
      size = omega (
        arith,
        length-append behind spare,
        length-drop (length (before ++ (text ++ behind))) (alloc.malloc t),
        length_block before text behind,
        alloc.malloc_size t,
      );
      fits = small;
    }
      where
        spare : Bytes
        spare = drop (length (before ++ (text ++ behind))) (alloc.malloc t)

    pub grow-Holds :
        (n : ℕ)
        → s.ppos + n < 2 ^ 64
        → Holds (grow alloc s n) text
          × (s.ppos + n ≤ (grow alloc s n).pend)
          × ((grow alloc s n).ppos ≡ s.ppos)
    unfolding grow
    grow-Holds n room = elim (Bool-cases (ltb s.pend ((n + s.ppos) % size_mod))) [
      | inl more ↦ rw more (
        extended (max ((n + s.ppos) % size_mod) (s.ppos * 2 % size_mod)) (ground arith)
            (omega arith),
        omega arith,
        refl,
      )
      | inr enough ↦ rw enough (h, ground arith, refl)
    ]

  pub append-Holds :
      (bytes : Bytes) → s.ppos + length bytes ≤ s.pend → Holds (append s bytes) (text ++ bytes)
  unfolding append
  append-Holds bytes room = record {
    before = before;
    behind = drop (length bytes) behind;
    block = ap some (
        rw (held, ← append_assoc before text behind)
          (copy_to_prefix (before ++ text) behind bytes s.ppos
              (omega (arith, length-append before text))
            ∙ simp append_assoc));
    start = start;
    end = omega (arith, length-append text bytes);
    size = omega (arith, length-append text bytes, length-drop (length bytes) behind);
    fits = fits;
  }

  pub prepend-Holds :
      (bytes : Bytes) → length bytes ≤ s.gpos → Holds (prepend s bytes) (bytes ++ text)
  unfolding prepend
  prepend-Holds bytes room = rw back (record {
    before = take at before;
    behind = behind;
    block = ap some (
        rw held (
          ap (λ (x : Bytes). copy_to (x ++ (text ++ behind)) at bytes)
            (sym (take-append-drop at before))
          ∙ ap (λ (x : Bytes). copy_to x at bytes)
              (append_assoc (take at before) (drop at before) (text ++ behind))
          ∙ copy_to_prefix (take at before) (drop at before ++ (text ++ behind)) bytes at
              (omega (arith, length-take at before))
          ∙ ap (λ (x : Bytes). take at before ++ (bytes ++ x))
              (drop_prefix (drop at before) (text ++ behind) (length bytes) 0
                (omega (arith, length-drop at before)))
          ∙ simp append_assoc));
    start = omega (arith, length-take at before);
    end = omega (arith, length-take at before, length-append bytes text);
    size = omega (arith, length-take at before, length-append bytes text);
    fits = fits;
  })
    where
      at : ℕ
      at = s.gpos - length bytes

      back : (s.gpos + size_mod - length bytes) % size_mod ≡ at
      back = omega arith

  read_text : copy_from (memory s) s.gpos (length text) ≡ text
  unfolding copy_from
  read_text =
      rw (held, drop_prefix before (text ++ behind) s.gpos 0 (omega arith))
        (take-append text behind)

  module _ (alloc : Allocator) where
    moved :
        (n : ℕ)
        → length text ≤ n
        → n < 2 ^ 64
        → Holds
            (record s {
              buf = some (copy_to (alloc.malloc n) (n - length text) text);
              gpos = n - length text;
              ppos = n;
              pend = n;
            })
            text
    unfolding copy_to
    moved n more small = record {
      before = take (n - length text) (alloc.malloc n);
      behind = drop (n - length text + length text) (alloc.malloc n);
      block = refl;
      start = front;
      end = omega (arith, front);
      size = omega (
        arith,
        front,
        length-drop (n - length text + length text) (alloc.malloc n),
        alloc.malloc_size n,
      );
      fits = small;
    }
      where
        front : n - length text ≡ length (take (n - length text) (alloc.malloc n))
        front = omega (arith, length-take (n - length text) (alloc.malloc n), alloc.malloc_size n)

    pub make_room-Holds :
        (n : ℕ)
        → s.ppos + n < 2 ^ 64
        → s.ppos + 64 < 2 ^ 64
        → Holds (make_room alloc s n) text × (n ≤ (make_room alloc s n).gpos)
    unfolding make_room
    make_room-Holds n room header = elim (Bool-cases (ltb s.gpos n)) [
      | inl more ↦
          let target = max ((n + s.ppos) % size_mod) ((s.ppos + 64) % size_mod) in
          let kept : (s.ppos + size_mod - s.gpos) % size_mod ≡ length text = omega arith in
          let at : (target + size_mod - length text) % size_mod ≡ target - length text =
            omega arith in
          rw (more, kept, at, read_text) (moved target (omega arith) (omega arith), ground arith)
      | inr enough ↦ rw enough (h, ground arith)
    ]

  pub read-Holds :
      (n : ℕ)
      → s.gpos + n < 2 ^ 64
      → n ≤ length text
      → (t : BinaryBuffer) × (read s n ≡ ok (take n text, t)) × Holds t (drop n text)
  unfolding read copy_from
  read-Holds n small room =
      let same : (s.gpos + n) % size_mod ≡ s.gpos + n = omega arith in
      let inside : leb (s.gpos + n) s.ppos ≡ true = ground arith in
      let bytes : take n (drop s.gpos (memory s)) ≡ take n text =
        rw (held, drop_prefix before (text ++ behind) s.gpos 0 (omega arith))
          (take_inside n text behind room) in
      (
        record s { gpos = s.gpos + n },
        rw (same, inside, bytes) refl,
        record {
          before = before ++ take n text;
          behind = behind;
          block =
              block
              ∙ rw
                  (
                    append_assoc before (take n text) (drop n text ++ behind),
                    ← append_assoc (take n text) (drop n text) behind,
                    take-append-drop n text,
                  )
                  refl;
          start = omega (arith, length-append before (take n text), length-take n text);
          end =
              omega
                (arith, length-append before (take n text), length-take n text, length-drop n text);
          size =
              omega
                (arith, length-append before (take n text), length-take n text, length-drop n text);
          fits = fits;
        },
      )

  pub read_failed : (n : ℕ) → s.gpos + n < 2 ^ 64 → length text < n → read s n ≡ failed
  unfolding read
  read_failed n small more = ground arith
