-- ===== src/BinaryBuffer.antt =====
-- fma-common/binary_buffer.h, class `BinaryBuffer`. The memory block is the list of its bytes, and a
-- null pointer is `none`; the bytes that `malloc` and `realloc` leave uninitialised are a parameter.
-- A size_t wraps at 2 ^ 64. `DetachBuf` and `FreeDetachedBuf`, which store a pointer in the block, are
-- not modelled.
mod Blocks
pub mod Content
pub mod Refine
mod Tests
use fma_common.Common.{
  ℕ, ◌+◌, ◌-◌, ◌*◌, ◌%◌, ◌^◌, ◌≡◌, max, Bool, true, false, ◌&&◌, not, Option, none, some, List, [],
  ◌++◌, Bytes, ltb, leb, if◌then◌else◌, length, take, drop,
}

abbrev pub size_mod : ℕ
size_mod = 2 ^ 64

abbrev pub reserved_header_space : ℕ
reserved_header_space = 64

pub record BinaryBuffer : Type 0 where
  pub buf : Option Bytes
  pub const_buf : Bool
  pub pend : ℕ
  pub gpos : ℕ
  pub ppos : ℕ

-- `failed` is a failed FMA_ASSERT or FMA_CHECK.
pub data Result {ℓ} (A : Type ℓ) : Type ℓ where
  ok : A → Result A
  failed : Result A

infixl 5 ◌>>=◌
abbrev pub ◌>>=◌ {ℓ κ} : {A : Type ℓ} {B : Type κ} → Result A → (A → Result B) → Result B
ok a >>= f = f a
failed >>= f = failed

-- What an allocator returns: a block of the size asked for, with any bytes in it.
pub record Allocator : Type 0 where
  pub malloc : ℕ → Bytes
  pub malloc_size : (n : ℕ) → length (malloc n) ≡ n

pub empty : BinaryBuffer
empty = record { buf = none; const_buf = false; pend = 0; gpos = 0; ppos = 0 }

-- The constructor over an existing buffer.
pub from_const : Bytes → BinaryBuffer
from_const b = record { buf = some b; const_buf = true; pend = length b; gpos = 0; ppos = length b }

-- `SetBuf(char*, size_t)`: the block is owned from now on.
pub set_buf : BinaryBuffer → Bytes → BinaryBuffer
set_buf s b = record { buf = some b; const_buf = false; pend = length b; gpos = 0; ppos = length b }

-- `SetBuf(const char*, size_t)` on any buffer; the old block is freed, if it was owned.
pub set_const_buf : BinaryBuffer → Bytes → BinaryBuffer
unfolding from_const
set_const_buf s b = from_const b

-- The move constructor: the new buffer, and what is left of `rhs`.
pub move_from : BinaryBuffer → BinaryBuffer × BinaryBuffer
unfolding empty
move_from rhs = (rhs, empty)

-- `Swap`: the two buffers afterwards.
pub swap : BinaryBuffer → BinaryBuffer → BinaryBuffer × BinaryBuffer
swap s rhs = (rhs, s)

pub get_size : BinaryBuffer → ℕ
get_size s = (s.ppos + size_mod - s.gpos) % size_mod

abbrev pub memory : BinaryBuffer → Bytes
memory s = elim s.buf [ none ↦ [] | some b ↦ b ]

-- `memcpy` of `bytes` to the offset `at` of a block, and from one.
unfoldable pub copy_to : Bytes → ℕ → Bytes → Bytes
copy_to block at bytes = take at block ++ (bytes ++ drop (at + length bytes) block)

unfoldable pub copy_from : Bytes → ℕ → ℕ → Bytes
copy_from block at size = take size (drop at block)

pub read : BinaryBuffer → ℕ → Result (Bytes × BinaryBuffer)
unfolding copy_from
read s size =
    if leb ((s.gpos + size) % size_mod) s.ppos
    then ok (copy_from (memory s) s.gpos size, record s { gpos = (s.gpos + size) % size_mod })
    else failed

-- The `memcpy` at the end of `Write`.
pub append : BinaryBuffer → Bytes → BinaryBuffer
append s bytes = record s {
  buf = some (copy_to (memory s) s.ppos bytes);
  ppos = (s.ppos + length bytes) % size_mod;
}

-- The `memcpy` at the end of `WriteHead`.
pub prepend : BinaryBuffer → Bytes → BinaryBuffer
prepend s bytes =
    let at = (s.gpos + size_mod - length bytes) % size_mod in
    record s { buf = some (copy_to (memory s) at bytes); gpos = at }

module _ (alloc : Allocator) where
  open alloc use {malloc}

  unfoldable pub realloc : Bytes → ℕ → Bytes
  realloc block n = take n block ++ drop (length block) (malloc n)

  -- The constructor with a size.
  pub with_size : ℕ → BinaryBuffer
  with_size n = record { buf = some (malloc n); const_buf = false; pend = n; gpos = 0; ppos = 0 }

  pub init_ostream : BinaryBuffer → Result BinaryBuffer
  init_ostream s = elim s.buf [
    | none ↦ ok (record {
      buf = some (malloc (reserved_header_space * 2));
      const_buf = false;
      pend = reserved_header_space * 2;
      gpos = reserved_header_space;
      ppos = reserved_header_space;
    })
    | some b ↦ failed
  ]

  -- `if (buf_ == nullptr) InitOstream();` after the assertion on `const_buf_`.
  pub prepare : BinaryBuffer → Result BinaryBuffer
  unfolding init_ostream
  prepare s = if s.const_buf then failed else elim s.buf [ none ↦ init_ostream s | some b ↦ ok s ]

  -- The reallocation in `Write`, if the block is too small.
  pub grow : BinaryBuffer → ℕ → BinaryBuffer
  grow s size =
      let new_size = (size + s.ppos) % size_mod in
      let target = max new_size (s.ppos * 2 % size_mod) in
      if ltb s.pend new_size
      then record s { buf = some (realloc (memory s) target); pend = target }
      else s

  pub write : BinaryBuffer → Bytes → Result BinaryBuffer
  write s bytes = do t ← prepare s; ok (append (grow t (length bytes)) bytes)

  -- The new block of `WriteHead`, if the room before the content is too small.
  pub make_room : BinaryBuffer → ℕ → BinaryBuffer
  make_room s size =
      let new_size =
        max ((size + s.ppos) % size_mod) ((s.ppos + reserved_header_space) % size_mod) in
      let held = (s.ppos + size_mod - s.gpos) % size_mod in
      let new_gpos = (new_size + size_mod - held) % size_mod in
      if ltb s.gpos size
      then record s {
        buf = some (copy_to (malloc new_size) new_gpos (copy_from (memory s) s.gpos held));
        gpos = new_gpos;
        ppos = new_size;
        pend = new_size;
      }
      else s

  pub write_head : BinaryBuffer → Bytes → Result BinaryBuffer
  write_head s bytes = do t ← prepare s; ok (prepend (make_room t (length bytes)) bytes)
