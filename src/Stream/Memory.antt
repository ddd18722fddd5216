-- ===== src/Stream/Memory.antt =====
-- `InputMemoryStream` of fma-common/stream_base.h, and a stream that collects what is written, as in the
-- tests of the repository.
use fma_common.Common.{
  ℕ, ◌+◌, ◌-◌, ◌≡◌, refl, min, leb, leb→le, [], ◌++◌, Bytes, if◌then◌else◌, length, take, drop,
  Bool-cases, inl, inr, take_nil, drop_nil, drop_past, take-min, drop-min, drop-drop, length-drop,
}
use fma_common.Stream.{FullInputStream, OutputStream}

pub record InputMemoryStream : Type 0 where
  pub buf : Bytes
  pub offset : ℕ

unfoldable pub open_memory : Bytes → InputMemoryStream
open_memory bytes = record { buf = bytes; offset = 0 }

unfoldable pub remaining : InputMemoryStream → Bytes
remaining s = drop s.offset s.buf

unfoldable pub read_memory : InputMemoryStream → ℕ → Bytes × InputMemoryStream
read_memory s size =
    let rs = min (length s.buf - s.offset) size in
    if leb (length s.buf) s.offset
    then ([], s)
    else (take rs (drop s.offset s.buf), record s { offset = s.offset + rs })

pub read_memory-bytes :
    (s : InputMemoryStream) (size : ℕ) → (read_memory s size).0 ≡ take size (remaining s)
unfolding read_memory remaining
read_memory-bytes s size = elim (Bool-cases (leb (length s.buf) s.offset)) [
  | inl e ↦ rw (e, drop_past s.offset s.buf (leb→le _ _ e), take_nil size) refl
  | inr e ↦ rw (e, ← length-drop s.offset s.buf) (take-min size (drop s.offset s.buf))
]

pub read_memory-rest :
    (s : InputMemoryStream) (size : ℕ) → remaining (read_memory s size).1 ≡ drop size (remaining s)
unfolding read_memory remaining
read_memory-rest s size = elim (Bool-cases (leb (length s.buf) s.offset)) [
  | inl e ↦ rw (e, drop_past s.offset s.buf (leb→le _ _ e), drop_nil size) refl
  | inr e ↦
      let rs = min (length s.buf - s.offset) size in
      rw (e, ← drop-drop s.offset rs s.buf, ← length-drop s.offset s.buf)
        (drop-min size (drop s.offset s.buf))
]

-- The stream fills the interface.
abbrev pub memory_stream : FullInputStream
memory_stream = record {
  State = InputMemoryStream;
  rest = remaining;
  read = read_memory;
  read_bytes = read_memory-bytes;
  read_rest = read_memory-rest;
}

unfoldable pub collect : Bytes → Bytes → Bytes
collect written bytes = written ++ bytes

pub collect_lem : (written bytes : Bytes) → collect written bytes ≡ written ++ bytes
unfolding collect
collect_lem written bytes = refl

-- A stream whose state is what was written to it.
abbrev pub collecting_stream : OutputStream
collecting_stream = record {
  State = Bytes;
  written = λ bytes. bytes;
  write = collect;
  write_lem = collect_lem;
}
