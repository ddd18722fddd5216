-- ===== src/Stream.antt =====
-- fma-common/stream_base.h: the interfaces of streams, and `InputMemoryStream`. What a stream has still
-- to give, or was given, is the list of its bytes.
pub mod Memory
pub mod LineReader
pub mod Lines
pub mod ReadLine
pub mod AllLines
mod Tests
use fma_common.Common.{
  ℕ, ◌≡◌, ◌≤◌, ◌<◌, ◌∙◌, ap, ap₂, ◌++◌, Bytes, length, take, drop, arith, length-take,
  take-append-drop, min,
}

-- `InputStreamBase`: `Read` returns the bytes that it put into the buffer. They are the next ones of the
-- stream, no more than were asked for, and at least one if one was asked for and is left.
pub record InputStream : Type 1 where
  pub State : Type 0
  pub rest : State → Bytes
  pub read : State → ℕ → Bytes × State
  pub read_rest : (s : State) (n : ℕ) → (read s n).0 ++ rest (read s n).1 ≡ rest s
  pub read_le : (s : State) (n : ℕ) → length (read s n).0 ≤ n
  pub read_pos : (s : State) (n : ℕ) → 0 < n → 0 < length (rest s) → 0 < length (read s n).0

-- A stream whose `Read` returns as many bytes as were asked for, unless fewer are left, as that of
-- `InputMemoryStream` does.
pub record FullInputStream : Type 1 where
  pub State : Type 0
  pub rest : State → Bytes
  pub read : State → ℕ → Bytes × State
  pub read_bytes : (s : State) (n : ℕ) → (read s n).0 ≡ take n (rest s)
  pub read_rest : (s : State) (n : ℕ) → rest (read s n).1 ≡ drop n (rest s)

-- Such a stream is an input stream.
abbrev pub input_stream : FullInputStream → InputStream
input_stream F = record {
  State = F.State;
  rest = F.rest;
  read = F.read;
  read_rest = λ s n. ap₂ ◌++◌ (F.read_bytes s n) (F.read_rest s n) ∙ take-append-drop n (F.rest s);
  read_le =
      λ s n. let e = ap length (F.read_bytes s n) ∙ length-take n (F.rest s) in omega (arith, e);
  read_pos = λ s n some_asked some_left.
      let e = ap length (F.read_bytes s n) ∙ length-take n (F.rest s) in
      omega (arith, e, some_asked, some_left);
}

-- `OutputStreamBase`
pub record OutputStream : Type 1 where
  pub State : Type 0
  pub written : State → Bytes
  pub write : State → Bytes → State
  pub write_lem : (s : State) (bytes : Bytes) → written (write s bytes) ≡ written s ++ bytes
