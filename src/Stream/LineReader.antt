-- ===== src/Stream/LineReader.antt =====
-- `StreamLineReader` of fma-common/stream_base.h, over any input stream. The loop of `ReadLine` runs with
-- fuel; each round that does not end it consumes the buffer or a byte of the stream at least.
use mathlib.Core.Option
use fma_common.Common.{
  ℕ, zero, suc, ◌+◌, ◌-◌, Bool, true, false, ◌&&◌, ◌||◌, Option, none, some, List, [], ◌∷◌, ◌++◌,
  Bytes, leb, ◌==◌, if◌then◌else◌, ◌>>=◌, length, take, drop, replicate, reverse,
}
use fma_common.Stream.{InputStream}

abbrev pub line_feed : ℕ
line_feed = 10

abbrev pub carriage_return : ℕ
carriage_return = 13

-- `find('\n', …)` from the start of a text; `none` is `npos`.
unfoldable pub index_of_newline : Bytes → Option ℕ
index_of_newline [] = none
index_of_newline (c ∷ cs) = if c == line_feed then some 0 else Option.map suc (index_of_newline cs)

is_ending : ℕ → Bool
is_ending c = c == line_feed || c == carriage_return

drop_endings : Bytes → Bytes
drop_endings [] = []
drop_endings (c ∷ cs) = let rest = drop_endings cs in if is_ending c then rest else c ∷ cs

-- `resize` to behind the last byte that is not a line ending, if there is one.
unfoldable pub strip_endings : Bytes → Bytes
unfolding drop_endings is_ending
strip_endings line =
    let kept = reverse (drop_endings (reverse line)) in if length kept == 0 then line else kept

module _ (I : InputStream) where
  open I use {State, rest, read}

  pub record StreamLineReader : Type 0 where
    pub buf : Bytes
    pub begin : ℕ
    pub end_ : ℕ
    pub capacity : ℕ
    pub stream : State

  -- The constructor: `resize` fills the buffer with zeros.
  unfoldable pub make_reader : State → ℕ → StreamLineReader
  make_reader stream line_size_hint = record {
    buf = replicate line_size_hint 0;
    begin = 0;
    end_ = 0;
    capacity = line_size_hint;
    stream = stream;
  }

  unfoldable pub refill : StreamLineReader → StreamLineReader
  refill r =
      let (got, s) = read r.stream r.capacity in
      record r { buf = got ++ drop (length got) r.buf; begin = 0; end_ = length got; stream = s }

  -- The end of the part of the buffer that belongs to the line, and whether the line ends there.
  unfoldable pub line_end : StreamLineReader → ℕ × Bool
  line_end r = elim (index_of_newline (drop r.begin r.buf)) [
    | none ↦ (r.end_, false)
    | some k ↦ if leb r.end_ (r.begin + k) then (r.end_, false) else (r.begin + k + 1, true)
  ]

  unfoldable pub append_part : StreamLineReader → Bytes → Bool × Bytes × StreamLineReader
  append_part r line =
      let (last, line_ends) = line_end r in
      (line_ends, line ++ take (last - r.begin) (drop r.begin r.buf), record r { begin = last })

  -- Whether a line ending was found, the line, and the reader.
  unfoldable pub read_loop : ℕ → StreamLineReader → Bytes → Option (Bool × Bytes × StreamLineReader)
  read_loop zero r line = none
  read_loop (suc fuel) r line =
      let q = if leb r.end_ r.begin then refill r else r in
      let (line_ends, line', q') = append_part q line in
      let next = read_loop fuel q' line' in
      if leb r.end_ r.begin && q.end_ == 0
      then some (false, line, q)
      else if line_ends
      then some (true, line', q')
      else next

  unfoldable pub read_line : StreamLineReader → Bool → Option (Bytes × StreamLineReader)
  read_line r strip =
      read_loop (suc (suc (length (rest r.stream)))) r [] >>= λ (line_ends, line, r').
      some (if line_ends && strip then strip_endings line else line, r')

  -- The loop of `ReadAllLines`; the fuel is the number of lines to come, and one more.
  unfoldable pub read_lines : ℕ → StreamLineReader → Bool → Option (List Bytes × StreamLineReader)
  read_lines zero r strip = none
  read_lines (suc fuel) r strip = read_line r strip >>= λ (line, r').
      let next = read_lines fuel r' strip in
      if length line == 0
      then some ([], r')
      else (next >>= λ (lines, r''). some (line ∷ lines, r''))

  unfoldable pub read_all_lines : StreamLineReader → Bool → Option (List Bytes × StreamLineReader)
  read_all_lines r strip = read_lines (suc (r.end_ - r.begin + length (rest r.stream))) r strip
