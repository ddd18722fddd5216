-- ===== src/Stream/Tests.antt =====
-- Runs of `StreamLineReader` (fma-common/stream_base.h) over a stream in memory.
use fma_common.Common.{
  take, drop, min, take-append-drop, length-take, ◌≡◌, refl, true, some, [], ◌∷◌, ◌++◌, Bytes,
  codes, arith, map,
}
use fma_common.Stream.{InputStream, input_stream}
use fma_common.Stream.Memory.{open_memory, remaining, memory_stream}
use fma_common.Stream.LineReader.{StreamLineReader, make_reader, read_all_lines, strip_endings}
use fma_common.Stream.AllLines.{read_all_lines_lem, make_reader-IsReader, lines_of, shown}

abbrev text_demo : Bytes
text_demo = codes "ab" ++ (13 ∷ 10 ∷ 10 ∷ codes "cde")

-- A stream that gives one byte at a time.
abbrev slow_stream : InputStream
slow_stream = record {
  State = Bytes;
  rest = λ s. s;
  read = λ s n. (take (min n 1) s, drop (min n 1) s);
  read_rest = λ s n. take-append-drop (min n 1) s;
  read_le = λ s n. let e = length-take (min n 1) s in omega (arith, e);
  read_pos = λ s n asked left. let e = length-take (min n 1) s in omega (arith, e, asked, left);
}

abbrev reader_demo : StreamLineReader slow_stream
reader_demo = make_reader slow_stream text_demo 2

-- The line ending of a blank line is not stripped.
shown_demo : map (shown true) (lines_of text_demo) ≡ codes "ab" ∷ (10 ∷ []) ∷ codes "cde" ∷ []
unfolding strip_endings
shown_demo = refl

-- The lines of a stream in memory.
memory_demo :
    (q : StreamLineReader (input_stream memory_stream)) × (read_all_lines
        (input_stream memory_stream)
        (make_reader (input_stream memory_stream) (open_memory text_demo) 2)
        true
      ≡ some (map (shown true) (lines_of text_demo), q))
unfolding make_reader remaining open_memory
memory_demo =
    let all =
      read_all_lines_lem (input_stream memory_stream)
        (make_reader (input_stream memory_stream) (open_memory text_demo) 2) true
        (make_reader-IsReader (input_stream memory_stream) (open_memory text_demo) 2
          (omega arith)).0 in
    (all.0, all.1)
