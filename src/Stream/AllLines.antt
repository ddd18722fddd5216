-- ===== src/Stream/AllLines.antt =====
-- `ReadAllLines` (fma-common/stream_base.h): it ends, and gives every line of what is left of the stream.
use fma_common.Common.{
  ℕ, zero, suc, ◌+◌, ◌-◌, ◌≤◌, ◌<◌, ◌≡◌, ◌⊎◌, inl, inr, refl, sym, ap, ◌∙◌, Bool, false, ◌&&◌, some,
  List, [], ◌∷◌, ◌++◌, Bytes, ◌==◌, map, if◌then◌else◌, length, drop, arith, Bool-cases,
  length-append, length-take, length-replicate,
}
use fma_common.Stream.{InputStream}
use fma_common.Stream.LineReader.{
  line_feed, strip_endings, StreamLineReader, make_reader, read_line, read_lines, read_all_lines,
}
use fma_common.Stream.Lines.{break_line, has_newline, chunk, pending, IsReader}
use fma_common.Stream.ReadLine.{read_line_lem}

abbrev cons_first : ℕ → List Bytes → List Bytes
cons_first c [] = (c ∷ []) ∷ []
cons_first c (l ∷ ls) = (c ∷ l) ∷ ls

-- The lines of a text, with their line feeds.
abbrev pub lines_of : Bytes → List Bytes
lines_of [] = []
lines_of (c ∷ cs) = if c == line_feed then (c ∷ []) ∷ lines_of cs else cons_first c (lines_of cs)

abbrev pub join : List Bytes → Bytes
join [] = []
join (l ∷ ls) = l ++ join ls

-- What `ReadLine` makes of a line.
abbrev pub shown : Bool → Bytes → Bytes
shown strip l = if has_newline l && strip then strip_endings l else l

join-cons_first : (c : ℕ) (ls : List Bytes) → join (cons_first c ls) ≡ c ∷ join ls
join-cons_first c [] = refl
join-cons_first c (l ∷ ls) = refl

join-lines_of : (xs : Bytes) → join (lines_of xs) ≡ xs
join-lines_of [] = refl
join-lines_of (c ∷ cs) = elim (Bool-cases (c == line_feed)) [
  | inl e ↦ rw (e, join-lines_of cs) refl
  | inr e ↦ rw e (join-cons_first c (lines_of cs) ∙ ap (◌∷◌ c) (join-lines_of cs))
]

lines_of-break :
    (c : ℕ) (cs : Bytes)
    → lines_of (c ∷ cs) ≡ (break_line (c ∷ cs)).0 ∷ lines_of (break_line (c ∷ cs)).1
lines_of-break c [] = elim (Bool-cases (c == line_feed)) [ inl e ↦ rw e refl | inr e ↦ rw e refl ]
lines_of-break c (d ∷ ds) = elim (Bool-cases (c == line_feed)) [
  | inl e ↦ rw e refl
  | inr e ↦ rw e (ap (cons_first c) (lines_of-break d ds))
]

break_line-has_newline : (xs : Bytes) → has_newline (break_line xs).0 ≡ has_newline xs
break_line-has_newline [] = refl
break_line-has_newline (c ∷ cs) = elim (Bool-cases (c == line_feed)) [
  | inl e ↦ rw (e, has_newline, e) refl
  | inr e ↦ rw (e, has_newline, e) (break_line-has_newline cs)
]

break_line_size :
    (c : ℕ) (cs : Bytes)
    → (0 < length (break_line (c ∷ cs)).0) × (length (break_line (c ∷ cs)).1 ≤ length cs)
break_line_size c [] = elim (Bool-cases (c == line_feed)) [
  | inl e ↦ rw e (omega arith)
  | inr e ↦ rw e (omega arith)
]
break_line_size c (d ∷ ds) = elim (Bool-cases (c == line_feed)) [
  | inl e ↦ rw e (omega arith)
  | inr e ↦ rw e (omega (arith, break_line_size d ds))
]

strip_endings_pos : (l : Bytes) → 0 < length l → 0 < length (strip_endings l)
unfolding strip_endings
strip_endings_pos l h = ground (arith, h)

shown_pos : (strip : Bool) (l : Bytes) → 0 < length l → (length (shown strip l) == 0) ≡ false
shown_pos strip l h = elim (Bool-cases (has_newline l && strip)) [
  | inl e ↦ let p = strip_endings_pos l h in rw e (ground (arith, p))
  | inr e ↦ rw e (ground (arith, h))
]

List-cases : (xs : Bytes) → (xs ≡ []) ⊎ ((c : ℕ) × (cs : Bytes) × (xs ≡ c ∷ cs))
List-cases [] = inl refl
List-cases (c ∷ cs) = inr (c, cs, refl)

module _ (I : InputStream) where
  read_lines_end :
      (fuel : ℕ) (r q : StreamLineReader I) (strip : Bool)
      → read_line I r strip ≡ some ([], q)
      → read_lines I (suc fuel) r strip ≡ some ([], q)
  unfolding read_lines
  read_lines_end fuel r q strip e = rw e refl

  read_lines_step :
      (fuel : ℕ) (r q q' : StreamLineReader I) (strip : Bool) (line : Bytes) (ls : List Bytes)
      → read_line I r strip ≡ some (line, q)
      → (length line == 0) ≡ false
      → read_lines I fuel q strip ≡ some (ls, q')
      → read_lines I (suc fuel) r strip ≡ some (line ∷ ls, q')
  unfolding read_lines
  read_lines_step fuel r q q' strip line ls e some_left e' = rw (e, some_left, e') refl

  read_lines_lem :
      (fuel : ℕ) (r : StreamLineReader I) (strip : Bool)
      → IsReader I r
      → length (pending I r) < fuel
      → (q : StreamLineReader I) × (read_lines I fuel r strip
          ≡ some (map (shown strip) (lines_of (pending I r)), q))
        × (pending I q ≡ [])
  read_lines_lem zero r strip v enough = absurd (omega arith)
  read_lines_lem (suc fuel) r strip v enough =
      let (q, run, left, v') = read_line_lem I r strip v in
      elim (List-cases (pending I r)) [
        | inl e ↦ (
          q,
          rw e (
              read_lines_end fuel r q strip (
                run
                ∙ ap
                    (λ l. some (
                      if has_newline l && strip
                          then strip_endings (break_line l).0
                          else (break_line l).0,
                      q,
                    ))
                    e)),
          left ∙ ap (λ l. (break_line l).1) e,
        )
        | inr (c, cs, e) ↦
            let line = (break_line (c ∷ cs)).0 in
            let next : pending I q ≡ (break_line (c ∷ cs)).1 =
              left ∙ ap (λ l. (break_line l).1) e in
            let size = break_line_size c cs in
            let (q', run', left') =
              read_lines_lem fuel q strip v'
                (omega (arith, ap length next, size, ap length e, enough)) in
            let first : read_line I r strip ≡ some (shown strip line, q) =
              run
              ∙ ap
                  (λ l. some (
                    if has_newline l && strip
                        then strip_endings (break_line l).0
                        else (break_line l).0,
                    q,
                  ))
                  e
              ∙ ap (λ b. some (if b && strip then strip_endings line else line, q))
                  (sym (break_line-has_newline (c ∷ cs))) in
            (
              q',
              rw e (
                  read_lines_step fuel r q q' strip (shown strip line) _ first
                    (shown_pos strip line size.0) run'
                  ∙ ap (λ ls. some (map (shown strip) ls, q'))
                      (ap (λ l. line ∷ lines_of l) next ∙ sym (lines_of-break c cs))),
              left',
            )
      ]

  pub read_all_lines_lem :
      (r : StreamLineReader I) (strip : Bool)
      → IsReader I r
      → (q : StreamLineReader I) × (read_all_lines I r strip
          ≡ some (map (shown strip) (lines_of (pending I r)), q))
        × (pending I q ≡ [])
        × (join (lines_of (pending I r)) ≡ pending I r)
  unfolding read_all_lines
  read_all_lines_lem r strip v =
      let size = length-append (chunk I r) (I.rest r.stream) in
      let part = length-take (r.end_ - r.begin) (drop r.begin r.buf) in
      let (q, run, left) =
        read_lines_lem (suc (r.end_ - r.begin + length (I.rest r.stream))) r strip v
          (omega (arith, size, part)) in
      (q, run, left, join-lines_of (pending I r))

  -- The constructor.
  pub make_reader-IsReader :
      (s : I.State) (hint : ℕ)
      → 0 < hint
      → IsReader I (make_reader I s hint) × (pending I (make_reader I s hint) ≡ I.rest s)
  unfolding make_reader
  make_reader-IsReader s hint pos = (
    record {
      begin_le = omega arith;
      end_le = omega arith;
      full = length-replicate hint 0;
      pos = pos;
    },
    refl,
  )
