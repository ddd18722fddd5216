-- ===== src/Stream/ReadLine.antt =====
-- `ReadLine` and `ReadAllLines` (fma-common/stream_base.h): they end, and give every line of the stream.
use fma_common.Common.{
  ℕ, zero, suc, ◌+◌, ◌-◌, ◌≤◌, ◌<◌, ◌≡◌, ◌⊎◌, inl, inr, refl, sym, ap, ◌∙◌, Bool, true, false, ◌&&◌,
  Option, some, [], ◌∷◌, ◌++◌, Bytes, leb, ◌==◌, if◌then◌else◌, length, drop, arith, append_assoc,
  append-nil, take-append, length-append, length-drop, dec_lt,
}
use fma_common.Stream.{InputStream}
use fma_common.Stream.LineReader.{
  strip_endings, StreamLineReader, refill, append_part, read_loop, read_line, make_reader,
}
use fma_common.Stream.Lines.{break_line, has_newline, chunk, pending, IsReader, append_part-cases}

not_leb : (a b : ℕ) → b < a → leb a b ≡ false
not_leb a b h = ground arith

is_leb : (a b : ℕ) → a ≤ b → leb a b ≡ true
is_leb a b h = ground arith

not_zero : (n : ℕ) → 0 < n → (n == 0) ≡ false
not_zero n h = ground arith

empty_of_length : (xs : Bytes) → length xs ≡ 0 → xs ≡ []
empty_of_length [] h = refl
empty_of_length (x ∷ xs) h = absurd (omega arith)

module _ (I : InputStream) where
  open I use {State, rest, read, read_rest, read_le, read_pos}

  -- A refill moves bytes from the stream into the buffer, at least one if there are any.
  refill_lem :
      (r : StreamLineReader I)
      → IsReader I r
      → IsReader I (refill I r)
        × (pending I (refill I r) ≡ rest r.stream)
        × ((refill I r).begin ≡ 0)
        × (((refill I r).end_ ≡ 0) × (rest r.stream ≡ [])
            ⊎ (0 < (refill I r).end_)
              × (length (rest (refill I r).stream) < length (rest r.stream)))
  unfolding refill
  refill_lem r v =
      let got = (read r.stream r.capacity).0 in
      let stale = drop (length got) r.buf in
      let all : length got - 0 ≡ length got = omega arith in
      let joined = length-append got stale in
      let stale_size = length-drop (length got) r.buf in
      (
        record {
          begin_le = omega arith;
          end_le = omega (arith, joined);
          full = omega (arith, joined, stale_size, v.full, read_le r.stream r.capacity);
          pos = v.pos;
        },
        rw (all, take-append got stale) (read_rest r.stream r.capacity),
        refl,
        by_size (length (rest r.stream)) refl,
      )
    where
      sum :
          length (rest r.stream)
          ≡ length (read r.stream r.capacity).0 + length (rest (read r.stream r.capacity).1)
      sum =
          ap length (sym (read_rest r.stream r.capacity))
          ∙ length-append (read r.stream r.capacity).0 (rest (read r.stream r.capacity).1)

      by_size :
          (n : ℕ)
          → length (rest r.stream) ≡ n
          → ((length (read r.stream r.capacity).0 ≡ 0) × (rest r.stream ≡ []))
            ⊎ ((0 < length (read r.stream r.capacity).0)
                × (length (rest (read r.stream r.capacity).1) < length (rest r.stream)))
      by_size zero e = inl (omega (arith, sum, e), empty_of_length (rest r.stream) e)
      by_size (suc n) e =
          let some_read = read_pos r.stream r.capacity v.pos (omega (arith, e)) in
          inr (some_read, omega (arith, sum, some_read))

  -- The rest of a round on a buffer that is not empty.
  abbrev round : ℕ → StreamLineReader I → Bytes → Option (Bool × Bytes × StreamLineReader I)
  round fuel q line =
      if (append_part I q line).0
      then some (true, (append_part I q line).1, (append_part I q line).2)
      else read_loop I fuel (append_part I q line).2 (append_part I q line).1

  loop_buffered :
      (fuel : ℕ) (r : StreamLineReader I) (line : Bytes)
      → r.begin < r.end_
      → read_loop I (suc fuel) r line ≡ round fuel r line
  unfolding read_loop
  loop_buffered fuel r line h = rw (not_leb r.end_ r.begin h) refl

  loop_empty :
      (fuel : ℕ) (r : StreamLineReader I) (line : Bytes)
      → r.end_ ≤ r.begin
      → (refill I r).end_ ≡ 0
      → read_loop I (suc fuel) r line ≡ some (false, line, refill I r)
  unfolding read_loop
  loop_empty fuel r line h e = rw (is_leb r.end_ r.begin h, e) refl

  loop_refilled :
      (fuel : ℕ) (r : StreamLineReader I) (line : Bytes)
      → r.end_ ≤ r.begin
      → 0 < (refill I r).end_
      → read_loop I (suc fuel) r line ≡ round fuel (refill I r) line
  unfolding read_loop
  loop_refilled fuel r line h pos =
      rw (is_leb r.end_ r.begin h, not_zero (refill I r).end_ pos) refl

  -- What a run gives: the line, and whether it has its line feed.
  abbrev Gives : Option (Bool × Bytes × StreamLineReader I) → StreamLineReader I → Bytes → Type 0
  Gives run r line =
      (q : StreamLineReader I) × (run
        ≡ some (has_newline (pending I r), line ++ (break_line (pending I r)).0, q))
      × (pending I q ≡ (break_line (pending I r)).1)
      × IsReader I q

  pending_stale : (r : StreamLineReader I) → r.end_ ≤ r.begin → pending I r ≡ rest r.stream
  pending_stale r h = let e : r.end_ - r.begin ≡ 0 = omega arith in rw e refl

  round_lem :
      (fuel : ℕ) (q : StreamLineReader I) (line : Bytes)
      → IsReader I q
      → q.begin < q.end_
      → ((line' : Bytes)
          → Gives
              (read_loop I fuel (record q { begin = q.end_ }) line')
              (record q { begin = q.end_ })
              line')
      → Gives (round fuel q line) q line
  round_lem fuel q line v some_left later = elim (append_part-cases I q line v some_left) [
    | inl (q', e, found, left, v') ↦ (q', rw (e, found) refl, left, v')
    | inr (e, broken, found) ↦
        let (q', run, left, v') = later (line ++ chunk I q) in
        let next = pending_stale (record q { begin = q.end_ }) (omega arith) in
        (
          q',
          rw (e, found, broken)
              (run
                ∙ rw next (
                    ap (λ l. some (has_newline (rest q.stream), l, q'))
                      (append_assoc line (chunk I q) (break_line (rest q.stream)).0))),
          rw broken (left ∙ rw next refl),
          v',
        )
  ]

  passed : (q : StreamLineReader I) → IsReader I q → IsReader I (record q { begin = q.end_ })
  passed q v = record { begin_le = omega arith; end_le = v.end_le; full = v.full; pos = v.pos }

  -- With an empty buffer, as many rounds are enough as the stream has bytes, and one more.
  read_loop_stale :
      (fuel : ℕ) (r : StreamLineReader I) (line : Bytes)
      → IsReader I r
      → r.end_ ≤ r.begin
      → length (rest r.stream) < fuel
      → Gives (read_loop I fuel r line) r line
  read_loop_stale zero r line v stale enough = absurd (omega arith)
  read_loop_stale (suc fuel) r line v stale enough =
      let (v', same, first, how) = refill_lem r v in
      let here = pending_stale r stale in
      elim how [
        | inl (nothing, ends) ↦ (
          refill I r,
          rw (here, ends, append-nil) (loop_empty fuel r line stale nothing),
          rw (here, ends, same, ends) refl,
          v',
        )
        | inr (pos, fewer) ↦
            let q = refill I r in
            let some_left : q.begin < q.end_ = omega (arith, first, pos) in
            let (q', run, left, v'') = round_lem fuel q line v' some_left (λ line'.
              read_loop_stale fuel (record q { begin = q.end_ }) line' (passed q v') (omega arith)
                (omega (arith, fewer, enough))) in
            (
              q',
              loop_refilled fuel r line stale pos
                  ∙ run
                  ∙ ap (λ l. some (has_newline l, line ++ (break_line l).0, q')) (same ∙ sym here),
              left ∙ ap (λ l. (break_line l).1) (same ∙ sym here),
              v'',
            )
      ]

  -- From any state of the buffer one more round is enough.
  read_loop_lem :
      (r : StreamLineReader I) (line : Bytes)
      → IsReader I r
      → Gives (read_loop I (suc (suc (length (rest r.stream)))) r line) r line
  read_loop_lem r line v = elim (dec_lt r.begin r.end_) [
    | yes some_left ↦
        let fuel = suc (length (rest r.stream)) in
        let (q', run, left, v') = round_lem fuel r line v some_left (λ line'.
          read_loop_stale fuel (record r { begin = r.end_ }) line' (passed r v) (omega arith)
            (omega arith)) in
        (q', loop_buffered fuel r line some_left ∙ run, left, v')
    | no h ↦ read_loop_stale _ r line v (omega arith) (omega arith)
  ]

  pub read_line_lem :
      (r : StreamLineReader I) (strip : Bool)
      → IsReader I r
      → (q : StreamLineReader I) × (read_line I r strip
          ≡ some (
            if has_newline (pending I r) && strip
                then strip_endings (break_line (pending I r)).0
                else (break_line (pending I r)).0,
            q,
          ))
        × (pending I q ≡ (break_line (pending I r)).1)
        × IsReader I q
  unfolding read_line
  read_line_lem r strip v =
      let (q, run, left, v') = read_loop_lem r [] v in (q, rw run refl, left, v')

  -- With a hint of 0 for the buffer nothing is read, whatever the stream holds.
  read_line-no_buffer :
      (s : State) (strip : Bool)
      → (q : StreamLineReader I) × (read_line I (make_reader I s 0) strip ≡ some ([], q))
  unfolding read_line make_reader refill
  read_line-no_buffer s strip =
      let r = make_reader I s 0 in
      let nothing : length (read s 0).0 ≡ 0 = omega (arith, read_le s 0) in
      (refill I r, rw (loop_empty (suc (length (rest s))) r [] (omega arith) nothing) refl)
