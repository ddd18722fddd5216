-- ===== src/BinaryReadWrite/RoundTrip.antt =====
-- What `BinaryWrite` wrote (fma-common/binary_read_write_helper.h), `BinaryRead` reads.
use mathlib.Core.List.{Perm}
use fma_common.Common.{
  ℕ, ◌-◌, ◌*◌, ◌/◌, ◌%◌, ◌≤◌, ◌<◌, ◌≡◌, ◌⊎◌, inl, inr, ◌==◌, refl, sym, ap, ◌∙◌, false, some, [],
  ◌∷◌, ◌++◌, Bytes, All, ltb, arith, length, take, drop, append_assoc, length-append, drop-append,
  length-take, min, min, zero, suc,
}
use fma_common.Stream.{FullInputStream, OutputStream}
use fma_common.BinaryReadWrite.{
  size_mod, size_width, le_bytes, Kind, block, Value, read_plain, read_block, binary_read,
  binary_write, resize,
}
use fma_common.BinaryReadWrite.Encoding.{
  encode, Fits, Shaped, IsKind, encode_pos, length-le_bytes, le_value-le_bytes,
}
use fma_common.BinaryReadWrite.Write.{binary_write-WritesAs}
use fma_common.BinaryReadWrite.Read.{binary_read-ReadsAs, read_plain_lem, le-mul, not_larger}
use fma_common.BinaryReadWrite.Keyed.{
  KeyedContainer, Separate, read_container, write_container, encode_container, read_container_lem,
  write_container-WritesAs,
}

-- What follows the old bytes of a stream that was written to.
behind :
    (old new code more rest : Bytes)
    → new ≡ old ++ code
    → old ++ rest ≡ new ++ more
    → rest ≡ code ++ more
behind old new code more rest e h =
    sym (drop-append old rest)
    ∙ ap (drop (length old)) (h ∙ rw e (append_assoc old code more))
    ∙ drop-append old (code ++ more)

module _ (I : FullInputStream) (O : OutputStream) (max_bytes : ℕ) (uninit : Bytes)
    (bounded : max_bytes < size_mod) (sized : length uninit ≡ size_width) where
  -- For every type: a value that `BinaryWrite` appended to a stream, in fewer than 2 ^ 64 bytes, is what
  -- `BinaryRead` makes of an input that gives those bytes and `more`, whatever the object held before;
  -- it returns the number that `BinaryWrite` returned, and leaves `more`.
  pub read-write :
      (k : Kind)
      → IsKind k
      → (o : O.State) (s : I.State) (d v : Value k) (more : Bytes) → Shaped k d
      → Fits max_bytes k v
      → length (encode k v) < size_mod
      → O.written o ++ I.rest s ≡ O.written (binary_write O k o v).1 ++ more
      → (t : I.State) × (binary_read I max_bytes uninit k s d
          ≡ some ((binary_write O k o v).0, v, t))
        × (I.rest t ≡ more)
  read-write k kind o s d v more shaped ok fits there =
      let (count, bytes) = binary_write-WritesAs O max_bytes k o v ok fits in
      let (t, e, left) =
        binary_read-ReadsAs I max_bytes uninit bounded sized k kind s d v more shaped ok fits
          (behind (O.written o) _ (encode k v) more (I.rest s) bytes there) in
      (t, e ∙ ap (λ n. some (n, v, t)) (sym count), left)

  -- A map or a set whose keys differ, written in fewer than 2 ^ 64 bytes and read into an empty one,
  -- is the same up to the order of its elements, with as many bytes read as written and `more` left.
  pub read-write_container :
      (k : Kind)
      → IsKind k
      → (K : KeyedContainer (Value k)) (init : Value k) → Shaped k init
      → (o : O.State) (s : I.State) (d c : K.Container) (more : Bytes) → K.items d ≡ []
      → Separate K.key [] (K.items c)
      → All (Fits max_bytes k) (K.items c)
      → length (encode_container K (encode k) c) < size_mod
      → O.written o ++ I.rest s ≡ O.written (write_container K O (binary_write O k) o c).1 ++ more
      → (d' : K.Container) × (t : I.State) × (read_container K I
            (binary_read I max_bytes uninit k)
            init
            s
            d
          ≡ some ((write_container K O (binary_write O k) o c).0, d', t))
        × Perm (K.items d') (K.items c)
        × (I.rest t ≡ more)
  read-write_container k kind K init shaped o s d c more empty apart oks fits there =
      let (count, bytes) =
        write_container-WritesAs K O (binary_write O k) (encode k) (Fits max_bytes k)
          (binary_write-WritesAs O max_bytes k) o c oks fits in
      let (d', t, e, perm, left) =
        read_container_lem K I (binary_read I max_bytes uninit k) (encode k) (Fits max_bytes k)
          (Shaped k) (binary_read-ReadsAs I max_bytes uninit bounded sized k kind)
          (λ v ok. encode_pos max_bytes k v kind ok) init shaped s d c more empty apart oks fits
          (behind (O.written o) _ _ more (I.rest s) bytes there) in
      (d', t, e ∙ ap (λ n. some (n, d', t)) (sym count), perm, left)

take_beyond :
    (m : ℕ) (xs ys : Bytes) → length xs ≤ m → take m (xs ++ ys) ≡ xs ++ take (m - length xs) ys
take_beyond m [] ys h = ap (λ n. take n ys) (omega arith)
take_beyond zero (x ∷ xs) ys h = absurd (omega arith)
take_beyond (suc m) (x ∷ xs) ys h =
    let e : suc m - suc (length xs) ≡ m - length xs = omega arith in
    rw (e, take_beyond m xs ys (omega arith)) refl

not_equal : (a b : ℕ) → a < b → (a == b) ≡ false
not_equal a b h = ground arith

module _ (I : FullInputStream) (max_bytes : ℕ) (uninit : Bytes) (bounded : max_bytes < size_mod)
    (sized : length uninit ≡ size_width) where
  open I use {State, rest, read, read_bytes, read_rest}

  read_plain_count :
      (width : ℕ) (s : State) (d : Bytes) → (read_plain I width s d).0 ≡ min width (length (rest s))
  unfolding read_plain
  read_plain_count width s d = ap length (read_bytes s width) ∙ length-take width (rest s)

  -- A container of elements that are copied with memcpy, a string among them, cut off before its size or
  -- anywhere behind it: `Read` returns 0.
  pub read_block_cut :
      (w m : ℕ) (s : State) (d v : Bytes)
      → 0 < w
      → Fits max_bytes (block w) v
      → (m ≡ 0) ⊎ ((size_width ≤ m) × (m < length (encode (block w) v)))
      → rest s ≡ take m (encode (block w) v)
      → (d' : Bytes) × (t : State) × (read_block I max_bytes uninit w s d ≡ some (0, d', t))
  unfolding read_block encode
  read_block_cut w m s d v pos ok (inl none_left) there =
      let nothing : length (rest s) ≡ 0 =
        ap length there ∙ ap (λ n. length (take n (encode (block w) v))) none_left in
      let r : (read_plain I size_width s uninit).0 ≡ 0 =
        read_plain_count size_width s uninit ∙ omega arith in
      (d, (read_plain I size_width s uninit).2, rw r refl)
  read_block_cut w m s d v pos ok (inr cut) there =
      let size = length v / w in
      let head = le_bytes size_width size in
      let eight = length-le_bytes size_width size in
      let body = take (m - length head) v in
      let cut_body : rest s ≡ head ++ body =
        there ∙ take_beyond m head v (omega (arith, eight, cut)) in
      let (t, e, left) = read_plain_lem I size_width s uninit head body sized eight cut_body in
      let value =
        le_value-le_bytes size_width size (omega (arith, ok, le-mul size w pos, bounded)) in
      let bytes : size * w % size_mod ≡ length v = omega (arith, ok, bounded) in
      let room : ltb max_bytes (size * w) ≡ false =
        not_larger max_bytes (size * w) (omega (arith, ok)) in
      let end = read_plain I (length v) t (resize (size * w) 0 d) in
      let short : (end.0 == length v) ≡ false = not_equal end.0 (length v) (
        omega (
          arith,
          read_plain_count (length v) t (resize (size * w) 0 d),
          ap length left,
          length-take (m - length head) v,
          length-append head v,
          eight,
          cut,
        )) in
      (end.1, end.2, rw (e, value, bytes, room, short) refl)
