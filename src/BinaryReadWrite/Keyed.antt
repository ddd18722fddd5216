-- ===== src/BinaryReadWrite/Keyed.antt =====
-- fma-common/binary_read_write_helper.h, `BinaryReaderForNonSequentialContainer` and its writer: maps and
-- sets. The container is the standard library's, an interface with what its documentation says of
-- `insert`.
use mathlib.Core.List.Perm
use mathlib.Core.List.{Mem, Perm, perm_middle}
use mathlib.Core.List.Perm.{mem_iff}
use fma_common.Common.{
  ℕ, zero, suc, ◌+◌, ◌%◌, ◌≤◌, ◌<◌, ◌≡◌, ◌≢◌, ◌==◌, refl, sym, ap, subst, ◌∙◌, false, Option, some,
  List, [], ◌∷◌, ◌++◌, Bytes, All, arith, length, replicate, append_assoc, length-append,
  append-nil, ◌>>=◌, if◌then◌else◌,
}
use fma_common.Stream.{FullInputStream, OutputStream}
use fma_common.BinaryReadWrite.{
  size_mod, size_width, le_bytes, le_value, Read, Write, read_plain, write_plain, write_each,
}
use fma_common.BinaryReadWrite.Encoding.{encode_each, length-le_bytes, le_value-le_bytes}
use fma_common.BinaryReadWrite.Read.{ReadsAs, read_plain_lem}
use fma_common.BinaryReadWrite.Write.{WritesAs, write_each-WritesAs, write_header}

-- The first list with the elements of the second put before it, one after the other.
abbrev into : {E : Type 0} → List E → List E → List E
into done [] = done
into done (e ∷ es) = into (e ∷ done) es

into-perm : {E : Type 0} (done es : List E) → Perm (into done es) (es ++ done)
into-perm done [] = Perm.refl done
into-perm done (e ∷ es) = Perm.trans (into-perm (e ∷ done) es) (perm_middle es done)

-- No key of the second list is that of an element before it, or of one of the first.
abbrev pub Separate : {E K : Type 0} → (E → K) → List E → List E → Type 0
Separate key done [] = Unit
Separate key done (e ∷ es) = ((x : _) → Mem x done → key x ≢ key e) × Separate key (e ∷ done) es

-- `std::map`, `std::set` and their unordered kin: `items` in the order of an iteration. An insertion
-- with an equal key in the container leaves it alone; otherwise the element is one more.
pub record KeyedContainer (E : Type 0) : Type 1 where
  pub Container : Type 0
  pub Key : Type 0
  pub key : E → Key
  pub items : Container → List E
  pub insert : Container → E → Container
  pub insert_new :
      (c : Container) (e : E)
      → ((x : E) → Mem x (items c) → key x ≢ key e)
      → Perm (items (insert c e)) (e ∷ items c)

module _ {E : Type 0} (K : KeyedContainer E) where
  open K use {Container, key, items, insert, insert_new}

  -- `init` is the variable `e` before it is read into.
  unfoldable pub read_items :
      (I : FullInputStream)
      → Read I E
      → E
      → ℕ
      → ℕ
      → I.State
      → Container
      → Option (ℕ × Container × I.State)
  read_items I read_element init zero bytes_read s d = some (bytes_read, d, s)
  read_items I read_element init (suc size) bytes_read s d = read_element s init >>= λ (r, e, t).
      let rest = read_items I read_element init size ((bytes_read + r) % size_mod) t (insert d e) in
      if r == 0 then some (0, d, t) else rest

  unfoldable pub read_container : (I : FullInputStream) → Read I E → E → Read I Container
  unfolding read_items
  read_container I read_element init s d =
      let (r, memory, t) = read_plain I size_width s (replicate size_width 0) in
      if r == 0 then some (0, d, t) else read_items I read_element init (le_value memory) r t d

  unfoldable pub write_container : (O : OutputStream) → Write O E → Write O Container
  write_container O write_element s d =
      let (size, t) = write_plain O size_width s (le_bytes size_width (length (items d))) in
      write_each O write_element size t (items d)

  unfoldable pub encode_container : (E → Bytes) → Container → Bytes
  encode_container code d = le_bytes size_width (length (items d)) ++ encode_each code (items d)

  module _ (I : FullInputStream) (reader : Read I E) (code : E → Bytes) (Ok Old : E → Type 0)
      (reads : ReadsAs I reader code Ok Old) (pos : (e : E) → Ok e → 0 < length (code e)) (init : E)
      (old : Old init) where
    open I use {State, rest}

    read_items_step :
        (sum n size : ℕ) (s t : State) (c : Container) (e : E)
        → reader s init ≡ some (n, e, t)
        → 0 < n
        → sum + n < size_mod
        → read_items I reader init (suc size) sum s c
          ≡ read_items I reader init size (sum + n) t (insert c e)
    unfolding read_items
    read_items_step sum n size s t c e h positive fits =
        let some_bytes : (n == 0) ≡ false = ground arith in
        let small : (sum + n) % size_mod ≡ sum + n = omega arith in rw (h, some_bytes, small) refl

    read_items_lem :
        (sum : ℕ) (s : State) (done : List E) (c : Container) (es : List E) (more : Bytes)
        → Perm (items c) done
        → Separate key done es
        → All Ok es
        → sum + length (encode_each code es) < size_mod
        → rest s ≡ encode_each code es ++ more
        → (d : Container) × (t : State) × (read_items I reader init (length es) sum s c
            ≡ some (sum + length (encode_each code es), d, t))
          × Perm (items d) (into done es)
          × (rest t ≡ more)
    unfolding read_items
    read_items_lem sum s done c [] more same apart oks fits there =
        (c, s, ap (λ (n : ℕ). some (n, c, s)) (omega arith), same, there)
    read_items_lem sum s done c (e ∷ es) more same apart oks fits there =
        let whole = length-append (code e) (encode_each code es) in
        let (t, h, left) =
          reads s init e (encode_each code es ++ more) old oks.0 (omega (arith, whole, fits))
            (there ∙ append_assoc (code e) (encode_each code es) more) in
        let fresh = λ (x : E) (m : Mem x (items c)). apart.0 x ((mem_iff same).0 m) in
        let one_more = Perm.trans (insert_new c e fresh) (Perm.cons e same) in
        let (d, u, h', perm, left') =
          read_items_lem (sum + length (code e)) t (e ∷ done) (insert c e) es more one_more apart.1
            oks.1 (omega (arith, whole, fits)) left in
        let step =
          read_items_step sum (length (code e)) (length es) s t c e h (pos e oks.0)
            (omega (arith, whole, fits)) in
        (d, u, step ∙ h' ∙ ap (λ (n : ℕ). some (n, d, u)) (omega (arith, whole)), perm, left')

    pub read_container_lem :
        (s : State) (d c : Container) (more : Bytes)
        → items d ≡ []
        → Separate key [] (items c)
        → All Ok (items c)
        → length (encode_container code c) < size_mod
        → rest s ≡ encode_container code c ++ more
        → (d' : Container) × (t : State) × (read_container I reader init s d
            ≡ some (length (encode_container code c), d', t))
          × Perm (items d') (items c)
          × (rest t ≡ more)
    unfolding read_container encode_container
    read_container_lem s d c more empty apart oks fits there =
        let size = length (items c) in
        let head = le_bytes size_width size in
        let body = encode_each code (items c) in
        let whole = length-append head body in
        let eight = length-le_bytes size_width size in
        let small : size < size_mod =
          omega (arith, length-le-encode_each (items c) oks, whole, fits) in
        let (t, h, left) =
          read_plain_lem I size_width s (replicate size_width 0) head (body ++ more) refl eight
            (there ∙ append_assoc head body more) in
        let (d', u, h', perm, left') =
          read_items_lem size_width t [] d (items c) more
            (subst (λ l. Perm l []) (sym empty) (Perm.refl [])) apart oks
            (omega (arith, whole, eight, fits)) left in
        (
          d',
          u,
          rw (h, le_value-le_bytes size_width size small, h')
              (ap (λ (n : ℕ). some (n, d', u)) (omega (arith, whole, eight))),
          subst (λ l. Perm (items d') l) (append-nil (items c))
              (Perm.trans perm (into-perm [] (items c))),
          left',
        )
      where
        length-le-encode_each : (es : List E) → All Ok es → length es ≤ length (encode_each code es)
        length-le-encode_each [] oks = omega arith
        length-le-encode_each (e ∷ es) oks = omega (
          arith,
          pos e oks.0,
          length-append (code e) (encode_each code es),
          length-le-encode_each es oks.1,
        )

  module _ (O : OutputStream) (writer : Write O E) (code : E → Bytes) (Ok : E → Type 0)
      (writes : WritesAs O writer code Ok) where
    pub write_container-WritesAs :
        WritesAs O (write_container O writer) (encode_container code) (λ c. All Ok (items c))
    unfolding write_container encode_container write_plain
    write_container-WritesAs s c ok fits =
        let head = le_bytes size_width (length (items c)) in
        let whole = length-append head (encode_each code (items c)) in
        let eight = length-le_bytes size_width (length (items c)) in
        let (count, bytes) =
          write_each-WritesAs O writer code Ok writes size_width (O.write s head) (items c) ok
            (omega (arith, whole, eight, fits)) in
        (
          omega (arith, count, whole, eight),
          write_header O s (length (items c)) (encode_each code (items c)) _ bytes,
        )
