-- ===== src/BinaryReadWrite/Tests.antt =====
-- Runs of `BinaryRead` and `BinaryWrite` (fma-common/binary_read_write_helper.h) over streams in memory.
use mathlib.Core.List.Perm
use mathlib.Core.List.{Mem, Perm, mem-cons_self, mem-cons_of_mem, mem-cons, not-mem-nil}
use mathlib.Core.Logic.Or
use mathlib.Core.HLevel.{¬_prop}
use fma_common.Common.{
  ◌≡◌, ◌≢◌, refl, sym, Bool, true, false, ◌||◌, some, List, [], ◌∷◌, ◌++◌, Bytes, codes, eq_bytes,
  arith, replicate, inl, inr, Bool-cases, if◌then◌else◌, take, ap₂, ◌∙◌, append-nil, ==_iff, ◌==◌,
}
use fma_common.Stream.Memory.{
  InputMemoryStream, open_memory, remaining, collect, memory_stream, collecting_stream,
}
use fma_common.BinaryReadWrite.{
  Kind, plain, block, vector, pair, Value, read_block, le_bytes, binary_read, binary_write,
}
use fma_common.BinaryReadWrite.Encoding.{encode}
use fma_common.BinaryReadWrite.Keyed.{
  KeyedContainer, read_container, write_container, encode_container,
}
use fma_common.BinaryReadWrite.RoundTrip.{read-write, read-write_container, read_block_cut}

abbrev uninit_demo : Bytes
uninit_demo = replicate 8 0xcc

-- A vector of pairs of a uint16_t and a string.
abbrev kind_demo : Kind
kind_demo = vector 40 (pair (plain 2) (block 1))

abbrev rows_demo : Value kind_demo
rows_demo = (1 ∷ 0 ∷ [], codes "ab") ∷ (2 ∷ 1 ∷ [], []) ∷ []

abbrev old_demo : Value kind_demo
old_demo = (9 ∷ 9 ∷ [], codes "old") ∷ []

abbrev sent_demo : InputMemoryStream
sent_demo = open_memory ((binary_write collecting_stream kind_demo [] rows_demo).1 ++ codes "more")

read-write_example :
    (t : InputMemoryStream) × (binary_read memory_stream 1000 uninit_demo kind_demo sent_demo
        old_demo
      ≡ some ((binary_write collecting_stream kind_demo [] rows_demo).0, rows_demo, t))
    × (remaining t ≡ codes "more")
unfolding encode remaining open_memory le_bytes
read-write_example =
    read-write memory_stream collecting_stream 1000 uninit_demo (omega arith) refl kind_demo
      (omega arith) [] sent_demo old_demo rows_demo (codes "more") ((refl, tt), tt) (omega arith)
      (omega arith) refl

rows_demo-bytes : binary_write collecting_stream kind_demo [] rows_demo ≡ (
  30,
  2 ∷ replicate 7 0 ++ (1 ∷ 0 ∷ 2 ∷ replicate 7 0 ++ (b'a' ∷ b'b' ∷ 2 ∷ 1 ∷ 0 ∷ replicate 7 0)),
)
unfolding binary_write le_bytes collect
rows_demo-bytes = refl

-- A set of strings, as a list without repetitions.
contains : Bytes → List Bytes → Bool
contains e [] = false
contains e (x ∷ xs) = eq_bytes e x || contains e xs

eq_bytes_sound : (a b : Bytes) → eq_bytes a b ≡ true → a ≡ b
eq_bytes_sound [] [] h = refl
eq_bytes_sound [] (y ∷ b) h = ground (arith, h)
eq_bytes_sound (x ∷ a) [] h = ground (arith, h)
eq_bytes_sound (x ∷ a) (y ∷ b) h = elim (Bool-cases (x == y)) [
  | inl e ↦ elim (Bool-cases (eq_bytes a b)) [
    | inl e' ↦ ap₂ (◌∷◌) ((==_iff x y).0 e) (eq_bytes_sound a b e')
    | inr e' ↦ ground (arith, h, e, e')
  ]
  | inr e ↦ ground (arith, h, e)
]

not-contains :
    (e : Bytes) (xs : List Bytes) → ((x : Bytes) → Mem x xs → x ≢ e) → contains e xs ≡ false
unfolding contains
not-contains e [] h = refl
not-contains e (x ∷ xs) h = elim (Bool-cases (eq_bytes e x)) [
  | inl same ↦ absurd (h x mem-cons_self (sym (eq_bytes_sound e x same)))
  | inr other ↦ rw other (not-contains e xs (λ y m. h y (mem-cons_of_mem x m)))
]

insert_string : List Bytes → Bytes → List Bytes
insert_string xs e = if contains e xs then xs else e ∷ xs

insert_string_new :
    (xs : List Bytes) (e : Bytes)
    → ((x : Bytes) → Mem x xs → x ≢ e)
    → Perm (insert_string xs e) (e ∷ xs)
unfolding insert_string
insert_string_new xs e h = rw (not-contains e xs h) (Perm.refl (e ∷ xs))

abbrev string_set : KeyedContainer Bytes
string_set = record {
  Container = List Bytes;
  Key = Bytes;
  key = λ e. e;
  items = λ xs. xs;
  insert = insert_string;
  insert_new = insert_string_new;
}

abbrev names_demo : List Bytes
names_demo = codes "b" ∷ codes "a" ∷ []

abbrev names_sent : InputMemoryStream
names_sent =
    open_memory
      (write_container string_set collecting_stream (binary_write collecting_stream (block 1)) []
        names_demo).1

names_differ : (x : Bytes) → Mem x (codes "b" ∷ []) → x ≢ codes "a"
names_differ x m =
    Or.elim ¬_prop (mem-cons.0 m) (λ e h. ground (arith, sym e ∙ h)) (λ n. absurd (not-mem-nil n))

read-write_container_example :
    (d : List Bytes) × (t : InputMemoryStream) × (read_container string_set memory_stream
        (binary_read memory_stream 1000 uninit_demo (block 1))
        []
        names_sent
        []
      ≡ some (
        (write_container string_set collecting_stream
            (binary_write collecting_stream (block 1))
            []
            names_demo).0,
        d,
        t,
      ))
    × Perm d names_demo
    × (remaining t ≡ [])
unfolding encode_container encode remaining open_memory le_bytes
read-write_container_example =
    read-write_container memory_stream collecting_stream 1000 uninit_demo (omega arith) refl
      (block 1) (omega arith) string_set [] tt [] names_sent [] names_demo [] refl
      ((λ x m. absurd (not-mem-nil m)), (names_differ, tt)) (omega arith) (omega arith)
      (sym (append-nil _))

abbrev cut_demo : InputMemoryStream
cut_demo = open_memory (take 9 (encode (block 1) (codes "abc")))

read_block_cut_example :
    (d : Bytes) × (t : InputMemoryStream) × (read_block memory_stream 1000 uninit_demo 1 cut_demo []
      ≡ some (0, d, t))
unfolding encode remaining open_memory le_bytes
read_block_cut_example =
    read_block_cut memory_stream 1000 uninit_demo (omega arith) refl 1 9 cut_demo [] (codes "abc")
      (omega arith) (omega arith) (inr (omega arith)) refl
