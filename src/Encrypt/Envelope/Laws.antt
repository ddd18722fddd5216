-- ===== src/Encrypt/Envelope/Laws.antt =====
-- What `Encryptor::Encrypt` seals, `Decrypt` opens; and every text that `Decrypt` returns was there.
use fma_common.Common.{
  ℕ, ◌+◌, ◌-◌, ◌/◌, ◌%◌, ◌^◌, ◌≤◌, ◌<◌, ◌≡◌, refl, some, [], ◌∷◌, arith, Bytes, IsBytes, length,
  take, drop, Option-cases, inl, inr, length-take, length-drop, sym, ap, ◌∙◌, ◌++◌,
  take-append-drop,
}
use fma_common.Encrypt.Blowfish
use fma_common.Encrypt.Blowfish.{Blowfish, IsCipher, store_word, load_word}
use fma_common.Encrypt.Blowfish.Text.{decrypt-encrypt}
use fma_common.Encrypt.Envelope.{
  Engine, ok, magic, min_size, load_word_at, load_size_at, seal, unseal, encrypt, decrypt,
}

take_all : (xs : Bytes) → take (length xs) xs ≡ xs
take_all [] = refl
take_all (x ∷ xs) = rw (take_all xs) refl

store_word-IsBytes : (w : ℕ) (rest : Bytes) → IsBytes rest → IsBytes (store_word w rest)
unfolding store_word
store_word-IsBytes w rest h = (omega arith, (omega arith, (omega arith, (omega arith, h))))

seal-IsBytes : (str : Bytes) → IsBytes str → IsBytes (seal str)
unfolding seal
seal-IsBytes str h =
    let n = length str in
    let high = n / 2 ^ 32 % 2 ^ 32 in
    let low = n % 2 ^ 32 in
    store_word-IsBytes magic (store_word low (store_word high str))
      (store_word-IsBytes low (store_word high str) (store_word-IsBytes high str h))

length-seal : (str : Bytes) → length (seal str) ≡ 12 + length str
unfolding seal store_word
length-seal str = omega arith

drop-seal : (str : Bytes) → drop min_size (seal str) ≡ str
unfolding seal store_word
drop-seal str = refl

load_word_at-seal : (str : Bytes) → load_word_at (seal str) 0 ≡ magic
unfolding seal store_word load_word_at
load_word_at-seal str = refl

load_size_at-seal : (str : Bytes) → length str < 2 ^ 64 → load_size_at (seal str) 4 ≡ length str
unfolding seal store_word load_size_at
load_size_at-seal str h = omega arith

unseal-seal : (str : Bytes) → length str < 2 ^ 64 → unseal (seal str) ≡ ok str
unfolding unseal
unseal-seal str h =
    let left : 12 + length str - 12 ≡ length str = omega arith in
    rw
      (
        length-seal str,
        left,
        load_word_at-seal str,
        load_size_at-seal str h,
        drop-seal str,
        take_all str,
      )
      (ground arith)

-- The cipher object of `IsCipher` tables is an engine.
abbrev pub blowfish_engine : (c : Blowfish) → IsCipher c → Engine
blowfish_engine c k = record {
  encrypt = Blowfish.encrypt c;
  decrypt = Blowfish.decrypt c;
  decrypt-encrypt = decrypt-encrypt c k;
}

-- With any engine that reads its own ciphertexts back, a text of bytes shorter than 2 ^ 64 is
-- deciphered to itself.
pub decrypt-encrypt_sealed :
    (eng : Engine) (str : Bytes)
    → IsBytes str
    → length str < 2 ^ 64
    → decrypt eng (encrypt eng str) ≡ ok str
unfolding decrypt encrypt
decrypt-encrypt_sealed eng str h fits =
    rw (eng.decrypt-encrypt (seal str) (seal-IsBytes str h), decrypt) (unseal-seal str fits)

unseal-ok :
    (dec : Bytes) {text : Bytes}
    → unseal dec ≡ ok text
    → (load_word_at dec 0 ≡ magic)
      × (load_size_at dec 4 ≤ length dec - min_size)
      × (min_size ≤ length dec)
      × (text ≡ take (load_size_at dec 4) (drop min_size dec))
unfolding unseal
unseal-ok dec e = ground arith

split_header :
    (dec : Bytes) (n : ℕ)
    → n ≤ length dec - min_size
    → min_size ≤ length dec
    → (dec ≡ take min_size dec ++ (take n (drop min_size dec) ++ drop n (drop min_size dec)))
      × (length (take min_size dec) ≡ min_size)
      × (length (take n (drop min_size dec)) ≡ n)
split_header dec n fits room = (
  sym (
      ap (◌++◌ (take min_size dec)) (take-append-drop n (drop min_size dec))
      ∙ take-append-drop min_size dec),
  omega (arith, length-take min_size dec, room),
  omega (arith, length-take n (drop min_size dec), length-drop min_size dec, fits),
)

-- Whatever the ciphertext, a deciphered text is what stands in the engine's decryption behind a header
-- of 12 bytes, which has the magic number first and then the size of the text.
pub decrypt-ok :
    (eng : Engine) (str : Bytes) {text : Bytes}
    → decrypt eng str ≡ ok text
    → (dec : Bytes) × (eng.decrypt str ≡ some dec)
      × (head : Bytes) × (more : Bytes) × (dec ≡ head ++ (text ++ more))
      × (length head ≡ 12)
      × (load_word_at dec 0 ≡ magic)
      × (load_size_at dec 4 ≡ length text)
unfolding decrypt
decrypt-ok eng str {text} e = elim (Option-cases (eng.decrypt str)) [
  | inl fault ↦ absurd (ground arith)
  | inr (dec, got) ↦
      let (m, fits, room, same) = unseal-ok dec {text = text} (ground arith) in
      let n = load_size_at dec 4 in
      let (split, head, size) = split_header dec n fits room in
      (
        dec,
        got,
        take min_size dec,
        drop n (drop min_size dec),
        rw same split,
        head,
        m,
        rw same (sym size),
      )
]
