-- ===== src/Encrypt/Envelope.antt =====
-- fma-common/encrypt.h, class `Encryptor`: a text with its magic number and size, encrypted by an
-- engine. The template's engine is the interface `Engine`, which `Blowfish` meets.
pub mod Laws
use fma_common.Common.{
  ℕ, ◌+◌, ◌-◌, ◌*◌, ◌/◌, ◌%◌, ◌^◌, ◌≡◌, Option, none, some, List, [], ◌∷◌, ◌++◌, Bytes, IsBytes,
  ltb, ◌==◌, if◌then◌else◌, length, get_or, take, drop,
}
use fma_common.Encrypt.Blowfish.{load_word, store_word}

-- `none` is an undefined read of the engine.
pub record Engine : Type 0 where
  pub encrypt : Bytes → Bytes
  pub decrypt : Bytes → Option Bytes
  pub decrypt-encrypt : (src : Bytes) → IsBytes src → decrypt (encrypt src) ≡ some src

-- The result of `Decrypt`: a text, the `std::runtime_error`, or undefined behaviour.
pub data Deciphered : Type 0 where
  ok : Bytes → Deciphered
  failed : Deciphered
  undefined : Deciphered

abbrev pub magic : ℕ
magic = 0x20020718

abbrev pub min_size : ℕ
min_size = 12

-- A size_t in memory, on a little-endian machine.
unfoldable pub store_size : ℕ → Bytes → Bytes
unfolding store_word
store_size s rest = store_word (s % 2 ^ 32) (store_word (s / 2 ^ 32 % 2 ^ 32) rest)

-- `*(uint32_t*)(dec.data() + at)` and `*(size_t*)(dec.data() + at)`
unfoldable pub load_word_at : Bytes → ℕ → ℕ
unfolding load_word
load_word_at dec at =
    load_word (get_or dec at 0) (get_or dec (at + 1) 0) (get_or dec (at + 2) 0)
      (get_or dec (at + 3) 0)

unfoldable pub load_size_at : Bytes → ℕ → ℕ
unfolding load_word_at
load_size_at dec at = load_word_at dec at + 2 ^ 32 * load_word_at dec (at + 4)

unfoldable pub seal : Bytes → Bytes
unfolding store_size
seal str = store_word magic (store_size (length str) str)

unfoldable pub unseal : Bytes → Deciphered
unseal dec =
    if ltb (length dec) min_size
    then failed
    else if load_word_at dec 0 == magic
    then (if ltb (length dec - min_size) (load_size_at dec 4)
        then failed
        else ok (take (load_size_at dec 4) (drop min_size dec)))
    else failed

module _ (eng : Engine) where
  pub encrypt : Bytes → Bytes
  encrypt str = eng.encrypt (seal str)

  pub decrypt : Bytes → Deciphered
  decrypt str = elim (eng.decrypt str) [ none ↦ undefined | some dec ↦ unseal dec ]
