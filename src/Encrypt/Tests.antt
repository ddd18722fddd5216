-- ===== src/Encrypt/Tests.antt =====
-- Runs of the ciphers and encoders of fma-common/encrypt.h on concrete texts.
use fma_common.Common.{
  ◌++◌, ℕ, ◌≡◌, refl, ◌≢◌, some, none, [], ◌∷◌, arith, Bytes, IsBytes, length, replicate,
  length-replicate, All-replicate,
}
use fma_common.Encrypt.Blowfish
use fma_common.Encrypt.Blowfish.{
  Blowfish, Block, IsCipher, IsBlock, IsWord, encrypt_block, decrypt_block, gcd,
  pkcs5_padding_length,
}
use fma_common.Encrypt.Blowfish.Text.{decrypt-encrypt, decrypt-ne-none, decrypt_short}
use fma_common.Encrypt.Base16
use fma_common.Encrypt.Base64
use fma_common.Encrypt.Base64.Laws.{try_decode-encode}
use fma_common.Encrypt.Envelope
use fma_common.Encrypt.Envelope.{Engine, load_word_at, load_size_at, magic, min_size}
use fma_common.Encrypt.Envelope.Laws.{blowfish_engine, decrypt-encrypt_sealed, decrypt-ok}

abbrev cipher_demo : Blowfish
cipher_demo = record { pary = replicate 18 7; sbox = replicate 1024 3 }

cipher_demo-IsCipher : IsCipher cipher_demo
cipher_demo-IsCipher = record {
  pary_size = length-replicate {A = ℕ} 18 7;
  sbox_size = length-replicate {A = ℕ} 1024 3;
  pary_words = All-replicate IsWord 18 7 (omega arith);
  sbox_words = All-replicate IsWord 1024 3 (omega arith);
}

abbrev block_demo : Block
block_demo = record { left = 0x12345678; right = 0x9abcdef0 }

block_demo-IsBlock : IsBlock block_demo
block_demo-IsBlock = record { left_word = omega arith; right_word = omega arith }

abbrev text_demo : Bytes
text_demo = 72 ∷ 105 ∷ 255 ∷ 0 ∷ []

text_demo-IsBytes : IsBytes text_demo
text_demo-IsBytes = (omega arith, (omega arith, (omega arith, (omega arith, tt))))

abbrev engine_demo : Engine
engine_demo = blowfish_engine cipher_demo cipher_demo-IsCipher

decrypt-encrypt_example :
    Blowfish.decrypt cipher_demo (Blowfish.encrypt cipher_demo text_demo) ≡ some text_demo
decrypt-encrypt_example =
    decrypt-encrypt cipher_demo cipher_demo-IsCipher text_demo text_demo-IsBytes

decrypt-ne-none_example : Blowfish.decrypt cipher_demo (replicate 9 3) ≢ none
decrypt-ne-none_example = decrypt-ne-none cipher_demo (replicate 9 3) (omega arith)

decrypt_short_example : Blowfish.decrypt cipher_demo (replicate 2 5) ≡ none
decrypt_short_example = decrypt_short cipher_demo 2 5 (omega arith) (omega arith) (omega arith)

digits-decode : Base16.decode (52 ∷ 102 ∷ 48 ∷ 65 ∷ []) ≡ Base16.ok (79 ∷ 10 ∷ [])
unfolding Base16.decode Base16.decode_pairs Base16.join_digits Base16.values
digits-decode = refl

try_decode-encode_example : Base64.try_decode (Base64.encode text_demo) ≡ some text_demo
try_decode-encode_example = try_decode-encode text_demo text_demo-IsBytes

decrypt-encrypt_sealed_example :
    Envelope.decrypt engine_demo (Envelope.encrypt engine_demo text_demo) ≡ Envelope.ok text_demo
decrypt-encrypt_sealed_example =
    decrypt-encrypt_sealed engine_demo text_demo text_demo-IsBytes (omega arith)

abbrev sealed_demo : Bytes
sealed_demo = Envelope.encrypt engine_demo text_demo

sealed_demo-decrypt : Envelope.decrypt engine_demo sealed_demo ≡ Envelope.ok text_demo
sealed_demo-decrypt = decrypt-encrypt_sealed engine_demo text_demo text_demo-IsBytes (omega arith)

decrypt-ok_example :
    (dec : Bytes) × (engine_demo.decrypt sealed_demo ≡ some dec)
    × (head : Bytes) × (more : Bytes) × (dec ≡ head ++ (text_demo ++ more))
    × (length head ≡ 12)
    × (load_word_at dec 0 ≡ magic)
    × (load_size_at dec 4 ≡ length text_demo)
decrypt-ok_example = decrypt-ok engine_demo sealed_demo sealed_demo-decrypt
