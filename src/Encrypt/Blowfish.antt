-- ===== src/Encrypt/Blowfish.antt =====
-- fma-common/encrypt.h, class `Blowfish`. A uint32_t is a number below 2 ^ 32, a `char` a number
-- below 256; `sbox_[r][x]` is entry `r * 256 + x` of one list. `none` stands for a read outside an
-- array or a division by zero, which the source leaves undefined.
mod Tables
pub mod Rounds
pub mod Text
pub mod Padding
pub mod Key
use Tables.{initial_pary, initial_sbox}
use fma_common.Common.{
  ℕ, zero, suc, ◌+◌, ◌-◌, ◌*◌, ◌/◌, ◌%◌, ◌^◌, ◌≤◌, ◌<◌, bit_xor, ◌≡◌, refl, Bool, true, false, ◌&&◌,
  Option, none, some, List, [], ◌∷◌, ◌++◌, arith, ltb, leb, ◌==◌, if◌then◌else◌, ◌>>=◌, length,
  get_elem?, get_or, set, take, replicate, All, Bytes,
}

abbrev pub u32_mod : ℕ
u32_mod = 2 ^ 32

abbrev pub IsWord : ℕ → Type 0
IsWord w = w < 2 ^ 32

-- The members `pary_` and `sbox_`.
pub record Blowfish : Type 0 where
  pub pary : List ℕ
  pub sbox : List ℕ

pub record Block : Type 0 where
  pub left : ℕ
  pub right : ℕ

-- A cipher whose tables have the sizes of the two members and hold words.
pub record IsCipher (c : Blowfish) : Type 0 where
  pub pary_size : length c.pary ≡ 18
  pub sbox_size : length c.sbox ≡ 1024
  pub pary_words : All IsWord c.pary
  pub sbox_words : All IsWord c.sbox

pub record IsBlock (b : Block) : Type 0 where
  pub left_word : IsWord b.left
  pub right_word : IsWord b.right

abbrev pub pary_at : Blowfish → ℕ → ℕ
pary_at c i = get_or c.pary i 0

abbrev pub sbox_at : Blowfish → ℕ → ℕ → ℕ
sbox_at c r x = get_or c.sbox (r * 256 + x) 0

-- The union `Converter32` as it is where `__LITTLE_ENDIAN__` is defined, on a little-endian machine:
-- `byte0` is the highest byte.
unfoldable pub byte0 : ℕ → ℕ
byte0 w = w / 2 ^ 24 % 256

unfoldable pub byte1 : ℕ → ℕ
byte1 w = w / 2 ^ 16 % 256

unfoldable pub byte2 : ℕ → ℕ
byte2 w = w / 2 ^ 8 % 256

unfoldable pub byte3 : ℕ → ℕ
byte3 w = w % 256

-- `converter.bit_32` after its four bytes are set.
unfoldable pub from_bytes : ℕ → ℕ → ℕ → ℕ → ℕ
from_bytes b0 b1 b2 b3 = b0 * 2 ^ 24 + b1 * 2 ^ 16 + b2 * 2 ^ 8 + b3

pub feistel : Blowfish → ℕ → ℕ
unfolding byte0 byte1 byte2 byte3
feistel c value =
    (bit_xor ((sbox_at c 0 (byte0 value) + sbox_at c 1 (byte1 value)) % u32_mod)
        (sbox_at c 2 (byte2 value))
      + sbox_at c 3 (byte3 value))
    % u32_mod

-- One round with the key word `k`, `std::swap` included.
pub round : Blowfish → ℕ → Block → Block
round c k b = let l = bit_xor b.left k in record { left = bit_xor b.right (feistel c l); right = l }

-- The first `n` rounds of the loop in `EncryptBlock`.
pub encrypt_rounds : Blowfish → ℕ → Block → Block
encrypt_rounds c zero b = b
encrypt_rounds c (suc i) b = round c (pary_at c i) (encrypt_rounds c i b)

pub encrypt_block : Blowfish → Block → Block
encrypt_block c b =
    let s = encrypt_rounds c 16 b in
    record { left = bit_xor s.right (pary_at c 17); right = bit_xor s.left (pary_at c 16) }

-- The first `n` rounds of the loop in `DecryptBlock`.
pub decrypt_rounds : Blowfish → ℕ → Block → Block
decrypt_rounds c zero b = b
decrypt_rounds c (suc i) b = round c (pary_at c (17 - i)) (decrypt_rounds c i b)

pub decrypt_block : Blowfish → Block → Block
decrypt_block c b =
    let s = decrypt_rounds c 16 b in
    record { left = bit_xor s.right (pary_at c 0); right = bit_xor s.left (pary_at c 1) }

-- A uint32_t in memory, on a little-endian machine.
unfoldable pub load_word : ℕ → ℕ → ℕ → ℕ → ℕ
load_word a b c d = a + 2 ^ 8 * b + 2 ^ 16 * c + 2 ^ 24 * d

unfoldable pub store_word : ℕ → Bytes → Bytes
store_word w rest = w % 256 ∷ w / 2 ^ 8 % 256 ∷ w / 2 ^ 16 % 256 ∷ w / 2 ^ 24 % 256 ∷ rest

-- The loops of `Encrypt` and `Decrypt` over the whole blocks of `dst`, in place.
pub map_blocks : (Block → Block) → Bytes → Bytes
map_blocks f (a ∷ b ∷ c ∷ d ∷ e ∷ g ∷ h ∷ i ∷ rest) =
    let o = f (record { left = load_word a b c d; right = load_word e g h i }) in
    store_word o.left (store_word o.right (map_blocks f rest))
map_blocks f rest = rest

unfoldable pub padding_length : ℕ → ℕ
padding_length size = if size % 8 == 0 then 8 else 8 - size % 8

pub encrypt : Blowfish → Bytes → Bytes
unfolding padding_length
encrypt c src =
    let n = padding_length (length src) in map_blocks (encrypt_block c) (src ++ replicate n n)

-- The loop of `PKCS5PaddingLength`; `some false` is its early `return 0`. The index
-- `size - i - 1` is outside the string where `i` reaches the size.
pub all_padding : Bytes → ℕ → ℕ → Option Bool
all_padding str len zero = some true
all_padding str len (suc n) =
    let rest = all_padding str len n in
    elim rest [
      | none ↦ none
      | some false ↦ some false
      | some true ↦
          if leb (length str) n
          then none
          else if get_or str (length str - n - 1) 0 == len
          then some true
          else some false
    ]

-- `length > 0 && length <= 8`: a byte from 128 on is a negative `char`.
pub pkcs5_padding_length : Bytes → Option ℕ
unfolding all_padding
pkcs5_padding_length [] = some 0
pkcs5_padding_length (x ∷ str) =
    let len = get_or (x ∷ str) (length str) 0 in
    if ltb 0 len && leb len 8
    then (do same ← all_padding (x ∷ str) len len; some (if same then len else 0))
    else some 0

pub decrypt : Blowfish → Bytes → Option Bytes
decrypt c src =
    let dst = map_blocks (decrypt_block c) src in
    do n ← pkcs5_padding_length dst; some (take (length dst - n) dst)

-- `GCD`, its loop on fuel: `gcd` falls in each round.
pub gcd_loop : ℕ → ℕ → ℕ → ℕ
gcd_loop zero prev gcd = gcd
gcd_loop (suc fuel) prev gcd =
    let rest = gcd_loop fuel gcd (prev % gcd) in if prev % gcd == 0 then gcd else rest

pub gcd : ℕ → ℕ → ℕ
unfolding gcd_loop
gcd larger smaller = gcd_loop smaller larger smaller

-- `key_buffer[i]`; the key is not empty.
pub key_word : Bytes → ℕ → ℕ
unfolding from_bytes
key_word key i =
    let at = λ (j : ℕ). get_or key ((i * 4 + j) % length key) 0 in
    from_bytes (at 0) (at 1) (at 2) (at 3)

-- A write to a table; outside of it, it is undefined.
pub write_at : List ℕ → ℕ → ℕ → Option (List ℕ)
write_at ws i v = if ltb i (length ws) then some (set ws i v) else none

-- The two writes of a round of the loops below.
pub put_block : List ℕ → ℕ → Block → Option (List ℕ)
put_block ws i o = write_at ws (i * 2) o.left >>= λ us. write_at us (i * 2 + 1) o.right

-- `for (i = 0; i < n; i++) pary_[i] ^= key_buffer[i % buffer_length]`
pub mix_key : Bytes → ℕ → List ℕ → Option (List ℕ)
mix_key key zero ps = some ps
mix_key key (suc i) ps = mix_key key i ps >>= λ qs.
    let k = key_word key (i % (length key / gcd (length key) 4)) in
    write_at qs i (bit_xor (get_or qs i 0) k)

-- The loop that fills `pary_`: the state after `n` rounds, with the running block.
pub fill_pary : ℕ → Blowfish × Block → Option (Blowfish × Block)
fill_pary zero s = some s
fill_pary (suc i) s = fill_pary i s >>= λ (c, b).
    let o = encrypt_block c b in put_block c.pary i o >>= λ pary. some (record c { pary = pary }, o)

pub fill_sbox : ℕ → Blowfish × Block → Option (Blowfish × Block)
fill_sbox zero s = some s
fill_sbox (suc i) s = fill_sbox i s >>= λ (c, b).
    let o = encrypt_block c b in put_block c.sbox i o >>= λ sbox. some (record c { sbox = sbox }, o)

-- `SetKey`. With an empty key `i % buffer_length` divides by zero.
pub set_key : Bytes → Option Blowfish
set_key key =
    let zeros : Block = record { left = 0; right = 0 } in
    let filled = mix_key key 18 initial_pary >>= λ pary.
    fill_pary 9 (record { pary = pary; sbox = initial_sbox }, zeros) >>= λ s.
    fill_sbox 512 s >>= λ (c, b). some c in
    if length key == 0 then none else filled
