-- ===== src/Encrypt/Md5/Chunks.antt =====
-- `MD5Update` (fma-common/encrypt.h) takes a text in pieces: it is a machine that takes one byte at a
-- time and transforms each full block.
use fma_common.Common.{
  ℕ, zero, suc, ◌+◌, ◌-◌, ◌/◌, ◌%◌, ◌≤◌, ◌<◌, ◌≡◌, refl, sym, ◌∙◌, ap, [], ◌∷◌, ◌++◌, arith, Bytes,
  ltb, ◌==◌, if◌then◌else◌, Bool-cases, inl, inr, ==_iff, length, set, take, drop, length-take,
  length-drop, take-append-drop,
}
use fma_common.Encrypt.Md5.{Digest, md5_transform, memcpy, md5_chunks, md5_blocks}

-- The digest so far, the block, and how many of its bytes are taken.
pub record Feeder : Type 0 where
  pub state : Digest
  pub block : Bytes
  pub at : ℕ

abbrev pub feeder : Digest → Bytes → ℕ → Feeder
feeder s b t = record { state = s; block = b; at = t }

pub feed : Feeder → ℕ → Feeder
feed m c =
    let filled = set m.block m.at c in
    if m.at == 63
    then feeder (md5_transform m.state filled) filled 0
    else feeder m.state filled (suc m.at)

unfoldable pub feed_all : Feeder → Bytes → Feeder
feed_all m [] = m
feed_all m (c ∷ cs) = feed_all (feed m c) cs

pub feed_all-append :
    (m : Feeder) (xs ys : Bytes) → feed_all m (xs ++ ys) ≡ feed_all (feed_all m xs) ys
unfolding feed_all
feed_all-append m [] ys = refl
feed_all-append m (x ∷ xs) ys = feed_all-append (feed m x) xs ys

feed_below :
    (s : Digest) (b : Bytes) (t c : ℕ)
    → t < 63
    → feed (feeder s b t) c ≡ feeder s (set b t c) (suc t)
unfolding feed
feed_below s b t c h = ground arith

feed_last :
    (s : Digest) (b : Bytes) (t c : ℕ)
    → t ≡ 63
    → feed (feeder s b t) c ≡ feeder (md5_transform s (set b t c)) (set b t c) 0
unfolding feed
feed_last s b t c h = ground arith

-- Bytes that leave room in the block are copied into it.
feed_within :
    (s : Digest) (b : Bytes) (t : ℕ) (xs : Bytes)
    → t + length xs < 64
    → feed_all (feeder s b t) xs ≡ feeder s (memcpy b t xs) (t + length xs)
unfolding feed_all memcpy
feed_within s b t [] h = ap (feeder s b) (omega arith)
feed_within s b t (x ∷ xs) h = rw (feed_below s b t x (omega arith)) (
    feed_within s (set b t x) (suc t) xs (omega arith)
    ∙ ap (feeder s (memcpy (set b t x) (suc t) xs)) (omega arith))

-- Bytes that fill the block are copied into it, and it is transformed.
feed_full :
    (s : Digest) (b : Bytes) (t : ℕ) (xs : Bytes)
    → t < 64
    → t + length xs ≡ 64
    → feed_all (feeder s b t) xs ≡ feeder (md5_transform s (memcpy b t xs)) (memcpy b t xs) 0
unfolding feed_all memcpy
feed_full s b t [] p h = absurd (omega arith)
feed_full s b t (x ∷ []) p h = feed_last s b t x (omega arith)
feed_full s b t (x ∷ y ∷ xs) p h =
    rw (feed_below s b t x (omega arith))
      (feed_full s (set b t x) (suc t) (y ∷ xs) (omega arith) (omega arith))

abbrev pub of_pair : Digest × Bytes → ℕ → Feeder
of_pair p t = feeder p.0 p.1 t

chunks-feed :
    (n : ℕ) (s : Digest) (b : Bytes) (xs : Bytes)
    → n ≡ length xs / 64
    → feed_all (feeder s b 0) xs ≡ of_pair (md5_chunks n s b xs) (length xs % 64)
unfolding md5_chunks
chunks-feed zero s b xs h =
    feed_within s b 0 xs (omega arith) ∙ ap (feeder s (memcpy b 0 xs)) (omega arith)
chunks-feed (suc n) s b xs h =
    let filled = memcpy b 0 (take 64 xs) in
    let count = length-drop 64 xs in
    ap (feed_all (feeder s b 0)) (sym (take-append-drop 64 xs))
    ∙ feed_all-append (feeder s b 0) (take 64 xs) (drop 64 xs)
    ∙ rw (feed_full s b 0 (take 64 xs) (omega arith) (omega (arith, length-take 64 xs))) (
        chunks-feed n (md5_transform s filled) filled (drop 64 xs) (omega (arith, count))
        ∙ ap (of_pair (md5_chunks n (md5_transform s filled) filled (drop 64 xs)))
            (omega (arith, count)))

pub blocks-feed :
    (t : ℕ) (s : Digest) (b : Bytes) (xs : Bytes)
    → t < 64
    → feed_all (feeder s b t) xs ≡ of_pair (md5_blocks t s b xs) ((t + length xs) % 64)
unfolding md5_blocks
blocks-feed t s b xs h = elim (Bool-cases (t == 0)) [
  | inl e ↦
      let at : t ≡ 0 = (==_iff t 0).0 e in
      rw at (chunks-feed (length xs / 64) s b xs refl ∙ ap (of_pair _) (omega arith))
  | inr ne ↦ elim (Bool-cases (ltb (length xs) (64 - t))) [
    | inl few ↦
        rw (ne, few)
          (feed_within s b t xs (ground arith) ∙ ap (feeder s (memcpy b t xs)) (ground arith))
    | inr more ↦
        let size = length-take (64 - t) xs in
        let rest = length-drop (64 - t) xs in
        let filled = memcpy b t (take (64 - t) xs) in
        let room : 64 - t ≤ length xs = ground arith in
        ap (feed_all (feeder s b t)) (sym (take-append-drop (64 - t) xs))
        ∙ feed_all-append (feeder s b t) (take (64 - t) xs) (drop (64 - t) xs)
        ∙ rw (ne, more, feed_full s b t (take (64 - t) xs) h (omega (arith, size)))
            (chunks-feed _ (md5_transform s filled) filled (drop (64 - t) xs) refl
              ∙ ap (of_pair _) (omega (arith, rest)))
  ]
]
