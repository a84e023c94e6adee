-- ===== src/Common/Hash/Mix.antt =====
-- The integer hashes are injective: each step can be undone.
use headquarter.Base.{
  ℕ, zero, suc, ◌+◌, ◌*◌, ◌/◌, ◌^◌, ◌<◌, ◌≡◌, ◌≢◌, refl, ap, ap₂, ◌∙◌, sym, arith,
}
use headquarter.Base.{u32, u64, bit_xor, bit_xor_step, bit_xor_twice, bit_xor-lt, ◌<<<◌, ◌>>>◌}
use native.Mathlib.Nat.{pow-suc, div-div-eq-div-mul, div-le_self, mod-lt}
use headquarter.Common.Hash.{spread, fold, hash_int32, hash_int64}

halve_first : (k x : ℕ) → x / 2 ^ suc k ≡ x / 2 / 2 ^ k
halve_first k x = ap (λ (m : ℕ). x / m) two ∙ sym (div-div-eq-div-mul x 2 (2 ^ k))
  where
    two : 2 ^ suc k ≡ 2 * 2 ^ k
    two = omega (arith, pow-suc 2 k)

-- The exclusive or of two words, shifted.
bit_xor-half : (a b : ℕ) → bit_xor a b / 2 ≡ bit_xor (a / 2) (b / 2)
bit_xor-half a b = omega (arith, bit_xor_step a b)

bit_xor-shift : (k a b : ℕ) → bit_xor a b >>> k ≡ bit_xor (a >>> k) (b >>> k)
bit_xor-shift zero a b = rw (one_part a, one_part b, one_part (bit_xor a b)) refl
  where
    one_part : (x : ℕ) → x / 2 ^ 0 ≡ x
    one_part x = omega arith
bit_xor-shift (suc k) a b =
    rw (halve_first k a, halve_first k b, halve_first k (bit_xor a b), bit_xor-half a b)
      (bit_xor-shift k (a / 2) (b / 2))

shifted-lt : (k n x : ℕ) → x < 2 ^ suc n → x >>> suc k < 2 ^ n
shifted-lt k n x p = omega (arith, halve_first k x, div-le_self (x / 2) (2 ^ k), pow-suc 2 n, p)

-- Any number of bits that a shift moves a word is enough to undo it in as many steps as it has bits.
fold_injective : (k n x y : ℕ) → x < 2 ^ n → y < 2 ^ n → fold (suc k) x ≡ fold (suc k) y → x ≡ y
fold_injective k zero x y p q e = omega (arith, p, q)
fold_injective k (suc n) x y p q e =
    let high : x >>> suc k ≡ y >>> suc k =
      fold_injective k n (x >>> suc k) (y >>> suc k) (shifted-lt k n x p) (shifted-lt k n y q) (
        sym (bit_xor-shift (suc k) x (x >>> suc k))
        ∙ ap (λ w. w >>> suc k) e
        ∙ bit_xor-shift (suc k) y (y >>> suc k)) in
    sym (bit_xor_twice x (x >>> suc k))
    ∙ ap₂ (λ v w. bit_xor v w) e high
    ∙ bit_xor_twice y (y >>> suc k)

fold-lt : (w k x : ℕ) → x < 2 ^ w → fold k x < 2 ^ w
fold-lt w k x p = bit_xor-lt w x (x >>> k) p (omega (arith, p, div-le_self x (2 ^ k)))

-- The multiplications by odd numbers that the shifts and sums amount to.
spread32_injective : (x y : ℕ) → x < 2 ^ 32 → y < 2 ^ 32 → spread 32 15 x ≡ spread 32 15 y → x ≡ y
spread32_injective x y p q e = omega (arith, p, q, e)

sum32_injective :
    (x y : ℕ) → x < 2 ^ 32 → y < 2 ^ 32 → u32 (x + u32 (x <<< 2)) ≡ u32 (y + u32 (y <<< 2)) → x ≡ y
sum32_injective x y p q e = omega (arith, p, q, e)

sums32_injective :
    (x y : ℕ)
    → x < 2 ^ 32
    → y < 2 ^ 32
    → u32 (x + u32 (u32 (x <<< 3) + u32 (x <<< 11)))
      ≡ u32 (y + u32 (u32 (y <<< 3) + u32 (y <<< 11)))
    → x ≡ y
sums32_injective x y p q e = omega (arith, p, q, e)

spread64_injective : (x y : ℕ) → x < 2 ^ 64 → y < 2 ^ 64 → spread 64 21 x ≡ spread 64 21 y → x ≡ y
spread64_injective x y p q e = omega (arith, p, q, e)

sums64_injective :
    (x y : ℕ)
    → x < 2 ^ 64
    → y < 2 ^ 64
    → u64 (x + u64 (u64 (x <<< 3) + u64 (x <<< 8))) ≡ u64 (y + u64 (u64 (y <<< 3) + u64 (y <<< 8)))
    → x ≡ y
sums64_injective x y p q e = omega (arith, p, q, e)

sums64_injective_second :
    (x y : ℕ)
    → x < 2 ^ 64
    → y < 2 ^ 64
    → u64 (x + u64 (u64 (x <<< 2) + u64 (x <<< 4))) ≡ u64 (y + u64 (u64 (y <<< 2) + u64 (y <<< 4)))
    → x ≡ y
sums64_injective_second x y p q e = omega (arith, p, q, e)

last64_injective :
    (x y : ℕ)
    → x < 2 ^ 64
    → y < 2 ^ 64
    → u64 (x + u64 (x <<< 31)) ≡ u64 (y + u64 (y <<< 31))
    → x ≡ y
last64_injective x y p q e = omega (arith, p, q, e)

hash_int32_injective : (x y : ℕ) → x < 2 ^ 32 → y < 2 ^ 32 → hash_int32 x ≡ hash_int32 y → x ≡ y
unfolding hash_int32
hash_int32_injective x y p q e =
    let w32 : (z : ℕ) → u32 z < 2 ^ 32 = λ z. mod-lt z (omega arith) in
    let a = spread 32 15 x in
    let a' = spread 32 15 y in
    let b = fold 12 a in
    let b' = fold 12 a' in
    let c = u32 (b + u32 (b <<< 2)) in
    let c' = u32 (b' + u32 (b' <<< 2)) in
    let d = fold 4 c in
    let d' = fold 4 c' in
    spread32_injective x y p q (
      fold_injective 11 32 a a' (w32 _) (w32 _) (
        sum32_injective b b' (fold-lt 32 12 a (w32 _)) (fold-lt 32 12 a' (w32 _)) (
          fold_injective 3 32 c c' (w32 _) (w32 _) (
            sums32_injective d d' (fold-lt 32 4 c (w32 _)) (fold-lt 32 4 c' (w32 _))
              (fold_injective 15 32 _ _ (w32 _) (w32 _) e)))))

hash_int64_injective : (x y : ℕ) → x < 2 ^ 64 → y < 2 ^ 64 → hash_int64 x ≡ hash_int64 y → x ≡ y
unfolding hash_int64
hash_int64_injective x y p q h =
    let w64 : (z : ℕ) → u64 z < 2 ^ 64 = λ z. mod-lt z (omega arith) in
    let a = spread 64 21 x in
    let a' = spread 64 21 y in
    let b = fold 24 a in
    let b' = fold 24 a' in
    let c = u64 (b + u64 (u64 (b <<< 3) + u64 (b <<< 8))) in
    let c' = u64 (b' + u64 (u64 (b' <<< 3) + u64 (b' <<< 8))) in
    let d = fold 14 c in
    let d' = fold 14 c' in
    let e = u64 (d + u64 (u64 (d <<< 2) + u64 (d <<< 4))) in
    let e' = u64 (d' + u64 (u64 (d' <<< 2) + u64 (d' <<< 4))) in
    let last : fold 28 e ≡ fold 28 e' =
      last64_injective (fold 28 e) (fold 28 e') (fold-lt 64 28 e (w64 _)) (fold-lt 64 28 e' (w64 _))
        h in
    let same_d : d ≡ d' =
      sums64_injective_second d d' (fold-lt 64 14 c (w64 _)) (fold-lt 64 14 c' (w64 _))
        (fold_injective 27 64 e e' (w64 _) (w64 _) last) in
    let same_b : b ≡ b' =
      sums64_injective b b' (fold-lt 64 24 a (w64 _)) (fold-lt 64 24 a' (w64 _))
        (fold_injective 13 64 c c' (w64 _) (w64 _) same_d) in
    spread64_injective x y p q (fold_injective 23 64 a a' (w64 _) (w64 _) same_b)

-- Different 32-bit words have different hashes.
pub hash_int32-ne : (x y : ℕ) → x < 2 ^ 32 → y < 2 ^ 32 → x ≢ y → hash_int32 x ≢ hash_int32 y
hash_int32-ne x y p q other same = other (hash_int32_injective x y p q same)

-- Different 64-bit words have different hashes.
pub hash_int64-ne : (x y : ℕ) → x < 2 ^ 64 → y < 2 ^ 64 → x ≢ y → hash_int64 x ≢ hash_int64 y
hash_int64-ne x y p q other same = other (hash_int64_injective x y p q same)
