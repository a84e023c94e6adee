-- ===== src/Base/Bits.antt =====
-- The bit operations at variables: one equation for the lowest digit, and what follows from it for
-- masks, disjoint fields and the exclusive or.
use Prim.Native.Nat.{ℕ, zero, suc, ◌+◌, ◌-◌, ◌*◌, ◌/◌, ◌%◌, ◌^◌, ◌≤◌, ◌<◌, min, max}
use Prim.Native.Nat.{bit_and, bit_or, bit_xor, digits, differ}
use Prim.Native.Nat.{bit_and-bitwise, bit_or-bitwise, bit_xor-bitwise}
use mathlib.Core.Path.{◌≡◌, refl, sym, ap, ◌∙◌}
use native.Mathlib.Nat.{
  pow-suc, one-le-pow, mod-lt, mod-eq_of_lt, div-add-mod, add-mul-mod_self_left,
}
use native.Mathlib.Omega.{arith}

-- One unit of fuel beyond the first argument changes nothing, and so any number of them.
module _ (z : ℕ → ℕ) (f : ℕ → ℕ → ℕ) where
  digits-suc : (n a b : ℕ) → a ≤ n → digits z f (suc n) a b ≡ digits z f n a b
  digits-suc zero zero b h = refl
  digits-suc (suc n) zero b h = refl
  digits-suc zero (suc a) b h = absurd (omega arith)
  digits-suc (suc n) (suc a) b h =
      ap (λ k. k * 2 + f (suc a % 2) (b % 2)) (digits-suc n (suc a / 2) (b / 2) (omega arith))

  suc_add : (i j : ℕ) → suc i + j ≡ suc (i + j)
  suc_add i j = omega arith

  digits_more : (k n a b : ℕ) → a ≤ n → digits z f (k + n) a b ≡ digits z f n a b
  digits_more zero n a b h = ap (λ m. digits z f m a b) (zero_add n)
    where
      zero_add : (i : ℕ) → zero + i ≡ i
      zero_add i = omega arith
  digits_more (suc k) n a b h =
      ap (λ m. digits z f m a b) (suc_add k n)
      ∙ digits-suc (k + n) a b (omega arith)
      ∙ digits_more k n a b h

  digits_half : (a b : ℕ) → digits z f a (suc a / 2) b ≡ digits z f (suc a / 2) (suc a / 2) b
  digits_half a b =
      ap (λ m. digits z f m (suc a / 2) b) split
      ∙ digits_more (a - suc a / 2) (suc a / 2) (suc a / 2) b (omega arith)
    where
      split : a ≡ (a - suc a / 2) + suc a / 2
      split = omega arith

pub bit_and_step : (x y : ℕ) → bit_and x y ≡ min (x % 2) (y % 2) + 2 * bit_and (x / 2) (y / 2)
bit_and_step zero k = omega (arith, bit_and-bitwise 0 (k / 2), bit_and-bitwise 0 k)
bit_and_step (suc i) k = omega (
  arith,
  digits_half (λ c. zero) min i (k / 2),
  bit_and-bitwise (suc i / 2) (k / 2),
  bit_and-bitwise (suc i) k,
)

pub bit_or_step : (x y : ℕ) → bit_or x y ≡ max (x % 2) (y % 2) + 2 * bit_or (x / 2) (y / 2)
bit_or_step zero k = omega (arith, bit_or-bitwise 0 (k / 2), bit_or-bitwise 0 k)
bit_or_step (suc i) k = omega (
  arith,
  digits_half (λ c. c) max i (k / 2),
  bit_or-bitwise (suc i / 2) (k / 2),
  bit_or-bitwise (suc i) k,
)

differ_mod : (p q : ℕ) → p < 2 → q < 2 → differ p q ≡ (p + q) % 2
differ_mod zero q hp hq = omega (arith, mod-eq_of_lt hq)
differ_mod (suc zero) zero hp hq = refl
differ_mod (suc zero) (suc zero) hp hq = refl
differ_mod (suc zero) (suc (suc q)) hp hq = absurd (omega arith)
differ_mod (suc (suc p)) q hp hq = absurd (omega arith)

pub bit_xor_step : (x y : ℕ) → bit_xor x y ≡ (x % 2 + y % 2) % 2 + 2 * bit_xor (x / 2) (y / 2)
bit_xor_step zero k = omega (arith, bit_xor-bitwise 0 (k / 2), bit_xor-bitwise 0 k)
bit_xor_step (suc i) k = omega (
  arith,
  differ_mod (suc i % 2) (k % 2) (omega arith) (omega arith),
  digits_half (λ c. c) differ i (k / 2),
  bit_xor-bitwise (suc i / 2) (k / 2),
  bit_xor-bitwise (suc i) k,
)

-- The exclusive or with one word, twice, gives the word back.
xor_twice_fuel : (n a b : ℕ) → a ≤ n → b ≤ n → bit_xor (bit_xor a b) b ≡ a
xor_twice_fuel zero zero zero p q = refl
xor_twice_fuel zero zero (suc b) p q = absurd (omega arith)
xor_twice_fuel zero (suc a) b p q = absurd (omega arith)
xor_twice_fuel (suc n) a b p q =
    let half : bit_xor a b / 2 ≡ bit_xor (a / 2) (b / 2) = omega (arith, bit_xor_step a b) in
    omega (
      arith,
      bit_xor_step a b,
      bit_xor_step (bit_xor a b) b,
      ap (λ (t : ℕ). bit_xor t (b / 2)) half,
      xor_twice_fuel n (a / 2) (b / 2) (omega arith) (omega arith),
    )

pub bit_xor_twice : (a b : ℕ) → bit_xor (bit_xor a b) b ≡ a
bit_xor_twice a b = xor_twice_fuel (max a b) a b (omega arith) (omega arith)

-- The exclusive or of two words of `k` bits has `k` bits.
pub bit_xor-lt : (k a b : ℕ) → a < 2 ^ k → b < 2 ^ k → bit_xor a b < 2 ^ k
bit_xor-lt zero zero zero p q = omega arith
bit_xor-lt zero zero (suc b) p q = absurd (omega arith)
bit_xor-lt zero (suc a) b p q = absurd (omega arith)
bit_xor-lt (suc k) a b p q = omega (
  arith,
  pow-suc 2 k,
  bit_xor_step a b,
  bit_xor-lt k (a / 2) (b / 2) (omega (arith, pow-suc 2 k)) (omega (arith, pow-suc 2 k)),
)

bit_and-zero : (n a : ℕ) → a ≤ n → bit_and a 0 ≡ 0
bit_and-zero zero zero h = refl
bit_and-zero zero (suc a) h = absurd (omega arith)
bit_and-zero (suc n) a h = omega (arith, bit_and_step a 0, bit_and-zero n (a / 2) (omega arith))

half_mod : (m a : ℕ) → 0 < m → a / 2 % m * 2 + a % 2 ≡ a % (2 * m)
half_mod m a h =
    sym (mod-eq_of_lt fits)
    ∙ sym (add-mul-mod_self_left (a / 2 % m * 2 + a % 2) (2 * m) (a / 2 / m))
    ∙ ap (λ t. t % (2 * m)) whole
  where
    fits : a / 2 % m * 2 + a % 2 < 2 * m
    fits = omega (arith, mod-lt (a / 2) h)

    whole : a / 2 % m * 2 + a % 2 + 2 * m * (a / 2 / m) ≡ a
    whole = omega (arith, div-add-mod (a / 2) m)

-- A mask of `k` ones is the remainder by `2 ^ k`.
pub bit_and_mask : (k a : ℕ) → bit_and a (2 ^ k - 1) ≡ a % 2 ^ k
bit_and_mask zero a = omega (arith, bit_and-zero a a)
bit_and_mask (suc k) a = omega (
  arith,
  pow-suc 2 k,
  one-le-pow k 2,
  bit_and_step a (2 ^ suc k - 1),
  ap (λ (t : ℕ). bit_and (a / 2) t) (half_mask k),
  bit_and_mask k (a / 2),
  half_mod (2 ^ k) a (omega (arith, one-le-pow k 2)),
  ap (λ (t : ℕ). a % t) (double k),
)
  where
    half_mask : (n : ℕ) → (2 ^ suc n - 1) / 2 ≡ 2 ^ n - 1
    half_mask n = omega (arith, pow-suc 2 n, one-le-pow n 2)

    double : (n : ℕ) → 2 ^ suc n ≡ 2 * 2 ^ n
    double n = omega (arith, pow-suc 2 n)

or_zero_fuel : (n a : ℕ) → a ≤ n → bit_or a 0 ≡ a
or_zero_fuel zero zero h = refl
or_zero_fuel zero (suc a) h = absurd (omega arith)
or_zero_fuel (suc n) a h = omega (arith, bit_or_step a 0, or_zero_fuel n (a / 2) (omega arith))

-- The field `q` above `k` bits, joined with a field that fits below it, is the sum.
pub bit_or_fields : (k q r : ℕ) → r < 2 ^ k → bit_or (q * 2 ^ k) r ≡ q * 2 ^ k + r
bit_or_fields zero q zero h = omega (arith, or_zero_fuel (q * 1) (q * 1) (omega arith))
bit_or_fields zero q (suc r) h = absurd (omega arith)
bit_or_fields (suc k) q r h = omega (
  arith,
  doubled,
  bit_or_step (q * 2 ^ suc k) r,
  ap (λ (t : ℕ). bit_or t (r / 2)) halved,
  bit_or_fields k q (r / 2) (omega (arith, pow-suc 2 k)),
)
  where
    doubled : q * 2 ^ suc k ≡ 2 * (q * 2 ^ k)
    doubled = omega (arith, ap (λ (t : ℕ). q * t) (pow-suc 2 k))

    halved : q * 2 ^ suc k / 2 ≡ q * 2 ^ k
    halved = omega (arith, doubled)
