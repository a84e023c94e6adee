-- ===== src/Portal/Sts/Decimal.antt =====
-- Numbers in decimal, as `%u` writes and reads them.
use headquarter.Base.{
  ℕ, zero, suc, ◌+◌, ◌-◌, ◌*◌, ◌/◌, ◌%◌, ◌^◌, ◌<◌, ◌≤◌, ◌≡◌, refl, ap, ◌∙◌, List, [], ◌∷◌, ◌++◌,
  append_assoc, true, false, ltb, leb, if◌then◌else◌, some, Bool-cases, inl, inr, ltb→lt, length,
  length-append, All, ok, arith,
}
use mathlib.Core.Path.{subst}
use headquarter.Portal.Sts.Scan.{
  is_digit, is_space, skip_space, scan_digits, scan_number, scan_sign, scan_unsigned,
}

-- The digits of a number below `10 ^ k`.
unfoldable pub digits : ℕ → ℕ → List ℕ
digits zero n = []
digits (suc k) n =
    let front = digits k (n / 10) in
    if ltb n 10 then (48 + n) ∷ [] else front ++ ((48 + n % 10) ∷ [])

-- What snprintf writes for an `unsigned`.
abbrev pub decimal : ℕ → List ℕ
decimal n = digits 10 n

abbrev pub IsDigit : ℕ → Type 0
IsDigit c = (48 ≤ c) × (c ≤ 57)

All-snoc : (P : ℕ → Type 0) (xs : List ℕ) (y : ℕ) → All P xs → P y → All P (xs ++ (y ∷ []))
All-snoc P [] y h k = (k, tt)
All-snoc P (x ∷ xs) y h k = (h.0, All-snoc P xs y h.1 k)

pub digits-IsDigit : (k n : ℕ) → All IsDigit (digits k n)
unfolding digits
digits-IsDigit zero n = tt
digits-IsDigit (suc k) n = elim (Bool-cases (ltb n 10)) [
  | inl e ↦ let small = ltb→lt n 10 e in rw (e) ((omega arith, omega arith), tt)
  | inr e ↦ rw (e) (
      All-snoc IsDigit (digits k (n / 10)) (48 + n % 10) (digits-IsDigit k (n / 10))
        (omega arith, omega arith))
]

pub length-digits : (k n : ℕ) → length (digits k n) ≤ k
unfolding digits
length-digits zero n = omega arith
length-digits (suc k) n = elim (Bool-cases (ltb n 10)) [
  | inl e ↦ rw (e) (omega arith)
  | inr e ↦
      rw (e, length-append (digits k (n / 10)) ((48 + n % 10) ∷ []))
        (omega (arith, length-digits k (n / 10)))
]

pub digits-cons : (k n : ℕ) → (d : ℕ) × (ds : List ℕ) × (digits (suc k) n ≡ d ∷ ds)
unfolding digits
digits-cons zero n = elim (Bool-cases (ltb n 10)) [
  | inl e ↦ (48 + n, [], rw (e) refl)
  | inr e ↦ (48 + n % 10, [], rw (e) refl)
]
digits-cons (suc k) n = elim (Bool-cases (ltb n 10)) [
  | inl e ↦ (48 + n, [], rw (e) refl)
  | inr e ↦
      let (d, ds, front) = digits-cons k (n / 10) in
      (d, ds ++ ((48 + n % 10) ∷ []), rw (e) (ap (λ ys. ys ++ ((48 + n % 10) ∷ [])) front))
]

scan_digits-digit :
    (value width c : ℕ) (input : List ℕ)
    → IsDigit c
    → scan_digits value (suc width) (c ∷ input) ≡ scan_digits (value * 10 + (c - 48)) width input
unfolding scan_digits
scan_digits-digit value width c input d =
    let digit : is_digit c ≡ true = ground arith in rw (digit) refl

zero_plus : (n : ℕ) → 0 + n ≡ n
zero_plus n = omega arith

one_plus : (n : ℕ) → 1 + n ≡ suc n
one_plus n = omega arith

plus_one : (m n : ℕ) → m + 1 + n ≡ m + suc n
plus_one m n = omega arith

value_of_digit : (n : ℕ) → 0 * 10 + (48 + n - 48) ≡ n
value_of_digit n = omega arith

split_number : (n : ℕ) → n / 10 * 10 + (48 + n % 10 - 48) ≡ n
split_number n = omega arith

-- Reading the digits of a number gives the number.
pub scan_digits-digits :
    (k n width : ℕ) (tail : List ℕ)
    → n < 10 ^ k
    → scan_digits 0 (length (digits k n) + width) (digits k n ++ tail) ≡ scan_digits n width tail
unfolding digits
scan_digits-digits zero n width tail small =
    let none_left : n ≡ 0 = omega arith in rw (none_left, zero_plus width) refl
scan_digits-digits (suc k) n width tail small = elim (Bool-cases (ltb n 10)) [
  | inl e ↦
      let below = ltb→lt n 10 e in
      rw
        (
          e,
          one_plus width,
          scan_digits-digit 0 width (48 + n) tail (omega arith, omega arith),
          value_of_digit n,
        )
        refl
  | inr e ↦
      let m = n / 10 in
      let d = 48 + n % 10 in
      let rest = scan_digits-digits k m (suc width) (d ∷ tail) (omega arith) in
      rw
        (
          e,
          length-append (digits k m) (d ∷ []),
          plus_one (length (digits k m)) width,
          append_assoc (digits k m) (d ∷ []) tail,
          rest,
          scan_digits-digit m width d tail (omega arith, omega arith),
          split_number n,
        )
        refl
]

-- A conversion stops at the end of its width and at what is no digit.
scan_digits-stop :
    (value width c : ℕ) (tail : List ℕ)
    → is_digit c ≡ false
    → scan_digits value width (c ∷ tail) ≡ ok (value, c ∷ tail)
unfolding scan_digits
scan_digits-stop value zero c tail other = refl
scan_digits-stop value (suc width) c tail other = rw (other) refl

skip_space-digit : (d : ℕ) (input : List ℕ) → IsDigit d → skip_space (d ∷ input) ≡ ok (d ∷ input)
unfolding skip_space
skip_space-digit d input h = let other : is_space d ≡ false = ground arith in rw (other) refl

scan_sign-digit :
    (width d : ℕ) (input : List ℕ)
    → IsDigit d
    → scan_sign width (d ∷ input) ≡ scan_number false width (d ∷ input)
unfolding scan_sign
scan_sign-digit width d input h = ground arith

scan_number-digit :
    (width d value : ℕ) (input rest : List ℕ)
    → IsDigit d
    → value < 2 ^ 32
    → scan_digits 0 (suc width) (d ∷ input) ≡ ok (value, rest)
    → scan_number false (suc width) (d ∷ input) ≡ ok (some (value, rest))
unfolding scan_number
scan_number-digit width d value input rest h small scanned =
    let digit : is_digit d ≡ true = ground arith in
    let fits : leb (2 ^ 32) value ≡ false = ground arith in rw (digit, scanned, fits) refl

split_width : (m n : ℕ) → m ≤ n → m + (n - m) ≡ n
split_width m n le = omega arith

scan_digits-within :
    (k n width c : ℕ) (tail : List ℕ)
    → n < 10 ^ k
    → length (digits k n) ≤ width
    → is_digit c ≡ false
    → scan_digits 0 width (digits k n ++ (c ∷ tail)) ≡ ok (n, c ∷ tail)
scan_digits-within k n width c tail small enough other =
    let left = width - length (digits k n) in
    subst (λ w. scan_digits 0 w (digits k n ++ (c ∷ tail)) ≡ ok (n, c ∷ tail))
      (split_width (length (digits k n)) width enough)
      (scan_digits-digits k n left (c ∷ tail) small ∙ scan_digits-stop n left c tail other)

pub scan_unsigned-digits :
    (k n width c : ℕ) (tail : List ℕ)
    → n < 10 ^ suc k
    → n < 2 ^ 32
    → length (digits (suc k) n) ≤ width
    → is_digit c ≡ false
    → scan_unsigned width (digits (suc k) n ++ (c ∷ tail)) ≡ ok (some (n, c ∷ tail))
unfolding scan_unsigned
scan_unsigned-digits k n zero c tail small fits enough other =
    let (d, ds, front) = digits-cons k n in
    let some_digit : length (digits (suc k) n) ≡ suc (length ds) = ap length front in
    absurd (omega (arith, some_digit, enough))
scan_unsigned-digits k n (suc width) c tail small fits enough other =
    let (d, ds, front) = digits-cons k n in
    let digit : IsDigit d = (subst (λ xs. All IsDigit xs) front (digits-IsDigit (suc k) n)).0 in
    let scanned : scan_digits 0 (suc width) (d ∷ ds ++ (c ∷ tail)) ≡ ok (n, c ∷ tail) =
      subst (λ xs. scan_digits 0 (suc width) (xs ++ (c ∷ tail)) ≡ ok (n, c ∷ tail)) front
        (scan_digits-within (suc k) n (suc width) c tail small enough other) in
    rw
      (
        front,
        skip_space-digit d (ds ++ (c ∷ tail)) digit,
        scan_sign-digit (suc width) d (ds ++ (c ∷ tail)) digit,
      )
      (scan_number-digit width d n (ds ++ (c ∷ tail)) (c ∷ tail) digit fits scanned)
