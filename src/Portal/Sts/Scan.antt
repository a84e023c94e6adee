-- ===== src/Portal/Sts/Scan.antt =====
-- `sscanf` as code/portal/sts.c uses it: literal text, `%c`, and `%u` with and without a width.
use headquarter.Base.{
  ℕ, zero, suc, ◌+◌, ◌-◌, ◌*◌, ◌^◌, List, [], ◌∷◌, Bool, true, false, not, ◌&&◌, ◌||◌, ◌==◌, leb,
  if◌then◌else◌, Option, none, some, length, Outcome, ok, fault, ◌>>=◌,
}

abbrev pub is_digit : ℕ → Bool
is_digit c = leb 48 c && leb c 57

-- `isspace` in the C locale.
abbrev pub is_space : ℕ → Bool
is_space c = c == 32 || (leb 9 c && leb c 13)

-- What comes after a conversion that succeeds.
abbrev pub then_scan {κ ℓ} :
    {B : Type κ} {A : Type ℓ} → Outcome (Option A) → (A → Outcome (Option B)) → Outcome (Option B)
then_scan result next = result >>= λ found. elim found [ none ↦ ok none | some a ↦ next a ]

unfoldable pub scan_literal : List ℕ → List ℕ → Outcome (Option (List ℕ))
scan_literal [] input = ok (some input)
scan_literal (l ∷ literal) [] = fault
scan_literal (l ∷ literal) (c ∷ input) =
    let rest = scan_literal literal input in if l == c then rest else ok none

-- `%c`
unfoldable pub scan_char : List ℕ → Outcome (Option (ℕ × List ℕ))
scan_char [] = fault
scan_char (c ∷ input) = if c == 0 then ok none else ok (some (c, input))

unfoldable pub skip_space : List ℕ → Outcome (List ℕ)
skip_space [] = fault
skip_space (c ∷ input) = let rest = skip_space input in if is_space c then rest else ok (c ∷ input)

-- At most `width` digits, added to those that have been read.
unfoldable pub scan_digits : ℕ → ℕ → List ℕ → Outcome (ℕ × List ℕ)
scan_digits value zero input = ok (value, input)
scan_digits value (suc width) [] = fault
scan_digits value (suc width) (c ∷ input) =
    let rest = scan_digits (value * 10 + (c - 48)) width input in
    if is_digit c then rest else ok (value, c ∷ input)

-- The digits behind a sign; there is at least one.
unfoldable pub scan_number : Bool → ℕ → List ℕ → Outcome (Option (ℕ × List ℕ))
scan_number negative zero input = ok none
scan_number negative (suc width) [] = fault
scan_number negative (suc width) (c ∷ input) =
    let number = (do
      (value, rest) ← scan_digits 0 (suc width) (c ∷ input)
      if leb (2 ^ 32) value || (negative && not (value == 0))
          then fault
          else ok (some (value, rest))) in
    if is_digit c then number else ok none

unfoldable pub scan_sign : ℕ → List ℕ → Outcome (Option (ℕ × List ℕ))
scan_sign width [] = fault
scan_sign width (c ∷ input) =
    if c == 43
    then scan_number false (width - 1) input
    else if c == 45
    then scan_number true (width - 1) input
    else scan_number false width (c ∷ input)

unfoldable pub scan_unsigned : ℕ → List ℕ → Outcome (Option (ℕ × List ℕ))
unfolding scan_sign
scan_unsigned width input = do start ← skip_space input; scan_sign width start

-- "STS/%1u.%1u%c%3u": the two numbers of the version and the status code.
unfoldable pub scan_status : List ℕ → Outcome (Option (ℕ × ℕ × ℕ))
scan_status input = then_scan (scan_literal (83 ∷ 84 ∷ 83 ∷ 47 ∷ []) input) (λ after_name.
    then_scan (scan_unsigned 1 after_name) (λ (major, after_major).
      then_scan (scan_literal (46 ∷ []) after_major) (λ after_dot.
        then_scan (scan_unsigned 1 after_dot) (λ (minor, after_minor).
          then_scan (scan_char after_minor) (λ (separator, after_char).
            then_scan (scan_unsigned 3 after_char)
              (λ (code, rest). ok (some (major, minor, code))))))))

-- "s:%uR" and "l:%u": the number behind a literal. `%u` has no bound but the input.
unfoldable pub scan_field : List ℕ → List ℕ → Outcome (Option ℕ)
scan_field literal input = then_scan (scan_literal literal input) (λ after_name.
    then_scan (scan_unsigned (suc (length after_name)) after_name)
      (λ (value, rest). ok (some value)))
