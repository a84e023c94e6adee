-- ===== src/Client/Kstr/Compare.antt =====
-- `kstr_compare` and equality of texts.
use Prim.Native.Nat.{Ordering}
use headquarter.Base.{ℕ, ◌+◌, ◌^◌, ◌≤◌, ◌<◌, ◌≡◌, ◌↔◌, refl, ap, ap₂, ◌∙◌, sym, arith}
use headquarter.Base.{List, [], ◌∷◌, All, length, drop, ltb, false, Bool-cases, inl, inr}
use headquarter.Base.{ok, some}
use headquarter.Common.Endian.{le16enc, le16dec}
use headquarter.Common.Endian.RoundTrip.{le16dec-le16enc}
use headquarter.Client.Kstr.{Kstr, memcmp, bytes_of, kstr_compare}
use headquarter.Client.Kstr.Units.{IsValid, text, length-text, read_bytes-inside}

-- Units of 16 bits.
abbrev pub IsUnits : List ℕ → Type 0
IsUnits = All (λ u. u < 2 ^ 16)

memcmp-same : (xs : List ℕ) → memcmp xs xs ≡ Ordering.eq
unfolding memcmp
memcmp-same [] = refl
memcmp-same (x ∷ xs) = ground (arith, memcmp-same xs)

memcmp-eq : (xs ys : List ℕ) → length xs ≡ length ys → memcmp xs ys ≡ Ordering.eq → xs ≡ ys
unfolding memcmp
memcmp-eq [] [] h e = refl
memcmp-eq [] (y ∷ ys) h e = absurd (omega arith)
memcmp-eq (x ∷ xs) [] h e = absurd (omega arith)
memcmp-eq (x ∷ xs) (y ∷ ys) h e = ground (arith, memcmp-eq xs ys)

length-bytes_of : (us : List ℕ) → length (bytes_of us) ≡ length us + length us
unfolding bytes_of le16enc
length-bytes_of [] = refl
length-bytes_of (u ∷ us) = omega (arith, length-bytes_of us)

some_injective : (a b : ℕ) → some a ≡ some b → a ≡ b
some_injective a b e = ground (arith, e)

bytes_of_injective :
    (us vs : List ℕ) → IsUnits us → IsUnits vs → bytes_of us ≡ bytes_of vs → us ≡ vs
unfolding bytes_of
bytes_of_injective [] [] p q e = refl
bytes_of_injective [] (v ∷ vs) p q e =
    absurd (ground (arith, length-bytes_of (v ∷ vs), ap length e))
bytes_of_injective (u ∷ us) [] p q e =
    absurd (ground (arith, length-bytes_of (u ∷ us), ap length e))
bytes_of_injective (u ∷ us) (v ∷ vs) (pu, p) (qv, q) e =
    let first : u ≡ v = some_injective u v (
      sym (le16dec-le16enc u (bytes_of us) pu)
      ∙ ap le16dec e
      ∙ le16dec-le16enc v (bytes_of vs) qv) in
    let rest : bytes_of us ≡ bytes_of vs = unfold le16enc in ap (drop 2) e in
    ap₂ (λ a as'. a ∷ as') first (bytes_of_injective us vs p q rest)

-- Texts of the same length are compared by their bytes.
compare-bytes :
    (s1 s2 : Kstr)
    → IsValid s1
    → IsValid s2
    → s1.length' ≡ s2.length'
    → kstr_compare s1 s2 ≡ ok (memcmp (bytes_of (text s1)) (bytes_of (text s2)))
unfolding kstr_compare
compare-bytes s1 s2 v w same =
    let here : s1.length' ≤ length s1.buffer = omega (arith, v.length_le, v.capacity_le) in
    let there : s2.length' ≤ length s2.buffer = omega (arith, w.length_le, w.capacity_le) in
    let longer : ltb s1.length' s2.length' ≡ false = ground (arith, same) in
    let shorter : ltb s2.length' s1.length' ≡ false = ground (arith, same) in
    rw
      (
        longer,
        shorter,
        read_bytes-inside s1.buffer s1.length' here,
        same,
        read_bytes-inside s2.buffer s2.length' there,
      )
      refl

equal_lengths : (s1 s2 : Kstr) → kstr_compare s1 s2 ≡ ok Ordering.eq → s1.length' ≡ s2.length'
unfolding kstr_compare
equal_lengths s1 s2 e = elim (Bool-cases (ltb s1.length' s2.length')) [
  | inl less ↦ absurd (ground (arith, rw less at e))
  | inr not_less ↦ elim (Bool-cases (ltb s2.length' s1.length')) [
    | inl more ↦ absurd (ground (arith, rw (not_less, more) at e))
    | inr not_more ↦ ground (arith, not_less, not_more)
  ]
]

ok_injective : (a b : Ordering) → ok a ≡ ok b → a ≡ b
ok_injective a b e = ground (arith, e)

-- Two valid texts of 16-bit units compare as equal exactly when they are the same text.
pub kstr_compare-eq_iff :
    (s1 s2 : Kstr)
    → IsValid s1
    → IsValid s2
    → IsUnits (text s1)
    → IsUnits (text s2)
    → (kstr_compare s1 s2 ≡ ok Ordering.eq) ↔ (text s1 ≡ text s2)
kstr_compare-eq_iff s1 s2 v w p q =
    let sized = length-text s1 (omega (arith, v.length_le, v.capacity_le)) in
    let sized' = length-text s2 (omega (arith, w.length_le, w.capacity_le)) in
    (
      (λ e.
          let same = equal_lengths s1 s2 e in
          bytes_of_injective (text s1) (text s2) p q (
            memcmp-eq (bytes_of (text s1)) (bytes_of (text s2))
              (omega
                (arith, same, sized, sized', length-bytes_of (text s1), length-bytes_of (text s2)))
              (ok_injective _ _ (sym (compare-bytes s1 s2 v w same) ∙ e)))),
      (λ e.
          compare-bytes s1 s2 v w (omega (arith, sized, sized', ap length e))
          ∙ ap (λ t. ok (memcmp (bytes_of (text s1)) (bytes_of t))) (sym e)
          ∙ ap ok (memcmp-same (bytes_of (text s1)))),
    )
