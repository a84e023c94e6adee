-- ===== src/Client/Kstr/Tests.antt =====
-- The text "Hi" and a longer one.
use Prim.Native.Nat.{Ordering}
use headquarter.Base.{ℕ, List, [], ◌∷◌, ◌++◌, ◌≡◌, ◌↔◌, refl, true, ok, All, arith, drop, length}
use headquarter.Client.Kstr.{
  Kstr, kstr_read, kstr_write, kstr_read_ascii, kstr_write_ascii, kstr_compare,
}
use headquarter.Client.Kstr.Units.{IsValid, IsFree, text}
use headquarter.Client.Kstr.RoundTrip.{kstr_read-kstr_write}
use headquarter.Client.Kstr.Compare.{IsUnits, kstr_compare-eq_iff}
use headquarter.Client.Kstr.Ascii.{IsAscii, kstr_write_ascii-kstr_read_ascii}

abbrev greeting : Kstr
greeting = record { length' = 2; capacity = 4; buffer = 72 ∷ 105 ∷ 7 ∷ 7 ∷ [] }

abbrev blank : Kstr
blank = record { length' = 0; capacity = 3; buffer = 1 ∷ 1 ∷ 1 ∷ [] }

greeting-IsValid : IsValid greeting
greeting-IsValid = record {
  length_le = ground arith;
  capacity_le = ground arith;
  small = ground arith;
}

blank-IsValid : IsValid blank
blank-IsValid = record {
  length_le = ground arith;
  capacity_le = ground arith;
  small = ground arith;
}

greeting-IsFree : IsFree 0 (text greeting)
greeting-IsFree = (refl, (refl, tt))

kstr_read-kstr_write_example :
    (out : List ℕ) × (kstr_write greeting (9 ∷ 9 ∷ 9 ∷ []) 3 ≡ ok (true, out))
    × ((dest' : Kstr) × (kstr_read blank out 3 ≡ ok (true, dest'))
        × IsValid dest'
        × (text dest' ≡ text greeting))
kstr_read-kstr_write_example =
    kstr_read-kstr_write greeting blank (9 ∷ 9 ∷ 9 ∷ []) 3 greeting-IsValid greeting-IsFree
      blank-IsValid (ground arith) (ground arith) (ground arith) (ground arith)

greeting-IsUnits : IsUnits (text greeting)
greeting-IsUnits = (ground arith, (ground arith, tt))

kstr_compare-eq_iff_example :
    (kstr_compare greeting greeting ≡ ok Ordering.eq) ↔ (text greeting ≡ text greeting)
kstr_compare-eq_iff_example =
    kstr_compare-eq_iff greeting greeting greeting-IsValid greeting-IsValid greeting-IsUnits
      greeting-IsUnits

abbrev hi : List ℕ
hi = 72 ∷ 105 ∷ []

hi-IsAscii : All IsAscii hi
hi-IsAscii = ((ground arith, ground arith), ((ground arith, ground arith), tt))

kstr_write_ascii-kstr_read_ascii_example :
    (str' : Kstr) × (kstr_read_ascii blank (hi ++ (0 ∷ 9 ∷ [])) 4 ≡ ok (true, str'))
    × (text str' ≡ hi)
    × (kstr_write_ascii str' (9 ∷ 9 ∷ 9 ∷ []) 3
        ≡ ok (true, hi ++ (0 ∷ drop 1 (drop (length hi) (9 ∷ 9 ∷ 9 ∷ [])))))
kstr_write_ascii-kstr_read_ascii_example =
    kstr_write_ascii-kstr_read_ascii hi (9 ∷ []) blank (9 ∷ 9 ∷ 9 ∷ []) 4 3 hi-IsAscii blank-IsValid
      (ground arith) (ground arith) (ground arith) (ground arith)
