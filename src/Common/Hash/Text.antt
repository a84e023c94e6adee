-- ===== src/Common/Hash/Text.antt =====
-- The text hashes against each other.
use headquarter.Base.{
  ℕ, zero, suc, ◌<◌, ◌≡◌, refl, arith, List, [], ◌∷◌, ◌++◌, All, length, map, false,
}
use headquarter.Base.{◌==◌}
use headquarter.Common.Hash.{hash_str, hash_strn, hash_stri, hash_strni, tolower, add_char}
use headquarter.Common.Hash.{hash_str_from, hash_strn_from, hash_stri_from, hash_strni_from}

-- A text without a zero byte.
abbrev pub IsText : List ℕ → Type 0
IsText = All (λ c. (c == 0) ≡ false)

tolower-zero : (c : ℕ) → (tolower c == 0) ≡ (c == 0)
tolower-zero c = ground arith

bounded_from :
    (hash : ℕ) (str more : List ℕ) (size : ℕ)
    → IsText str
    → length str < size
    → hash_strn_from hash (str ++ (0 ∷ more)) size ≡ hash_str_from hash (str ++ (0 ∷ more))
unfolding hash_strn_from hash_str_from
bounded_from hash str more zero t h = absurd (omega arith)
bounded_from hash [] more (suc size) t h = refl
bounded_from hash (c ∷ str) more (suc size) (tc, t) h =
    rw tc (bounded_from (add_char hash c) str more size t (omega (arith, h)))

cut_from :
    (hash : ℕ) (str more : List ℕ)
    → IsText str
    → hash_strn_from hash (str ++ more) (length str) ≡ hash_str_from hash (str ++ (0 ∷ []))
unfolding hash_strn_from hash_str_from
cut_from hash [] more t = refl
cut_from hash (c ∷ str) more (tc, t) = rw tc (cut_from (add_char hash c) str more t)

-- Behind the terminator nothing is read, and a text that fills its room needs none: on a text without
-- zero bytes, the bounded hash is the hash of the terminated text, both when a terminator stands within
-- the bound and when the bound is the length of the text.
pub hash_strn-hash_str :
    (str more : List ℕ) (size : ℕ)
    → IsText str
    → length str < size
    → (hash_strn (str ++ (0 ∷ more)) size ≡ hash_str (str ++ (0 ∷ more)))
      × (hash_strn (str ++ more) (length str) ≡ hash_str (str ++ (0 ∷ [])))
hash_strn-hash_str str more size t h = (bounded_from 0 str more size t h, cut_from 0 str more t)

lower_from :
    (hash : ℕ) (str : List ℕ) → hash_stri_from hash str ≡ hash_str_from hash (map tolower str)
unfolding hash_stri_from hash_str_from
lower_from hash [] = refl
lower_from hash (c ∷ str) = rw (tolower-zero c, lower_from (add_char hash (tolower c)) str) refl

lower_bounded :
    (hash : ℕ) (str : List ℕ) (size : ℕ)
    → hash_strni_from hash str size ≡ hash_strn_from hash (map tolower str) size
unfolding hash_strni_from hash_strn_from
lower_bounded hash str zero = refl
lower_bounded hash [] (suc size) = refl
lower_bounded hash (c ∷ str) (suc size) =
    rw (tolower-zero c, lower_bounded (add_char hash (tolower c)) str size) refl

-- Hashing without regard to case is hashing the text in lower case, with a bound and without.
pub hash_stri-map :
    (str : List ℕ) (size : ℕ)
    → (hash_stri str ≡ hash_str (map tolower str))
      × (hash_strni str size ≡ hash_strn (map tolower str) size)
hash_stri-map str size = (lower_from 0 str, lower_bounded 0 str size)
