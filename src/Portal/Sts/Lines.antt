-- ===== src/Portal/Sts/Lines.antt =====
-- The lines of a header, and the two fields that code/portal/sts.c reads.
use headquarter.Base.{
  ℕ, suc, ◌+◌, ◌≡◌, ◌≢◌, refl, List, [], ◌∷◌, ◌++◌, true, false, ◌==◌, ltb, leb, some, get_elem?,
  length, length-append, drop, All, ok, arith,
}
use headquarter.Portal.Sts.{line_end, parse_next_line, skip_line}

abbrev pub IsLine : List ℕ → Type 0
IsLine line = All (λ c. c ≢ 13) line

-- A line with its ending, and what follows it.
abbrev pub ended : List ℕ → List ℕ → List ℕ
ended line rest = line ++ (13 ∷ 10 ∷ rest)

line_end-ended :
    (line rest : List ℕ) → IsLine line → line_end (ended line rest) ≡ some (length line)
line_end-ended [] rest h = refl
line_end-ended (b ∷ []) rest h =
    let other : (b == 13) ≡ false = let ne = h.0 in ground arith in rw (other) refl
line_end-ended (b ∷ c ∷ line) rest h =
    let other : (b == 13) ≡ false = let ne = h.0 in ground arith in
    rw (other, line_end-ended (c ∷ line) rest h.1) refl

pub parse_next_line-ended :
    (line rest : List ℕ) → IsLine line → parse_next_line (ended line rest) ≡ some (length line)
unfolding parse_next_line
parse_next_line-ended line rest h =
    let long : ltb (length (ended line rest)) 2 ≡ false =
      let n = length-append line (13 ∷ 10 ∷ rest) in ground (arith, n) in
    rw (long) (line_end-ended line rest h)

suc_plus : (m n : ℕ) → suc m + n ≡ suc (m + n)
suc_plus m n = omega arith

get-ended :
    (line rest : List ℕ)
    → (get_elem? (ended line rest) (length line) ≡ some 13)
      × (get_elem? (ended line rest) (length line + 1) ≡ some 10)
      × (drop (length line + 2) (ended line rest) ≡ rest)
get-ended [] rest = (refl, refl, refl)
get-ended (b ∷ line) rest =
    let (cr, lf, after) = get-ended line rest in
    (cr, rw (suc_plus (length line) 1) lf, rw (suc_plus (length line) 2) after)

pub skip_line-ended : (line rest : List ℕ) → skip_line (ended line rest) (length line) ≡ ok rest
unfolding skip_line
skip_line-ended line rest =
    let (cr, lf, after) = get-ended line rest in
    let inside : leb (length line + 2) (length (ended line rest)) ≡ true =
      let n = length-append line (13 ∷ 10 ∷ rest) in ground (arith, n) in
    rw (inside, cr, lf, after) refl
