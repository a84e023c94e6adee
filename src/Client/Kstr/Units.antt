-- ===== src/Client/Kstr/Units.antt =====
-- The text of a valid `kstr`, and the search for a unit.
use headquarter.Base.{ℕ, zero, suc, ◌+◌, ◌≤◌, ◌<◌, ◌≡◌, refl, ap, ap₂, ◌∙◌, sym, arith}
use headquarter.Base.{List, [], ◌∷◌, ◌++◌, true, false, All, length, take, drop, ◌==◌}
use headquarter.Base.{
  ok, le→leb, length-take, take-append-drop, length-append, take-append, drop-append_past,
}
use headquarter.Client.Network.Buffer.{read_bytes, write_at}
use headquarter.Client.Kstr.{Kstr, npos, find_from, kstr_find_codepoint}

-- The text lies in its capacity, and the capacity in its buffer; sizes are below `npos`.
pub record IsValid (str : Kstr) : Type 0 where
  pub length_le : str.length' ≤ str.capacity
  pub capacity_le : str.capacity ≤ length str.buffer
  pub small : length str.buffer < npos

-- The units of the text.
abbrev pub text : Kstr → List ℕ
text str = take str.length' str.buffer

-- `stop` stands nowhere.
abbrev pub IsFree : ℕ → List ℕ → Type 0
IsFree stop = All (λ u. (u == stop) ≡ false)

pub find_from-end :
    (stop : ℕ) (src more : List ℕ) (i : ℕ)
    → IsFree stop src
    → find_from stop (src ++ more) i (length src) ≡ ok (i + length src)
unfolding find_from
find_from-end stop [] more i free = ap ok (omega arith)
find_from-end stop (u ∷ src) more i (other, free) =
    rw (other, find_from-end stop src more (i + 1) free) (ap ok (omega arith))

pub find_from-found :
    (stop : ℕ) (src more : List ℕ) (i left : ℕ)
    → IsFree stop src
    → length src < left
    → find_from stop (src ++ stop ∷ more) i left ≡ ok (i + length src)
unfolding find_from
find_from-found stop [] more i zero free h = absurd (omega arith)
find_from-found stop [] more i (suc left) free h =
    let here : (stop == stop) ≡ true = ground arith in rw here (ap ok (omega arith))
find_from-found stop (u ∷ src) more i zero free h = absurd (omega arith)
find_from-found stop (u ∷ src) more i (suc left) (other, free) h =
    rw (other, find_from-found stop src more (i + 1) left free (omega arith)) (ap ok (omega arith))

-- A write behind the first part of a buffer.
pub write_at-append :
    (a b units : List ℕ) (n : ℕ)
    → n ≡ length a
    → length units ≤ length b
    → write_at (a ++ b) n units ≡ ok (a ++ (units ++ drop (length units) b))
unfolding write_at
write_at-append a b units n e h =
    rw
      (
        e,
        le→leb (length a + length units) (length (a ++ b)) (omega (arith, h, length-append a b)),
        take-append (length a) a b refl,
        drop-append_past (length units) a b,
      )
      refl

pub read_bytes-inside : (buf : List ℕ) (n : ℕ) → n ≤ length buf → read_bytes buf n ≡ ok (take n buf)
unfolding read_bytes
read_bytes-inside buf n h = rw (le→leb n (length buf) h) refl

pub length-text : (str : Kstr) → str.length' ≤ length str.buffer → length (text str) ≡ str.length'
length-text str h = omega (arith, length-take str.length' str.buffer)

-- A text without `stop`: the search runs to its end.
pub kstr_find_codepoint-none :
    (str : Kstr) (stop : ℕ)
    → IsFree stop (text str)
    → str.length' ≤ length str.buffer
    → kstr_find_codepoint str stop ≡ ok npos
unfolding kstr_find_codepoint
kstr_find_codepoint-none str stop free h =
    let n = str.length' in
    let found : find_from stop str.buffer 0 n ≡ ok n =
      ap₂ (λ b (k : ℕ). find_from stop b 0 k) (sym (take-append-drop n str.buffer))
        (sym (length-text str h))
      ∙ find_from-end stop (text str) (drop n str.buffer) 0 free
      ∙ ap ok (omega (arith, length-text str h)) in
    let all : (n == n) ≡ true = ground arith in rw (found, all) refl
