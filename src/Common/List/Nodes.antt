-- ===== src/Common/List/Nodes.antt =====
-- Addresses that differ, for lists that are cut in two and joined.
use headquarter.Base.{ℕ, ◌≡◌, ◌≢◌, refl, sym, List, [], ◌∷◌, ◌++◌, All}
use headquarter.Common.List.Chain.{NotIn, Distinct, Apart, last, first, rest}

module _ {A : Type 0} (P : A → Type 0) where
  pub All-append : (xs ys : List A) → All P xs → All P ys → All P (xs ++ ys)
  All-append [] ys h k = k
  All-append (x ∷ xs) ys h k = (h.0, All-append xs ys h.1 k)

  pub All-left : (xs ys : List A) → All P (xs ++ ys) → All P xs
  All-left [] ys h = tt
  All-left (x ∷ xs) ys h = (h.0, All-left xs ys h.1)

  pub All-right : (xs ys : List A) → All P (xs ++ ys) → All P ys
  All-right [] ys h = h
  All-right (x ∷ xs) ys h = All-right xs ys h.1

pub All-map :
    {A : Type 0} (P Q : A → Type 0) → ((x : A) → P x → Q x) → (xs : List A) → All P xs → All Q xs
All-map P Q f [] h = tt
All-map P Q f (x ∷ xs) h = (f x h.0, All-map P Q f xs h.1)

module _ (P : ℕ → Type 0) where
  pub All-last : (a : ℕ) (xs : List ℕ) → P a → All P xs → P (last a xs)
  All-last a [] h k = h
  All-last a (x ∷ xs) h k = All-last x xs k.0 k.1

  pub All-first : (ys : List ℕ) (b : ℕ) → All P ys → P b → P (first ys b)
  All-first [] b h k = k
  All-first (y ∷ ys) b h k = h.0

pub ne-sym : {p q : ℕ} → p ≢ q → q ≢ p
ne-sym n e = n (sym e)

NotIn-flip : (x : ℕ) (ys : List ℕ) → NotIn x ys → All (λ y. y ≢ x) ys
NotIn-flip x [] n = tt
NotIn-flip x (y ∷ ys) n = (ne-sym n.0, NotIn-flip x ys n.1)

pub Distinct-left : (xs ys : List ℕ) → Distinct (xs ++ ys) → Distinct xs
Distinct-left [] ys d = tt
Distinct-left (x ∷ xs) ys d = (All-left _ xs ys d.0, Distinct-left xs ys d.1)

pub Distinct-right : (xs ys : List ℕ) → Distinct (xs ++ ys) → Distinct ys
Distinct-right [] ys d = d
Distinct-right (x ∷ xs) ys d = Distinct-right xs ys d.1

-- No node on the left is one on the right.
pub Distinct-across : (xs ys : List ℕ) → Distinct (xs ++ ys) → All (λ x. NotIn x ys) xs
Distinct-across [] ys d = tt
Distinct-across (x ∷ xs) ys d = (All-right _ xs ys d.0, Distinct-across xs ys d.1)

All-NotIn-nil : (ys : List ℕ) → All (λ y. NotIn y []) ys
All-NotIn-nil [] = tt
All-NotIn-nil (y ∷ ys) = (tt, All-NotIn-nil ys)

All-NotIn-cons :
    (x : ℕ) (xs ys : List ℕ)
    → All (λ y. y ≢ x) ys
    → All (λ y. NotIn y xs) ys
    → All (λ y. NotIn y (x ∷ xs)) ys
All-NotIn-cons x xs [] h k = tt
All-NotIn-cons x xs (y ∷ ys) h k = ((h.0, k.0), All-NotIn-cons x xs ys h.1 k.1)

pub Distinct-back : (xs ys : List ℕ) → Distinct (xs ++ ys) → All (λ y. NotIn y xs) ys
Distinct-back [] ys d = All-NotIn-nil ys
Distinct-back (x ∷ xs) ys d =
    All-NotIn-cons x xs ys (NotIn-flip x ys (All-right _ xs ys d.0)) (Distinct-back xs ys d.1)

NotIn-insert : (x p : ℕ) (xs ys : List ℕ) → x ≢ p → NotIn x (xs ++ ys) → NotIn x (xs ++ (p ∷ ys))
NotIn-insert x p [] ys n h = (n, h)
NotIn-insert x p (z ∷ xs) ys n h = (h.0, NotIn-insert x p xs ys n h.1)

pub Distinct-insert :
    (p : ℕ) (xs ys : List ℕ) → NotIn p (xs ++ ys) → Distinct (xs ++ ys) → Distinct (xs ++ (p ∷ ys))
Distinct-insert p [] ys n d = (n, d)
Distinct-insert p (x ∷ xs) ys n d =
    (NotIn-insert x p xs ys (ne-sym n.0) d.0, Distinct-insert p xs ys n.1 d.1)

NotIn-remove : (x p : ℕ) (xs ys : List ℕ) → NotIn x (xs ++ (p ∷ ys)) → NotIn x (xs ++ ys)
NotIn-remove x p [] ys h = h.1
NotIn-remove x p (z ∷ xs) ys h = (h.0, NotIn-remove x p xs ys h.1)

pub Distinct-remove : (p : ℕ) (xs ys : List ℕ) → Distinct (xs ++ (p ∷ ys)) → Distinct (xs ++ ys)
Distinct-remove p [] ys d = d.1
Distinct-remove p (x ∷ xs) ys d = (NotIn-remove x p xs ys d.0, Distinct-remove p xs ys d.1)

pub Apart-NotIn : (p a : ℕ) (xs : List ℕ) → p ≢ a → NotIn p xs → Apart p a xs
Apart-NotIn p a [] n h = tt
Apart-NotIn p a (x ∷ xs) n h = (n, Apart-NotIn p x xs h.0 h.1)

pub Apart-last : (a : ℕ) (xs : List ℕ) → Distinct (a ∷ xs) → Apart (last a xs) a xs
Apart-last a [] d = tt
Apart-last a (x ∷ xs) d = (ne-sym (All-last (λ q. a ≢ q) x xs d.0.0 d.0.1), Apart-last x xs d.1)

pub Apart-snoc : (p a b : ℕ) (ys : List ℕ) → p ≢ a → NotIn p ys → Apart p a (ys ++ (b ∷ []))
Apart-snoc p a b [] n h = (n, tt)
Apart-snoc p a b (y ∷ ys) n h = (n, Apart-snoc p y b ys h.0 h.1)

pub Apart-rest : (p b : ℕ) (ys : List ℕ) → NotIn p ys → Apart p (first ys b) (rest ys b)
Apart-rest p b [] h = tt
Apart-rest p b (y ∷ ys) h = Apart-snoc p y b ys h.0 h.1

pub NotIn-rest : (p b : ℕ) (ys : List ℕ) → p ≢ b → NotIn p ys → NotIn p (rest ys b)
NotIn-rest p b [] n h = tt
NotIn-rest p b (y ∷ ys) n h = All-append _ ys (b ∷ []) h.1 (n, tt)

pub NotIn-first : (b : ℕ) (ys : List ℕ) → Distinct (b ∷ ys) → NotIn (first ys b) (rest ys b)
NotIn-first b [] d = tt
NotIn-first b (y ∷ ys) d = All-append _ ys (b ∷ []) d.1.0 (ne-sym d.0.0, tt)

pub first-rest : (ys : List ℕ) (b : ℕ) → ys ++ (b ∷ []) ≡ first ys b ∷ rest ys b
first-rest [] b = refl
first-rest (y ∷ ys) b = refl
