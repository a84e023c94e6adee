-- ===== src/Common/List/Chain.antt =====
-- The list of addresses that a head and its links stand for, and what a write leaves of it.
use headquarter.Base.{ℕ, ◌≡◌, ◌≢◌, List, [], ◌∷◌, ◌++◌, All, ok, arith}
use headquarter.Common.List.{Links, null, write, load_prev, load_next, store_prev, store_next}

abbrev pub Link : Links → ℕ → ℕ → Type 0
Link s a b = (s.next a ≡ b) × (s.prev b ≡ a)

-- The nodes `a ∷ xs` are linked in this order.
abbrev pub Chain : Links → ℕ → List ℕ → Type 0
Chain s a [] = Unit
Chain s a (x ∷ xs) = Link s a x × Chain s x xs

abbrev pub NotIn : ℕ → List ℕ → Type 0
NotIn p xs = All (λ x. p ≢ x) xs

abbrev pub Distinct : List ℕ → Type 0
Distinct [] = Unit
Distinct (x ∷ xs) = NotIn x xs × Distinct xs

-- `p` is no node of `a ∷ xs`, except the last.
abbrev pub Apart : ℕ → ℕ → List ℕ → Type 0
Apart p a [] = Unit
Apart p a (x ∷ xs) = (p ≢ a) × Apart p x xs

-- The nodes of the list with head `l` are `xs`, in this order.
pub record IsList (s : Links) (l : ℕ) (xs : List ℕ) : Type 0 where
  pub linked : Chain s l (xs ++ (l ∷ []))
  pub distinct : Distinct (null ∷ l ∷ xs)

abbrev pub last : ℕ → List ℕ → ℕ
last a [] = a
last a (x ∷ xs) = last x xs

abbrev pub first : List ℕ → ℕ → ℕ
first [] b = b
first (x ∷ xs) b = x

-- What follows the first of `xs ++ b ∷ []`.
abbrev pub rest : List ℕ → ℕ → List ℕ
rest [] b = []
rest (x ∷ xs) b = xs ++ (b ∷ [])

abbrev pub set_prev : Links → ℕ → ℕ → Links
set_prev s p v = record s { prev = write s.prev p v }

abbrev pub set_next : Links → ℕ → ℕ → Links
set_next s p v = record s { next = write s.next p v }

module _ (s : Links) (p : ℕ) (ne : p ≢ null) where
  pub load_prev-ok : load_prev s p ≡ ok (s.prev p)
  unfolding load_prev
  load_prev-ok = ground arith

  pub load_next-ok : load_next s p ≡ ok (s.next p)
  unfolding load_next
  load_next-ok = ground arith

  pub store_prev-ok : (v : ℕ) → store_prev s p v ≡ ok (set_prev s p v)
  unfolding store_prev
  store_prev-ok v = ground arith

  pub store_next-ok : (v : ℕ) → store_next s p v ≡ ok (set_next s p v)
  unfolding store_next
  store_next-ok v = ground arith

pub write-same : (f : ℕ → ℕ) (p v : ℕ) → write f p v p ≡ v
write-same f p v = ground arith

pub write-other : (f : ℕ → ℕ) (p v q : ℕ) → p ≢ q → write f p v q ≡ f q
write-other f p v q ne = ground arith

pub set_prev-Chain :
    (s : Links) (p v a : ℕ) (xs : List ℕ) → Chain s a xs → NotIn p xs → Chain (set_prev s p v) a xs
set_prev-Chain s p v a [] c n = tt
set_prev-Chain s p v a (x ∷ xs) c n =
    ((c.0.0, rw (write-other s.prev p v x n.0) c.0.1), set_prev-Chain s p v x xs c.1 n.1)

pub set_next-Chain :
    (s : Links) (p v a : ℕ) (xs : List ℕ)
    → Chain s a xs
    → Apart p a xs
    → Chain (set_next s p v) a xs
set_next-Chain s p v a [] c n = tt
set_next-Chain s p v a (x ∷ xs) c n =
    ((rw (write-other s.next p v a n.0) c.0.0, c.0.1), set_next-Chain s p v x xs c.1 n.1)

pub Chain-append :
    (s : Links) (a : ℕ) (xs : List ℕ) (b : ℕ) (ys : List ℕ)
    → Chain s a (xs ++ (b ∷ ys))
    → Chain s a xs × Link s (last a xs) b × Chain s b ys
Chain-append s a [] b ys c = (tt, c.0, c.1)
Chain-append s a (x ∷ xs) b ys c = let (l, m, r) = Chain-append s x xs b ys c.1 in ((c.0, l), m, r)

pub append-Chain :
    (s : Links) (a : ℕ) (xs : List ℕ) (b : ℕ) (ys : List ℕ)
    → Chain s a xs
    → Link s (last a xs) b
    → Chain s b ys
    → Chain s a (xs ++ (b ∷ ys))
append-Chain s a [] b ys c m r = (m, r)
append-Chain s a (x ∷ xs) b ys c m r = (c.0, append-Chain s x xs b ys c.1 m r)
