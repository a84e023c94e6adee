-- ===== src/Common/Rbtree/Order.antt =====
-- code/common/rbtree.c: the nodes of a tree in the order of their keys, and the place of a new one.
use headquarter.Base.{
  ℕ, ◌≤◌, ◌≡◌, refl, sym, Bool, true, false, ltb, ltb→lt, if◌then◌else◌, Bool-cases, inl, inr, List,
  [], ◌∷◌, ◌++◌, append_assoc, All, arith,
}
use headquarter.Common.Rbtree.{Side, left, right, flip}
use headquarter.Common.Rbtree.Tree.{Tree, leaf, node, join, Frame, plug}
use headquarter.Common.List.Nodes.{All-left, All-right, All-map}

unfoldable pub flatten : Tree → List ℕ
flatten leaf = []
flatten (node c l p r) = flatten l ++ p ∷ flatten r

pub flatten-join :
    (side : Side) (c : Bool) (a a' : Tree) (p : ℕ) (b : Tree)
    → flatten a ≡ flatten a'
    → flatten (join side c a p b) ≡ flatten (join side c a' p b)
unfolding flatten
flatten-join left c a a' p b e = rw e refl
flatten-join right c a a' p b e = rw e refl

pub flatten-plug :
    (fs : List Frame) (t t' : Tree)
    → flatten t ≡ flatten t'
    → flatten (plug fs t) ≡ flatten (plug fs t')
flatten-plug [] t t' e = e
flatten-plug (f ∷ fs) t t' e =
    flatten-plug fs _ _ (flatten-join f.side f.colour t t' f.at f.sibling e)

-- What a rotation keeps.
pub flatten-rotated :
    (side : Side) (cp cq cp' cq' : Bool) (a b c : Tree) (p q : ℕ)
    → flatten (join side cq (join side cp a p b) q c)
      ≡ flatten (join side cp' a p (join side cq' b q c))
unfolding flatten
flatten-rotated left cp cq cp' cq' a b c p q =
    append_assoc (flatten a) (p ∷ flatten b) (q ∷ flatten c)
flatten-rotated right cp cq cp' cq' a b c p q =
    sym (append_assoc (flatten c) (q ∷ flatten b) (p ∷ flatten a))

pub flatten-colour :
    (side : Side) (c c' : Bool) (a : Tree) (p : ℕ) (b : Tree)
    → flatten (join side c a p b) ≡ flatten (join side c' a p b)
unfolding flatten
flatten-colour left c c' a p b = refl
flatten-colour right c c' a p b = refl

pub join-flip :
    (side : Side) (c : Bool) (a : Tree) (p : ℕ) (b : Tree)
    → join (flip side) c a p b ≡ join side c b p a
join-flip left c a p b = refl
join-flip right c a p b = refl

module _ (key : ℕ → ℕ) where
  -- No key is above one that comes later.
  abbrev pub Sorted : List ℕ → Type 0
  Sorted [] = Unit
  Sorted (p ∷ ps) = All (λ q. key p ≤ key q) ps × Sorted ps

  -- `n` in front of the first key above its own, behind all that are equal.
  abbrev pub place : ℕ → List ℕ → List ℕ
  place n [] = n ∷ []
  place n (p ∷ ps) = if ltb (key n) (key p) then n ∷ p ∷ ps else p ∷ place n ps

  -- The same at the bottom of a tree.
  unfoldable pub insert_leaf : ℕ → Tree → Tree
  insert_leaf n leaf = node true leaf n leaf
  insert_leaf n (node c l p r) =
      if ltb (key n) (key p) then node c (insert_leaf n l) p r else node c l p (insert_leaf n r)

  Sorted-left : (ps qs : List ℕ) → Sorted (ps ++ qs) → Sorted ps
  Sorted-left [] qs h = tt
  Sorted-left (p ∷ ps) qs h = (All-left _ ps qs h.0, Sorted-left ps qs h.1)

  Sorted-right : (ps qs : List ℕ) → Sorted (ps ++ qs) → Sorted qs
  Sorted-right [] qs h = h
  Sorted-right (p ∷ ps) qs h = Sorted-right ps qs h.1

  Sorted-below : (ps qs : List ℕ) (q : ℕ) → Sorted (ps ++ q ∷ qs) → All (λ p. key p ≤ key q) ps
  Sorted-below [] qs q h = tt
  Sorted-below (p ∷ ps) qs q h = ((All-right _ ps (q ∷ qs) h.0).0, Sorted-below ps qs q h.1)

  place-left :
      (n : ℕ) (ps qs : List ℕ) (q : ℕ)
      → ltb (key n) (key q) ≡ true
      → place n (ps ++ q ∷ qs) ≡ place n ps ++ q ∷ qs
  place-left n [] qs q e = rw e refl
  place-left n (p ∷ ps) qs q e = elim (Bool-cases (ltb (key n) (key p))) [
    | inl h ↦ rw h refl
    | inr h ↦ rw (h, place-left n ps qs q e) refl
  ]

  place-right :
      (n : ℕ) (ps qs : List ℕ) (q : ℕ)
      → Sorted (ps ++ q ∷ qs)
      → ltb (key n) (key q) ≡ false
      → place n (ps ++ q ∷ qs) ≡ ps ++ q ∷ place n qs
  place-right n [] qs q h e = rw e refl
  place-right n (p ∷ ps) qs q h e =
      let le = (Sorted-below (p ∷ ps) qs q h).0 in rw (below p le, place-right n ps qs q h.1 e) refl
    where
      below : (p : ℕ) → key p ≤ key q → ltb (key n) (key p) ≡ false
      below p le = ground (arith, le, e)

  pub flatten-insert_leaf :
      (n : ℕ) (t : Tree) → Sorted (flatten t) → flatten (insert_leaf n t) ≡ place n (flatten t)
  unfolding flatten insert_leaf
  flatten-insert_leaf n leaf h = refl
  flatten-insert_leaf n (node c l p r) h = elim (Bool-cases (ltb (key n) (key p))) [
    | inl e ↦
        rw
          (
            e,
            place-left n (flatten l) (flatten r) p e,
            flatten-insert_leaf n l (Sorted-left (flatten l) (p ∷ flatten r) h),
          )
          refl
    | inr e ↦
        rw
          (
            e,
            place-right n (flatten l) (flatten r) p h e,
            flatten-insert_leaf n r ((Sorted-right (flatten l) (p ∷ flatten r) h).1),
          )
          refl
  ]

  All-place : (P : ℕ → Type 0) (n : ℕ) (ps : List ℕ) → P n → All P ps → All P (place n ps)
  All-place P n [] h k = (h, tt)
  All-place P n (p ∷ ps) h k = elim (Bool-cases (ltb (key n) (key p))) [
    | inl e ↦ rw e (h, k)
    | inr e ↦ rw e (k.0, All-place P n ps h k.1)
  ]

  -- A new node in its place leaves the order.
  pub place-Sorted : (n : ℕ) (ps : List ℕ) → Sorted ps → Sorted (place n ps)
  place-Sorted n [] h = (tt, tt)
  place-Sorted n (p ∷ ps) h = elim (Bool-cases (ltb (key n) (key p))) [
    | inl e ↦
        let lt = ltb→lt (key n) (key p) e in
        rw e ((omega (arith, lt), All-map _ _ (λ q k. omega (arith, lt, k)) ps h.0), h)
    | inr e ↦
        rw e (All-place (λ q. key p ≤ key q) n ps (ground (arith, e)) h.0, place-Sorted n ps h.1)
  ]
