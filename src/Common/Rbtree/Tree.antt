-- ===== src/Common/Rbtree/Tree.antt =====
-- code/common/rbtree.c: the trees that the nodes in memory stand for, cut at any place into the part
-- above, a list of frames from that place up to the root, and the part below.
use headquarter.Base.{
  ℕ, ◌+◌, ◌<◌, ◌≤◌, ◌≡◌, refl, sym, ap, ◌∙◌, Bool, true, false, ◌==◌, ==_iff, if◌then◌else◌,
  Bool-cases, inl, inr, List, [], ◌∷◌, arith,
}
use headquarter.Common.Rbtree.{Side, left, right, flip, Nodes}

pub data Tree : Type 0 where
  leaf : Tree
  node : Bool → Tree → ℕ → Tree → Tree

-- The tree with `near` on the given side and `far` on the other.
abbrev pub join : Side → Bool → Tree → ℕ → Tree → Tree
join left c near p far = node c near p far
join right c near p far = node c far p near

-- The address of the root; the sentinel's for the empty tree.
abbrev pub top : ℕ → Tree → ℕ
top sent leaf = sent
top sent (node c l p r) = p

pub record Frame : Type 0 where
  pub side : Side
  pub colour : Bool
  pub at : ℕ
  pub sibling : Tree

abbrev pub plug : List Frame → Tree → Tree
plug [] t = t
plug (f ∷ fs) t = plug fs (join f.side f.colour t f.at f.sibling)

abbrev pub hit : ℕ → ℕ → ℕ
hit q p = if q == p then 1 else 0

-- How often a tree, or the part above, holds an address.
unfoldable pub count : ℕ → Tree → ℕ
count q leaf = 0
count q (node c l p r) = hit q p + count q l + count q r

unfoldable pub count_above : ℕ → List Frame → ℕ
count_above q [] = 0
count_above q (f ∷ fs) = hit q f.at + count q f.sibling + count_above q fs

-- The parent of the root below the frames, where `above` is the parent of the whole tree's root.
abbrev pub up : ℕ → List Frame → ℕ
up above [] = above
up above (f ∷ fs) = f.at

-- The fields of one node.
abbrev pub Cell : Nodes → ℕ → Bool → ℕ → ℕ → ℕ → Type 0
Cell s p c par l r =
    (s.parent p ≡ par) × (s.red p ≡ c) × (s.child left p ≡ l) × (s.child right p ≡ r)

-- The nodes in memory are the tree.
abbrev pub Rep : Nodes → ℕ → ℕ → Tree → Type 0
Rep s sent par leaf = Unit
Rep s sent par (node c l p r) =
    Cell s p c par (top sent l) (top sent r) × Rep s sent p l × Rep s sent p r

-- The nodes in memory are the frames around a tree whose root is at `p`.
abbrev pub RepAbove : Nodes → ℕ → ℕ → ℕ → ℕ → List Frame → Type 0
RepAbove s sent root above p [] = root ≡ p
RepAbove s sent root above p (f ∷ fs) =
    (s.parent f.at ≡ up above fs)
    × (s.red f.at ≡ f.colour)
    × (s.child f.side f.at ≡ p)
    × (s.child (flip f.side) f.at ≡ top sent f.sibling)
    × Rep s sent f.at f.sibling
    × RepAbove s sent root above f.at fs

abbrev pub Same : Nodes → Nodes → ℕ → Type 0
Same s s' q =
    ((side : Side) → s'.child side q ≡ s.child side q)
    × (s'.parent q ≡ s.parent q)
    × (s'.red q ≡ s.red q)

pub ==_self : (p : ℕ) → (p == p) ≡ true
==_self p = (==_iff p p).1 refl

pub hit_self : (p : ℕ) → hit p p ≡ 1
hit_self p = rw (==_self p) refl

pub hit_le : (q p : ℕ) → hit q p ≤ 1
hit_le q p = ground arith

pub hit-zero : (q p : ℕ) → hit q p ≡ 0 → (q == p) ≡ false
hit-zero q p h = elim (Bool-cases (q == p)) [ inl e ↦ absurd-hit e | inr e ↦ e ]
  where
    absurd-hit : (q == p) ≡ true → (q == p) ≡ false
    absurd-hit e = ground (arith, h, e)

-- The same with the addresses the other way.
pub hit-away : (q p : ℕ) → hit q p ≡ 0 → (p == q) ≡ false
hit-away q p h = elim (Bool-cases (p == q)) [
  | inl e ↦ ground (arith, h, (==_iff p q).0 e, hit_self q)
  | inr e ↦ e
]

pub hit-ne : (q p : ℕ) → (p == q) ≡ false → hit q p ≡ 0
hit-ne q p h = elim (Bool-cases (q == p)) [
  | inl e ↦ let bad : true ≡ false = sym (==_self p) ∙ (rw ((==_iff q p).0 e) at h) in cc
  | inr e ↦ rw e refl
]

-- A function that is zero at one address and not at another tells them apart.
pub tell_apart : (f : ℕ → ℕ) (w q : ℕ) → f w ≡ 0 → 0 < f q → (q == w) ≡ false
tell_apart f w q z k = elim (Bool-cases (q == w)) [
  | inl e ↦ ground (arith, z, k, ap f ((==_iff q w).0 e))
  | inr e ↦ e
]

pub top-away :
    (sent q : ℕ) (t : Tree) → (q == sent) ≡ false → count q t ≡ 0 → (q == top sent t) ≡ false
unfolding count
top-away sent q leaf n z = n
top-away sent q (node c l p r) n z = hit-zero q p (omega (arith, z))

pub count-join :
    (q : ℕ) (side : Side) (c : Bool) (a : Tree) (p : ℕ) (b : Tree)
    → count q (join side c a p b) ≡ hit q p + count q a + count q b
unfolding count
count-join q left c a p b = refl
count-join q right c a p b = omega arith

pub count-plug :
    (q : ℕ) (fs : List Frame) (t : Tree) → count q (plug fs t) ≡ count_above q fs + count q t
unfolding count_above
count-plug q [] t = omega arith
count-plug q (f ∷ fs) t = omega (
  arith,
  count-plug q fs (join f.side f.colour t f.at f.sibling),
  count-join q f.side f.colour t f.at f.sibling,
)

module _ (s : Nodes) (sent : ℕ) where
  pub Rep-join :
      (side : Side) (c : Bool) (a : Tree) (p : ℕ) (b : Tree) (par : ℕ)
      → (s.parent p ≡ par)
      → (s.red p ≡ c)
      → (s.child side p ≡ top sent a)
      → (s.child (flip side) p ≡ top sent b)
      → Rep s sent p a
      → Rep s sent p b
      → Rep s sent par (join side c a p b)
  Rep-join left c a p b par h1 h2 h3 h4 ra rb = ((h1, h2, h3, h4), ra, rb)
  Rep-join right c a p b par h1 h2 h3 h4 ra rb = ((h1, h2, h4, h3), rb, ra)

  pub join-Rep :
      (side : Side) (c : Bool) (a : Tree) (p : ℕ) (b : Tree) (par : ℕ)
      → Rep s sent par (join side c a p b)
      → (s.parent p ≡ par)
        × (s.red p ≡ c)
        × (s.child side p ≡ top sent a)
        × (s.child (flip side) p ≡ top sent b)
        × Rep s sent p a
        × Rep s sent p b
  join-Rep left c a p b par ((h1, h2, h3, h4), ra, rb) = (h1, h2, h3, h4, ra, rb)
  join-Rep right c a p b par ((h1, h2, h3, h4), ra, rb) = (h1, h2, h4, h3, rb, ra)

pub top-join :
    (sent : ℕ) (side : Side) (c : Bool) (a : Tree) (p : ℕ) (b : Tree)
    → top sent (join side c a p b) ≡ p
top-join sent left c a p b = refl
top-join sent right c a p b = refl
