-- ===== src/Common/Rbtree/Shape.antt =====
-- code/common/rbtree.c: what makes a tree a red-black tree, whole and around a hole, and how deep that
-- lets it be.
use headquarter.Base.{
  ℕ, suc, ◌+◌, ◌*◌, ◌^◌, ◌≤◌, ◌≡◌, refl, sym, ap, Bool, true, false, ◌&&◌, if◌then◌else◌, List, [],
  ◌∷◌, max, arith,
}
use native.Mathlib.Nat.{pow-suc}
use headquarter.Common.Rbtree.{Side, left, right}
use headquarter.Common.Rbtree.Tree.{Tree, leaf, node, join, Frame, plug}

abbrev pub is_red : Tree → Bool
is_red leaf = false
is_red (node c l p r) = c

-- The black nodes on the way down the left side.
unfoldable pub black_height : Tree → ℕ
black_height leaf = 0
black_height (node c l p r) = if c then black_height l else suc (black_height l)

-- Every way down passes as many black nodes, and no red node has a red child.
abbrev pub RedBlack : Tree → Type 0
RedBlack leaf = Unit
RedBlack (node c l p r) =
    (black_height l ≡ black_height r)
    × ((c && is_red l) ≡ false)
    × ((c && is_red r) ≡ false)
    × RedBlack l
    × RedBlack r

-- Whether a red tree is wrong there: the lowest frame is red, or there is none.
abbrev pub red_above : List Frame → Bool
red_above [] = true
red_above (f ∷ fs) = f.colour

-- The same of the part above a tree of black height `n`.
abbrev pub RedBlackAbove : ℕ → List Frame → Type 0
RedBlackAbove n [] = Unit
RedBlackAbove n (f ∷ fs) =
    (n ≡ black_height f.sibling)
    × ((f.colour && is_red f.sibling) ≡ false)
    × ((f.colour && red_above fs) ≡ false)
    × RedBlack f.sibling
    × RedBlackAbove (if f.colour then n else suc n) fs

pub RedBlack-join :
    (side : Side) (c : Bool) (a : Tree) (p : ℕ) (b : Tree)
    → black_height a ≡ black_height b
    → (c && is_red a) ≡ false
    → (c && is_red b) ≡ false
    → RedBlack a
    → RedBlack b
    → RedBlack (join side c a p b)
RedBlack-join left c a p b e ra rb ha hb = (e, ra, rb, ha, hb)
RedBlack-join right c a p b e ra rb ha hb = (sym e, rb, ra, hb, ha)

pub join-RedBlack :
    (side : Side) (c : Bool) (a : Tree) (p : ℕ) (b : Tree)
    → RedBlack (join side c a p b)
    → (black_height a ≡ black_height b)
      × ((c && is_red a) ≡ false)
      × ((c && is_red b) ≡ false)
      × RedBlack a
      × RedBlack b
join-RedBlack left c a p b h = h
join-RedBlack right c a p b h = (sym h.0, h.2, h.1, h.4, h.3)

pub black_height-join :
    (side : Side) (c : Bool) (a : Tree) (p : ℕ) (b : Tree)
    → black_height a ≡ black_height b
    → black_height (join side c a p b) ≡ (if c then black_height a else suc (black_height a))
unfolding black_height
black_height-join left c a p b e = refl
black_height-join right c a p b e = rw e refl

pub is_red-join :
    (side : Side) (c : Bool) (a : Tree) (p : ℕ) (b : Tree) → is_red (join side c a p b) ≡ c
is_red-join left c a p b = refl
is_red-join right c a p b = refl

pub and_flip : (a b : Bool) → (a && b) ≡ false → (b && a) ≡ false
and_flip true b h = rw h refl
and_flip false true h = refl
and_flip false false h = refl

pub RedBlack-plug :
    (fs : List Frame) (t : Tree)
    → RedBlackAbove (black_height t) fs
    → RedBlack t
    → (is_red t && red_above fs) ≡ false
    → RedBlack (plug fs t)
RedBlack-plug [] t h r k = r
RedBlack-plug (f ∷ fs) t (h1, h2, h3, h4, h5) r k =
    RedBlack-plug fs (join f.side f.colour t f.at f.sibling)
      (rw (black_height-join f.side f.colour t f.at f.sibling h1) h5)
      (RedBlack-join f.side f.colour t f.at f.sibling h1 (and_flip (is_red t) f.colour k) h2 r h4)
      (rw (is_red-join f.side f.colour t f.at f.sibling) h3)

-- The steps of the longest way down.
unfoldable pub depth : Tree → ℕ
depth leaf = 0
depth (node c l p r) = suc (max (depth l) (depth r))

unfoldable pub size : Tree → ℕ
size leaf = 0
size (node c l p r) = suc (size l + size r)

bit-le : (b : Bool) → (if b then 1 else 0) ≤ 1
bit-le true = omega arith
bit-le false = omega arith

pub depth-le : (t : Tree) → RedBlack t → depth t ≤ 2 * black_height t + (if is_red t then 1 else 0)
unfolding depth black_height
depth-le leaf h = omega arith
depth-le (node true l p r) (h1, h2, h3, h4, h5) =
    let dl = rw h2 at (depth-le l h4) in
    let dr = rw h3 at (depth-le r h5) in omega (arith, dl, dr, h1)
depth-le (node false l p r) (h1, h2, h3, h4, h5) =
    omega (arith, depth-le l h4, depth-le r h5, h1, bit-le (is_red l), bit-le (is_red r))

pub size-ge : (t : Tree) → RedBlack t → 2 ^ black_height t ≤ suc (size t)
unfolding size black_height
size-ge leaf h = omega arith
size-ge (node true l p r) (h1, h2, h3, h4, h5) = omega (arith, size-ge l h4)
size-ge (node false l p r) (h1, h2, h3, h4, h5) =
    omega (arith, size-ge l h4, size-ge r h5, ap (λ n. 2 ^ n) h1, pow-suc 2 (black_height l))
