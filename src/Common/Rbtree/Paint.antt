-- ===== src/Common/Rbtree/Paint.antt =====
-- code/common/rbtree.c: the trees after a write of one node's colour.
use headquarter.Base.{ℕ, ◌≡◌, refl, Bool, List, ◌==◌, if◌then◌else◌, arith}
use headquarter.Common.Rbtree.{Side, left, right, Nodes}
use headquarter.Common.Rbtree.Tree.{
  Tree, leaf, node, join, Frame, count, count_above, hit-away, Rep, tell_apart, top, up,
}
use headquarter.Common.Rbtree.Same.{set_red, set_red-Same, RepAbove-Same}
use headquarter.Common.Rbtree.Focus.{At}
use headquarter.Common.Rbtree.Zip.{Clear-le}

-- `t` with the node at `w` in the colour `v`.
unfoldable pub paint : ℕ → Bool → Tree → Tree
paint w v leaf = leaf
paint w v (node c l p r) = node (if p == w then v else c) (paint w v l) p (paint w v r)

module _ (w : ℕ) (v : Bool) where
  pub paint-join :
      (side : Side) (c : Bool) (a : Tree) (p : ℕ) (b : Tree)
      → paint w v (join side c a p b)
        ≡ join side (if p == w then v else c) (paint w v a) p (paint w v b)
  unfolding paint
  paint-join left c a p b = refl
  paint-join right c a p b = refl

  pub paint-none : (t : Tree) → count w t ≡ 0 → paint w v t ≡ t
  unfolding paint count
  paint-none leaf h = refl
  paint-none (node c l p r) h =
      rw
        (
          hit-away w p (omega (arith, h)),
          paint-none l (omega (arith, h)),
          paint-none r (omega (arith, h)),
        )
        refl

  count-paint : (q : ℕ) (t : Tree) → count q (paint w v t) ≡ count q t
  unfolding paint count
  count-paint q leaf = refl
  count-paint q (node c l p r) = omega (arith, count-paint q l, count-paint q r)

  top-paint : (sent : ℕ) (t : Tree) → top sent (paint w v t) ≡ top sent t
  unfolding paint
  top-paint sent leaf = refl
  top-paint sent (node c l p r) = refl

  Rep-paint :
      (s : Nodes) (sent par : ℕ) (t : Tree)
      → Rep s sent par t
      → Rep (set_red s w v) sent par (paint w v t)
  unfolding paint
  Rep-paint s sent par leaf r = tt
  Rep-paint s sent par (node c l p t) ((h1, h2, h3, h4), rl, rr) = (
    (h1, rw h2 refl, rw (top-paint sent l) h3, rw (top-paint sent t) h4),
    Rep-paint s sent p l rl,
    Rep-paint s sent p t rr,
  )

  pub At-paint :
      (s : Nodes) (sent root above : ℕ) (fs : List Frame) (t : Tree)
      → count_above w fs ≡ 0
      → At s sent root above fs t
      → At (set_red s w v) sent root above fs (paint w v t)
  At-paint s sent root above fs t h here = record {
    rep_above = rw (top-paint sent t) (
        RepAbove-Same s (set_red s w v) sent root above (top sent t) fs
          (λ q k. set_red-Same s w q v (tell_apart (λ x. count_above x fs) w q h k))
          here.rep_above);
    rep = Rep-paint s sent (up above fs) t here.rep;
    clear = Clear-le sent _ _ (λ q. omega (arith, count-paint q t)) here.clear;
  }
