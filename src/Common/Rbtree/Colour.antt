-- ===== src/Common/Rbtree/Colour.antt =====
-- code/common/rbtree.c: one node's colour changed, where the tree and the frames name the node.
use headquarter.Base.{ℕ, Bool, List, ◌∷◌, arith}
use headquarter.Common.Rbtree.{Side, flip, Nodes}
use headquarter.Common.Rbtree.Tree.{==_self, Tree, join, Frame, count-join, hit_self}
use headquarter.Common.Rbtree.Same.{set_red}
use headquarter.Common.Rbtree.Focus.{At}
use headquarter.Common.Rbtree.Zip.{At-up, At-down}
use headquarter.Common.Rbtree.Paint.{paint-join, paint-none, At-paint}
use headquarter.Common.Rbtree.Order.{join-flip}

module _ (s : Nodes) (sent root above : ℕ) (v : Bool) where
  pub colour-top :
      (fs : List Frame) (d : Side) (c : Bool) (a : Tree) (p : ℕ) (b : Tree)
      → At s sent root above fs (join d c a p b)
      → At (set_red s p v) sent root above fs (join d v a p b)
  colour-top fs d c a p b here =
      let n = here.clear.once p in
      let k = count-join p d c a p b in
      rw
        (
          paint-join p v d c a p b,
          ==_self p,
          paint-none p v a (omega (arith, n, k, hit_self p)),
          paint-none p v b (omega (arith, n, k, hit_self p)),
        )
        at
        (At-paint p v s sent root above fs (join d c a p b) (omega (arith, n, k, hit_self p)) here)

  -- The child on the side `d`.
  pub colour-near :
      (fs : List Frame) (d e : Side) (c cp : Bool) (a b u : Tree) (p g : ℕ)
      → At s sent root above fs (join d c (join e cp a p b) g u)
      → At (set_red s p v) sent root above fs (join d c (join e v a p b) g u)
  colour-near fs d e c cp a b u p g here =
      let f : Frame = record { side = d; colour = c; at = g; sibling = u } in
      At-up (set_red s p v) sent root above f fs (join e v a p b)
        (colour-top (f ∷ fs) e cp a p b (At-down s sent root above f fs (join e cp a p b) here))

  -- The other child.
  pub colour-far :
      (fs : List Frame) (d e : Side) (c cu : Bool) (x a b : Tree) (u g : ℕ)
      → At s sent root above fs (join d c x g (join e cu a u b))
      → At (set_red s u v) sent root above fs (join d c x g (join e v a u b))
  colour-far fs d e c cu x a b u g here =
      rw (join-flip d c (join e v a u b) g x) at
        (colour-near fs (flip d) e c cu a b x u g (rw (join-flip d c (join e cu a u b) g x) here))
