-- ===== src/Common/Rbtree/Turn.antt =====
-- code/common/rbtree.c: where the loop of rbtree_insert ends after a rotation.
use headquarter.Base.{ℕ, suc, ◌≡◌, refl, sym, ap, ◌∙◌, Bool, true, false, List, Outcome, ◌>>=◌}
use headquarter.Common.Rbtree.{Side, flip, Nodes, insert_loop}
use headquarter.Common.Rbtree.Tree.{Tree, join, Frame, plug}
use headquarter.Common.Rbtree.Zip.{At-down, At-plug}
use headquarter.Common.Rbtree.Loop.{Settled, stopped}
use headquarter.Common.Rbtree.Restore.{Round}
use headquarter.Common.Rbtree.Shape.{
  is_red, black_height, RedBlack, RedBlackAbove, RedBlack-join, join-RedBlack, black_height-join,
  is_red-join, RedBlack-plug,
}
use headquarter.Common.Rbtree.Order.{
  flatten, flatten-join, flatten-plug, flatten-rotated, join-flip,
}

-- The part of a round's result that does not depend on the case.
module _ (s : Nodes) (sent above : ℕ) (gs : List Frame) (d : Side) (p g : ℕ) (b u : Tree)
    (cg : Bool) (e : Side) (l r : Tree) (x : ℕ) (n : ℕ) (shape : RedBlack (join e true l x r))
    (same_b : black_height (join e true l x r) ≡ black_height b) (b_black : is_red b ≡ false)
    (b_shape : RedBlack b) (same_u : black_height (join e true l x r) ≡ black_height u)
    (u_shape : RedBlack u) (outside : RedBlackAbove (suc (black_height (join e true l x r))) gs)
    (black : s.red sent ≡ false) where
  abbrev pub t : Tree
  t = join e true l x r

  abbrev pub Start : Side → Tree
  Start f = join d cg (join f true t p b) g u

  abbrev pub go_on : Outcome (Nodes × ℕ × ℕ) → Outcome (Nodes × ℕ)
  go_on o = o >>= (λ (s', root', node'). insert_loop (suc n) s' root' sent node')

  pub outer_ends :
      (o : Outcome (Nodes × ℕ × ℕ))
      → is_red u ≡ false
      → Round s sent above o gs (join d false t p (join d true b g u)) x
      → Settled s sent above (go_on o) (plug gs (Start d))
  outer_ends o u_black end =
      let low : Tree = join d true b g u in
      let f : Frame = record { side = d; colour = false; at = p; sibling = low } in
      let same_low = same_b ∙ sym (black_height-join d true b g u (sym same_b ∙ same_u)) in
      let whole =
        RedBlack-join d false t p low same_low refl refl shape
          (RedBlack-join d true b g u (sym same_b ∙ same_u) b_black u_black b_shape u_shape) in
      let below = At-down end.nodes sent end.new_root above f gs t end.here in
      record {
        nodes = end.nodes;
        new_root = end.new_root;
        tree = plug gs (join d false t p low);
        run =
            ap go_on end.run ∙ stopped end.nodes sent end.new_root above f gs e l r x n below refl;
        here = At-plug end.nodes sent end.new_root above gs (join d false t p low) end.here;
        shape =
            RedBlack-plug gs (join d false t p low)
              (rw (black_height-join d false t p low same_low) outside) whole
              (rw (is_red-join d false t p low) refl);
        order = flatten-plug gs _ _ (sym (flatten-rotated d true cg false true t b u p g));
        keys = end.keys;
        black = (end.same sent end.here.clear.no_sent).2 ∙ black;
      }

  pub inner_ends :
      (o : Outcome (Nodes × ℕ × ℕ))
      → e ≡ d
      → is_red u ≡ false
      → Round s sent above o gs (join d false (join d true b p l) x (join d true r g u)) p
      → Settled s sent above (go_on o) (plug gs (Start (flip d)))
  inner_ends o ed u_black end =
      let parts = join-RedBlack e true l x r shape in
      let lh : black_height b ≡ black_height l =
        sym same_b ∙ black_height-join e true l x r parts.0 in
      let rh : black_height r ≡ black_height u =
        sym (black_height-join e true l x r parts.0 ∙ parts.0) ∙ same_u in
      let near : Tree = join d true b p l in
      let low : Tree = join d true r g u in
      let f : Frame = record { side = d; colour = false; at = x; sibling = low } in
      let near_h : black_height near ≡ black_height b = black_height-join d true b p l lh in
      let low_h : black_height low ≡ black_height r = black_height-join d true r g u rh in
      let same_low : black_height near ≡ black_height low = near_h ∙ lh ∙ parts.0 ∙ sym low_h in
      let whole =
        RedBlack-join d false near x low same_low refl refl
          (RedBlack-join d true b p l lh b_black parts.1 b_shape parts.3)
          (RedBlack-join d true r g u rh parts.2 u_black parts.4 u_shape) in
      let below = At-down end.nodes sent end.new_root above f gs near end.here in
      let order : flatten (join d false near x low) ≡ flatten (Start (flip d)) = sym (
        flatten-join d cg (join (flip d) true t p b) (join d true (join d true b p l) x r) g u (
          ap flatten (join-flip d true t p b)
          ∙ (rw ed (sym (flatten-rotated d true true true true b l r p x))))
        ∙ flatten-rotated d true cg false true near r u x g) in
      record {
        nodes = end.nodes;
        new_root = end.new_root;
        tree = plug gs (join d false near x low);
        run =
            ap go_on end.run ∙ stopped end.nodes sent end.new_root above f gs d b l p n below refl;
        here = At-plug end.nodes sent end.new_root above gs (join d false near x low) end.here;
        shape =
            RedBlack-plug gs (join d false near x low)
              (rw (black_height-join d false near x low same_low, near_h, sym same_b) outside) whole
              (rw (is_red-join d false near x low) refl);
        order = flatten-plug gs _ _ order;
        keys = end.keys;
        black = (end.same sent end.here.clear.no_sent).2 ∙ black;
      }
