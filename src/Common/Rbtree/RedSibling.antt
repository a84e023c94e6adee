-- ===== src/Common/Rbtree/RedSibling.antt =====
-- code/common/rbtree.c: a round of the loop of rbtree_delete at a red sibling.
use headquarter.Base.{
  ℕ, suc, ◌≡◌, refl, sym, ap, ◌∙◌, Bool, true, false, List, ◌∷◌, ◌==◌, ok, ◌>>=◌, arith,
}
use headquarter.Common.Rbtree.{
  Side, left, right, flip, Nodes, null, load_child, load_parent, load_red, store_red, rotate,
}
use headquarter.Common.Rbtree.Tree.{
  Tree, leaf, node, join, Frame, plug, count-join, hit-zero, hit-away, join-Rep, top, top-join, up,
}
use headquarter.Common.Rbtree.Same.{set_red, set_red-Same, Same-trans}
use headquarter.Common.Rbtree.Replace.{root-count}
use headquarter.Common.Rbtree.Focus.{At}
use headquarter.Common.Rbtree.Rotate.{rotated}
use headquarter.Common.Rbtree.Zip.{At-down}
use headquarter.Common.Rbtree.Colour.{colour-top, colour-far}
use headquarter.Common.Rbtree.Shape.{
  is_red, black_height, RedBlack, RedBlackAbove, join-RedBlack, black_height-join,
}
use headquarter.Common.Rbtree.Order.{flatten-plug, flatten-rotated}
use headquarter.Common.Rbtree.Delete.{turn_sibling, lift_sibling, delete_loop}
use headquarter.Common.Rbtree.Lift.{up-after}
use headquarter.Common.Rbtree.Finish.{Repaired, blacken, finished, finish-red}
use headquarter.Common.Rbtree.Sibling.{mended}

pub black_join :
    (d : Side) (n : Tree) (k : ℕ)
    → is_red n ≡ false
    → black_height n ≡ suc k
    → (a : Tree) × (y : ℕ) × (b : Tree) × (n ≡ join d false a y b)
unfolding black_height
black_join d leaf k h e = absurd (omega (arith, e))
black_join d (node true l p r) k h e = cc
black_join left (node false l p r) k h e = (l, p, r, refl)
black_join right (node false l p r) k h e = (r, p, l, refl)

pub blacken-join :
    (d : Side) (c : Bool) (a : Tree) (p : ℕ) (b : Tree)
    → blacken (join d c a p b) ≡ join d false a p b
blacken-join left c a p b = refl
blacken-join right c a p b = refl

-- The loop ends at a red node below a frame.
pub ends_red :
    (s : Nodes) (sent root above : ℕ) (f : Frame) (fs : List Frame) (d : Side) (a : Tree) (p : ℕ)
    (b : Tree) (m : ℕ)
    → At s sent root above (f ∷ fs) (join d true a p b)
    → RedBlack (join d false a p b)
    → RedBlackAbove (suc (black_height a)) (f ∷ fs)
    → s.red sent ≡ false
    → Repaired s sent above (delete_loop (suc m) s root sent p) (plug (f ∷ fs) (join d true a p b))
ends_red s sent root above f fs d a p b m here shape outside black =
    let t : Tree = join d true a p b in
    let cj = λ (z : ℕ). count-join z d true a p b in
    let zr = root-count s sent root above _ f fs here.rep_above in
    let parts = join-RedBlack d false a p b shape in
    finished s sent root above (f ∷ fs) t (delete_loop (suc m) s root sent p) here
      (rw (blacken-join d true a p b) shape)
      (rw (blacken-join d true a p b, black_height-join d false a p b parts.0) outside) black
      (finish-red s sent root above m p
          (hit-away null p (omega (arith, here.clear.no_null, cj null)))
          (hit-away root p (omega (arith, zr, here.clear.once root, cj root)))
          (join-Rep s sent d true a p b _ here.rep).1
        ∙ ap (λ x. ok (set_red s x false, root)) (sym (top-join sent d true a p b)))

red_run :
    (s s3 : Nodes) (d : Side) (root root3 sent x q p q3 : ℕ)
    → (q == null) ≡ false
    → s.red q ≡ true
    → (x == null) ≡ false
    → s.parent x ≡ p
    → (p == null) ≡ false
    → rotate d (set_red (set_red s q false) p true) root sent p ≡ ok (s3, root3)
    → s3.parent x ≡ p
    → s3.child (flip d) p ≡ q3
    → turn_sibling d s root sent x q ≡ ok (s3, root3, q3)
unfolding turn_sibling load_red load_parent load_child store_red
red_run s s3 d root root3 sent x q p q3 qn h1 xn h2 pn h3 h4 h5 =
    rw (qn, h1) (rw (qn, xn, h2, pn, h3, h4, h5) (rw pn refl))

module _ (s : Nodes) (sent root above : ℕ) (fs : List Frame) (d : Side) (t : Tree) (p : ℕ)
    (sent_null : (sent == null) ≡ false) (black : s.red sent ≡ false)
    (x_null : (top sent t == null) ≡ false) (x_up : s.parent (top sent t) ≡ p)
    (t_black : is_red t ≡ false) (t_shape : RedBlack t)
    (outside : RedBlackAbove (suc (suc (black_height t))) fs) (m : ℕ) where
  pub red_mended :
      (n' far' far : Tree) (q' q : ℕ)
      → At s sent root above fs (join d false t p (join d true (join d false n' q' far') q far))
      → RedBlack (join d true (join d false n' q' far') q far)
      → black_height (join d false n' q' far') ≡ suc (black_height t)
      → Repaired s sent above
          (turn_sibling d s root sent (top sent t) q
            >>= (λ (s1, root1, q1). lift_sibling d s1 root1 sent (top sent t) q1)
            >>= (λ (s', root', x'). delete_loop (suc m) s' root' sent x'))
          (plug fs (join d false t p (join d true (join d false n' q' far') q far)))
  red_mended n' far' far q' q here shape nh =
      let n : Tree = join d false n' q' far' in
      let sib : Tree = join d true n q far in
      let s1 : Nodes = set_red s q false in
      let s2 : Nodes = set_red s1 p true in
      let at_p = join-Rep s sent d false t p sib (up above fs) here.rep in
      let at_q = join-Rep s sent d true n q far p at_p.5 in
      let e1 = λ (z : ℕ). count-join z d false t p sib in
      let e2 = λ (z : ℕ). count-join z d true n q far in
      let e3 = λ (z : ℕ). count-join z d false (join d true t p n) q far in
      let e4 = λ (z : ℕ). count-join z d true t p n in
      let zn = here.clear.no_null in
      let parts = join-RedBlack d true n q far shape in
      let h1 = colour-far s sent root above false fs d d false true t n far q p here in
      let h2 = colour-top s1 sent root above true fs d false t p (join d false n q far) h1 in
      let turn = rotated s2 sent root above fs d true false t n far p q h2 in
      let g : Frame = record { side = d; colour = false; at = q; sibling = far } in
      let low = At-down turn.nodes sent turn.new_root above g fs (join d true t p n) turn.here in
      let low_p = join-Rep turn.nodes sent d true t p n q low.rep in
      let same =
        Same-trans s s1 turn.nodes sent
          (set_red-Same s q sent false
            (hit-zero sent q (omega (arith, here.clear.no_sent, e1 sent, e2 sent))))
          (Same-trans s1 s2 turn.nodes sent
            (set_red-Same s1 p sent true
              (hit-zero sent p (omega (arith, here.clear.no_sent, e1 sent))))
            (turn.same sent turn.here.clear.no_sent)) in
      let x_up' = up-after s turn.nodes sent p t x_up same.1 low_p.4 in
      let run =
        red_run s turn.nodes d root turn.new_root sent (top sent t) q p q'
          (hit-away null q (omega (arith, zn, e1 null, e2 null))) at_q.1 x_null x_up
          (hit-away null p (omega (arith, zn, e1 null))) turn.run x_up'
          (low_p.3 ∙ top-join sent d false n' q' far') in
      let inner = join-RedBlack d false n' q' far' parts.3 in
      let n'h : black_height n' ≡ black_height t =
        omega (arith, nh, black_height-join d false n' q' far' inner.0) in
      let outside' : RedBlackAbove (suc (black_height t)) (g ∷ fs) =
        (sym nh ∙ parts.0, refl, refl, parts.4, outside) in
      let done =
        mended turn.nodes sent turn.new_root above (g ∷ fs) d true t p sent_null (same.2 ∙ black)
          x_null x_up' t_black t_shape refl outside' m n' far' q' low inner.3 inner.4 inner.0 n'h
          (λ s' here' shape' black'.
            ends_red s' sent turn.new_root above g fs d t p (join d true n' q' far') m here' shape'
              outside' black') in
      record {
        nodes = done.nodes;
        new_root = done.new_root;
        tree = done.tree;
        run = rw run done.run;
        here = done.here;
        shape = done.shape;
        root_black = done.root_black;
        order =
            done.order ∙ flatten-plug fs _ _ (flatten-rotated d true false false true t n far p q);
        keys = done.keys ∙ turn.keys;
        black = done.black;
      }
