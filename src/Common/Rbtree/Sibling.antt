-- ===== src/Common/Rbtree/Sibling.antt =====
-- code/common/rbtree.c: a round of the loop of rbtree_delete at a black sibling, by the colours of its children.
use headquarter.Base.{
  ℕ, suc, ◌≡◌, refl, sym, ap, ◌∙◌, Bool, true, false, not, ◌&&◌, ◌||◌, List, ◌==◌, if◌then◌else◌,
  Bool-cases, inl, inr, Outcome, ok, ◌>>=◌, arith,
}
use headquarter.Common.Rbtree.{Side, left, right, flip, Nodes, null, load_child, load_red}
use headquarter.Common.Rbtree.Tree.{
  Tree, leaf, node, join, Frame, plug, count-join, hit-away, join-Rep, top, top-join, up,
}
use headquarter.Common.Rbtree.Focus.{At}
use headquarter.Common.Rbtree.Order.{
  flatten, flatten-join, flatten-plug, flatten-rotated, flatten-colour, join-flip,
}
use headquarter.Common.Rbtree.Shape.{
  is_red, black_height, RedBlack, RedBlackAbove, red_above, RedBlack-join, join-RedBlack,
  black_height-join, is_red-join,
}
use headquarter.Common.Rbtree.Delete.{both_black, turn_near, lift_sibling, delete_loop}
use headquarter.Common.Rbtree.Lift.{both-run, near_turned, up-after}
use headquarter.Common.Rbtree.Finish.{Repaired}
use headquarter.Common.Rbtree.Mend.{flatten-far, lift-two, none_red, far_mended}

near_skip :
    (s : Nodes) (d : Side) (root sent x q y : ℕ)
    → (q == null) ≡ false
    → s.child (flip d) q ≡ y
    → (y == null) ≡ false
    → s.red y ≡ true
    → turn_near d s root sent x q ≡ ok (s, root, q)
unfolding turn_near load_child load_red
near_skip s d root sent x q y qn h1 yn h2 = rw (qn, h1, yn, h2) refl

or_true : (a : Bool) → not (a || true) ≡ false
or_true true = refl
or_true false = refl

pub as_join :
    (d : Side) (n : Tree)
    → is_red n ≡ true
    → (a : Tree) × (y : ℕ) × (b : Tree) × (n ≡ join d true a y b)
as_join d leaf h = cc
as_join d (node false l p r) h = cc
as_join left (node true l p r) h = (l, p, r, refl)
as_join right (node true l p r) h = (r, p, l, refl)

module _ (s : Nodes) (sent root above : ℕ) (fs : List Frame) (d : Side) (c : Bool) (t : Tree)
    (p : ℕ) (sent_null : (sent == null) ≡ false) (black : s.red sent ≡ false)
    (x_null : (top sent t == null) ≡ false) (x_up : s.parent (top sent t) ≡ p)
    (t_black : is_red t ≡ false) (t_shape : RedBlack t) (c_red : (c && red_above fs) ≡ false)
    (outside : RedBlackAbove (if c then suc (black_height t) else suc (suc (black_height t))) fs)
    (m : ℕ) where
  abbrev go_on : Outcome (Nodes × ℕ × ℕ) → Outcome (Nodes × ℕ)
  go_on o = o >>= (λ (s', root', x'). delete_loop (suc m) s' root' sent x')

  -- A red far child.
  far_red :
      (e : Side) (n a b : Tree) (q y : ℕ)
      → At s sent root above fs (join d c t p (join d false n q (join e true a y b)))
      → RedBlack n
      → RedBlack (join e true a y b)
      → black_height n ≡ black_height (join e true a y b)
      → black_height n ≡ black_height t
      → Repaired s sent above
          (go_on (lift_sibling d s root sent (top sent t) q))
          (plug fs (join d c t p (join d false n q (join e true a y b))))
  far_red e n a b q y here hn hf eh et =
      let far : Tree = join e true a y b in
      let sib : Tree = join d false n q far in
      let at_p = join-Rep s sent d c t p sib (up above fs) here.rep in
      let at_q = join-Rep s sent d false n q far p at_p.5 in
      let at_y = join-Rep s sent e true a y b q at_q.5 in
      let e1 = λ (z : ℕ). count-join z d c t p sib in
      let e2 = λ (z : ℕ). count-join z d false n q far in
      let e3 = λ (z : ℕ). count-join z e true a y b in
      let zn = here.clear.no_null in
      let qn = hit-away null q (omega (arith, zn, e1 null, e2 null)) in
      let yn = hit-away null y (omega (arith, zn, e1 null, e2 null, e3 null)) in
      let some : both_black s q ≡ ok false =
        both-run s sent p d false n q far sent_null black qn (omega (arith, zn, e1 null, e2 null))
          (omega (arith, zn, e1 null, e2 null)) at_p.5
        ∙ (rw (is_red-join e true a y b, or_true (is_red n)) refl) in
      let skip =
        near_skip s d root sent (top sent t) q y qn (at_q.3 ∙ top-join sent e true a y b) yn
          at_y.1 in
      let (s2, root2, run, keys, done) =
        far_mended s sent root above fs d c t p sent_null black x_null x_up t_black t_shape c_red
          outside m e n a b q y here hn hf eh et in
      record {
        nodes = done.nodes;
        new_root = done.new_root;
        tree = done.tree;
        run =
            ap go_on (lift-two s s s2 d root root root2 sent (top sent t) q q some skip run)
            ∙ done.run;
        here = done.here;
        shape = done.shape;
        root_black = done.root_black;
        order =
            done.order
            ∙ flatten-plug fs _ _ (
                flatten-rotated d false c c false t n (join e false a y b) p q
                ∙ flatten-far d c t p _ _
                    (flatten-far d false n q _ _ (flatten-colour e false true a y b)));
        keys = done.keys ∙ keys;
        black = done.black;
      }

  -- A red near child alone.
  near_red :
      (na nb far : Tree) (q y : ℕ)
      → is_red far ≡ false
      → At s sent root above fs (join d c t p (join d false (join (flip d) true nb y na) q far))
      → RedBlack (join (flip d) true nb y na)
      → RedBlack far
      → black_height (join (flip d) true nb y na) ≡ black_height far
      → black_height (join (flip d) true nb y na) ≡ black_height t
      → Repaired s sent above
          (go_on (lift_sibling d s root sent (top sent t) q))
          (plug fs (join d c t p (join d false (join (flip d) true nb y na) q far)))
  near_red na nb far q y kf here hn hf eh et =
      let near : Tree = join (flip d) true nb y na in
      let sib : Tree = join d false near q far in
      let at_p = join-Rep s sent d c t p sib (up above fs) here.rep in
      let e1 = λ (z : ℕ). count-join z d c t p sib in
      let e2 = λ (z : ℕ). count-join z d false near q far in
      let zn = here.clear.no_null in
      let qn = hit-away null q (omega (arith, zn, e1 null, e2 null)) in
      let some : both_black s q ≡ ok false =
        both-run s sent p d false near q far sent_null black qn
          (omega (arith, zn, e1 null, e2 null)) (omega (arith, zn, e1 null, e2 null)) at_p.5
        ∙ (rw (is_red-join (flip d) true nb y na) refl) in
      let parts = join-RedBlack (flip d) true nb y na hn in
      let near_h : black_height near ≡ black_height nb =
        black_height-join (flip d) true nb y na parts.0 in
      let turn =
        near_turned s sent root above fs d c t p sent_null black x_null x_up na nb far q y kf
          here in
      let new_sib : Tree = join d false na y (join d true nb q far) in
      let at_p' = join-Rep turn.nodes sent d c t p new_sib (up above fs) turn.here.rep in
      let same = turn.same sent turn.here.clear.no_sent in
      let far_h = black_height-join d true nb q far (sym near_h ∙ eh) in
      let (s2, root2, run, keys, done) =
        far_mended turn.nodes sent turn.new_root above fs d c t p sent_null (same.2 ∙ black) x_null
          (up-after s turn.nodes sent p t x_up same.1 at_p'.4) t_black t_shape c_red outside m d na
          nb far y q turn.here parts.4
          (RedBlack-join d true nb q far (sym near_h ∙ eh) parts.1 kf parts.3 hf)
          (sym parts.0 ∙ sym far_h) (sym parts.0 ∙ sym near_h ∙ et) in
      record {
        nodes = done.nodes;
        new_root = done.new_root;
        tree = done.tree;
        run =
            ap go_on (
              lift-two s turn.nodes s2 d root turn.new_root root2 sent (top sent t) q y some
                turn.run run)
            ∙ done.run;
        here = done.here;
        shape = done.shape;
        root_black = done.root_black;
        order =
            done.order
            ∙ flatten-plug fs _ _ (
                flatten-rotated d false c c false t na (join d false nb q far) p y
                ∙ flatten-far d c t p _ _ (
                    flatten-far d false na y _ _ (flatten-colour d false true nb q far)
                    ∙ sym (flatten-rotated d true false false true na nb far y q)
                    ∙ flatten-join d false _ _ q far
                        (ap flatten (sym (join-flip d true nb y na)))));
        keys = done.keys ∙ keys ∙ turn.keys;
        black = done.black;
      }

  pub mended :
      (n far : Tree) (q : ℕ)
      → At s sent root above fs (join d c t p (join d false n q far))
      → RedBlack n
      → RedBlack far
      → black_height n ≡ black_height far
      → black_height n ≡ black_height t
      → ((s' : Nodes)
          → At s' sent root above fs (join d c t p (join d true n q far))
          → RedBlack (join d false t p (join d true n q far))
          → s'.red sent ≡ false
          → Repaired s' sent above
              (delete_loop (suc m) s' root sent p)
              (plug fs (join d c t p (join d true n q far))))
      → Repaired s sent above
          (go_on (lift_sibling d s root sent (top sent t) q))
          (plug fs (join d c t p (join d false n q far)))
  mended n far q here hn hf eh et again = elim (Bool-cases (is_red far)) [
    | inl k ↦
        let (a, y, b, e) = as_join d far k in
        rw e (far_red d n a b q y (rw e at here) hn (rw e at hf) (rw e at eh) et)
    | inr k ↦ elim (Bool-cases (is_red n)) [
      | inl h ↦
          let (a, y, b, e) = as_join (flip d) n h in
          rw e (near_red b a far q y k (rw e at here) (rw e at hn) hf (rw e at eh) (rw e at et))
      | inr h ↦
          none_red s sent root above fs d c t p sent_null black x_null x_up t_black t_shape c_red
            outside m n far q h k here hn hf eh et again
    ]
  ]
