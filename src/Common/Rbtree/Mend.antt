-- ===== src/Common/Rbtree/Mend.antt =====
-- code/common/rbtree.c: what a round of the loop of rbtree_delete makes at a black sibling.
use headquarter.Base.{
  ℕ, suc, ◌≡◌, refl, sym, ap, ◌∙◌, Bool, true, false, ◌&&◌, List, ◌==◌, if◌then◌else◌, Outcome, ok,
  ◌>>=◌, arith,
}
use headquarter.Common.Rbtree.{Side, flip, Nodes, null, load_parent, store_red}
use headquarter.Common.Rbtree.Tree.{
  Tree, join, Frame, plug, count-join, hit-zero, hit-away, join-Rep, top, up,
}
use headquarter.Common.Rbtree.Same.{set_red, set_red-Same}
use headquarter.Common.Rbtree.Focus.{At}
use headquarter.Common.Rbtree.Colour.{colour-far}
use headquarter.Common.Rbtree.Order.{flatten, flatten-join, flatten-plug, flatten-colour, join-flip}
use headquarter.Common.Rbtree.Shape.{
  is_red, black_height, RedBlack, RedBlackAbove, red_above, RedBlack-join, join-RedBlack,
  black_height-join, is_red-join, RedBlack-plug,
}
use headquarter.Common.Rbtree.Delete.{both_black, turn_near, turn_far, lift_sibling, delete_loop}
use headquarter.Common.Rbtree.Lift.{both-run, far_turned}
use headquarter.Common.Rbtree.Finish.{Repaired, finished-whole}

and_black : (c : Bool) → (c && false) ≡ false
and_black true = refl
and_black false = refl

pub flatten-far :
    (d : Side) (c : Bool) (t : Tree) (p : ℕ) (a b : Tree)
    → flatten a ≡ flatten b
    → flatten (join d c t p a) ≡ flatten (join d c t p b)
flatten-far d c t p a b e =
    ap flatten (sym (join-flip d c a p t))
    ∙ flatten-join (flip d) c a b p t e
    ∙ ap flatten (join-flip d c b p t)

pub lift-two :
    (s s1 s2 : Nodes) (d : Side) (root root1 root2 sent x q q1 : ℕ)
    → both_black s q ≡ ok false
    → turn_near d s root sent x q ≡ ok (s1, root1, q1)
    → turn_far d s1 root1 sent x q1 ≡ ok (s2, root2)
    → lift_sibling d s root sent x q ≡ ok (s2, root2, root2)
unfolding lift_sibling
lift-two s s1 s2 d root root1 root2 sent x q q1 h1 h2 h3 = rw h1 (rw h2 (rw h3 refl))

lift-none :
    (s : Nodes) (d : Side) (root sent x q p : ℕ)
    → both_black s q ≡ ok true
    → (q == null) ≡ false
    → (x == null) ≡ false
    → s.parent x ≡ p
    → lift_sibling d s root sent x q ≡ ok (set_red s q true, root, p)
unfolding lift_sibling store_red load_parent
lift-none s d root sent x q p h1 qn xn h2 = rw h1 (rw (qn, xn, h2) refl)

module _ (s : Nodes) (sent root above : ℕ) (fs : List Frame) (d : Side) (c : Bool) (t : Tree)
    (p : ℕ) (sent_null : (sent == null) ≡ false) (black : s.red sent ≡ false)
    (x_null : (top sent t == null) ≡ false) (x_up : s.parent (top sent t) ≡ p)
    (t_black : is_red t ≡ false) (t_shape : RedBlack t) (c_red : (c && red_above fs) ≡ false)
    (outside : RedBlackAbove (if c then suc (black_height t) else suc (suc (black_height t))) fs)
    (m : ℕ) where
  abbrev pub go_on : Outcome (Nodes × ℕ × ℕ) → Outcome (Nodes × ℕ)
  go_on o = o >>= (λ (s', root', x'). delete_loop (suc m) s' root' sent x')

  -- Two black children of the sibling.
  pub none_red :
      (n far : Tree) (q : ℕ)
      → is_red n ≡ false
      → is_red far ≡ false
      → At s sent root above fs (join d c t p (join d false n q far))
      → RedBlack n
      → RedBlack far
      → black_height n ≡ black_height far
      → black_height n ≡ black_height t
      → ((s' : Nodes)
          → At s' sent root above fs (join d c t p (join d true n q far))
          → RedBlack (join d false t p (join d true n q far))
          → s'.red sent ≡ false
          → Repaired s' sent above
              (delete_loop (suc m) s' root sent p)
              (plug fs (join d c t p (join d true n q far))))
      → Repaired s sent above
          (go_on (lift_sibling d s root sent (top sent t) q))
          (plug fs (join d c t p (join d false n q far)))
  none_red n far q kn kf here hn hf eh et again =
      let sib : Tree = join d false n q far in
      let sib' : Tree = join d true n q far in
      let s' : Nodes = set_red s q true in
      let at_p = join-Rep s sent d c t p sib (up above fs) here.rep in
      let e1 = λ (z : ℕ). count-join z d c t p sib in
      let e2 = λ (z : ℕ). count-join z d false n q far in
      let zn = here.clear.no_null in
      let qn = hit-away null q (omega (arith, zn, e1 null, e2 null)) in
      let qs = hit-zero sent q (omega (arith, here.clear.no_sent, e1 sent, e2 sent)) in
      let two : both_black s q ≡ ok true =
        rw (kn, kf) at
          (both-run s sent p d false n q far sent_null black qn
            (omega (arith, zn, e1 null, e2 null)) (omega (arith, zn, e1 null, e2 null)) at_p.5) in
      let sib_h = black_height-join d true n q far eh in
      let done =
        again s' (colour-far s sent root above true fs d d c false t n far q p here)
          (RedBlack-join d false t p sib' (sym et ∙ sym sib_h) refl refl t_shape
            (RedBlack-join d true n q far eh kn kf hn hf))
          ((set_red-Same s q sent true qs).2 ∙ black) in
      record {
        nodes = done.nodes;
        new_root = done.new_root;
        tree = done.tree;
        run = ap go_on (lift-none s d root sent (top sent t) q p two qn x_null x_up) ∙ done.run;
        here = done.here;
        shape = done.shape;
        root_black = done.root_black;
        order =
            done.order
            ∙ flatten-plug fs _ _
                (flatten-far d c t p sib' sib (flatten-colour d true false n q far));
        keys = done.keys;
        black = done.black;
      }

  -- What turn_far makes of a red far child.
  pub far_mended :
      (e : Side) (n a b : Tree) (q y : ℕ)
      → At s sent root above fs (join d c t p (join d false n q (join e true a y b)))
      → RedBlack n
      → RedBlack (join e true a y b)
      → black_height n ≡ black_height (join e true a y b)
      → black_height n ≡ black_height t
      → (s2 : Nodes) × (root2 : ℕ) × (turn_far d s root sent (top sent t) q ≡ ok (s2, root2))
        × (s2.key ≡ s.key)
        × Repaired s2 sent above
            (delete_loop (suc m) s2 root2 sent root2)
            (plug fs (join d c (join d false t p n) q (join e false a y b)))
  far_mended e n a b q y here hn hf eh et =
      let low : Tree = join d false t p n in
      let far : Tree = join e false a y b in
      let turn =
        far_turned s sent root above fs d c t p (top sent t) x_null x_up e n a b q y here in
      let parts = join-RedBlack e true a y b hf in
      let low_h = black_height-join d false t p n (sym et) in
      let far_h = black_height-join e false a y b parts.0 in
      let red_h = black_height-join e true a y b parts.0 in
      let same : black_height low ≡ black_height far =
        low_h ∙ ap suc (sym et ∙ eh ∙ red_h) ∙ sym far_h in
      let shape =
        RedBlack-join d c low q far same (rw (is_red-join d false t p n) (and_black c))
          (rw (is_red-join e false a y b) (and_black c))
          (RedBlack-join d false t p n (sym et) refl refl t_shape hn)
          (RedBlack-join e false a y b parts.0 refl refl parts.3 parts.4) in
      let whole =
        RedBlack-plug fs (join d c low q far)
          (rw (black_height-join d c low q far same, low_h) outside) shape
          (rw (is_red-join d c low q far) c_red) in
      (
        turn.nodes,
        turn.new_root,
        turn.run,
        turn.keys,
        finished-whole turn.nodes sent turn.new_root above m fs (join d c low q far) sent_null
            turn.here whole ((turn.same sent turn.here.clear.no_sent).2 ∙ black),
      )
