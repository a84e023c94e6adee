-- ===== src/Common/Rbtree/Lift.antt =====
-- code/common/rbtree.c: the loop of rbtree_delete at a black sibling.
use headquarter.Base.{
  ℕ, ◌+◌, ◌≡◌, refl, ap, ◌∙◌, Bool, true, false, not, ◌||◌, List, ◌∷◌, ◌==◌, ok, arith,
}
use headquarter.Common.Rbtree.{
  Side, left, right, flip, Nodes, null, load_child, load_parent, load_red, store_red, rotate,
}
use headquarter.Common.Rbtree.Tree.{
  Tree, leaf, node, join, Frame, count, count_above, count-join, hit, hit-zero, hit-away, Rep,
  join-Rep, Same, top, top-join, up,
}
use headquarter.Common.Rbtree.Same.{set_red, set_red-Same, Same-trans}
use headquarter.Common.Rbtree.Focus.{At, Becomes}
use headquarter.Common.Rbtree.Rotate.{rotated}
use headquarter.Common.Rbtree.Zip.{At-up, At-down}
use headquarter.Common.Rbtree.Colour.{colour-top, colour-near, colour-far}
use headquarter.Common.Rbtree.Order.{join-flip}
use headquarter.Common.Rbtree.Shape.{is_red}
use headquarter.Common.Rbtree.Round.{red-top, top-null}
use headquarter.Common.Rbtree.Restore.{Round}
use headquarter.Common.Rbtree.Delete.{both_black, turn_near, turn_far}

module _ (s : Nodes) (sent root above : ℕ) (fs : List Frame) (d : Side) (c : Bool) (t : Tree)
    (p : ℕ) (x : ℕ) (x_null : (x == null) ≡ false) (x_up : s.parent x ≡ p) where
  far_run :
      (s3 : Nodes) (q y : ℕ)
      → (p == null) ≡ false
      → s.red p ≡ c
      → (q == null) ≡ false
      → s.child (flip d) q ≡ y
      → (y == null) ≡ false
      → set_red (set_red (set_red s q c) p false) y false ≡ s3
      → turn_far d s root sent x q ≡ rotate d s3 root sent p
  unfolding turn_far load_parent load_child load_red store_red
  far_run s3 q y pn h1 qn h2 yn h3 = rw (x_null, x_up, pn, h1, qn, h2, yn, h3) refl

  -- The sibling `q`, black, with a red far child.
  pub far_turned :
      (e : Side) (n a b : Tree) (q y : ℕ)
      → At s sent root above fs (join d c t p (join d false n q (join e true a y b)))
      → Becomes s sent above
          (turn_far d s root sent x q)
          fs
          (join d c (join d false t p n) q (join e false a y b))
  far_turned e n a b q y here =
      let far : Tree = join e true a y b in
      let sib : Tree = join d false n q far in
      let s1 : Nodes = set_red s q c in
      let s2 : Nodes = set_red s1 p false in
      let s3 : Nodes = set_red s2 y false in
      let at_p = join-Rep s sent d c t p sib (up above fs) here.rep in
      let at_q = join-Rep s sent d false n q far p at_p.5 in
      let e1 = λ (z : ℕ). count-join z d c t p sib in
      let e2 = λ (z : ℕ). count-join z d false n q far in
      let e3 = λ (z : ℕ). count-join z e true a y b in
      let e4 = λ (z : ℕ). count-join z d c (join d false t p n) q (join e false a y b) in
      let e5 = λ (z : ℕ). count-join z d false t p n in
      let e6 = λ (z : ℕ). count-join z e false a y b in
      let zn = here.clear.no_null in
      let h1 = colour-far s sent root above c fs d d c false t n far q p here in
      let h2 = colour-top s1 sent root above false fs d c t p (join d c n q far) h1 in
      let f : Frame = record { side = flip d; colour = false; at = p; sibling = t } in
      let low =
        At-down s2 sent root above f fs (join d c n q far)
          (rw (join-flip d false (join d c n q far) p t) h2) in
      let h3 =
        At-up s3 sent root above f fs (join d c n q (join e false a y b))
          (colour-far s2 sent root above false (f ∷ fs) d e c true n a b y q low) in
      let turn =
        rotated s3 sent root above fs d false c t n (join e false a y b) p q
          (rw (join-flip d false (join d c n q (join e false a y b)) p t) at h3) in
      record {
        nodes = turn.nodes;
        new_root = turn.new_root;
        run =
            far_run s3 q y (hit-away null p (omega (arith, zn, e1 null))) at_p.1
              (hit-away null q (omega (arith, zn, e1 null, e2 null)))
              (at_q.3 ∙ top-join sent e true a y b)
              (hit-away null y (omega (arith, zn, e1 null, e2 null, e3 null))) refl
            ∙ turn.run;
        here = turn.here;
        keys = turn.keys;
        same = λ z k.
            Same-trans s s1 turn.nodes z
              (set_red-Same s q z c (hit-zero z q (omega (arith, k, e4 z))))
              (Same-trans s1 s2 turn.nodes z
                (set_red-Same s1 p z false (hit-zero z p (omega (arith, k, e4 z, e5 z))))
                (Same-trans s2 s3 turn.nodes z
                  (set_red-Same s2 y z false (hit-zero z y (omega (arith, k, e4 z, e6 z))))
                  (turn.same z k)));
      }

both-read :
    (s : Nodes) (q l r : ℕ) (a b : Bool)
    → (q == null) ≡ false
    → s.child left q ≡ l
    → (l == null) ≡ false
    → s.red l ≡ a
    → s.child right q ≡ r
    → (r == null) ≡ false
    → s.red r ≡ b
    → both_black s q ≡ ok (not (a || b))
unfolding both_black load_child load_red
both-read s q l r true b qn h1 ln h2 h3 rn h4 = rw (qn, h1, ln, h2) refl
both-read s q l r false b qn h1 ln h2 h3 rn h4 = rw (qn, h1, ln, h2) (rw (qn, h3, rn, h4) refl)

or_swap : (a b : Bool) → (a || b) ≡ (b || a)
or_swap true true = refl
or_swap true false = refl
or_swap false true = refl
or_swap false false = refl

pub both-run :
    (s : Nodes) (sent par : ℕ) (d : Side) (c : Bool) (n : Tree) (q : ℕ) (far : Tree)
    → (sent == null) ≡ false
    → s.red sent ≡ false
    → (q == null) ≡ false
    → count null n ≡ 0
    → count null far ≡ 0
    → Rep s sent par (join d c n q far)
    → both_black s q ≡ ok (not (is_red n || is_red far))
both-run s sent par left c n q far sn black qn zn zf r =
    both-read s q (top sent n) (top sent far) (is_red n) (is_red far) qn r.0.2
      (top-null sent n sn zn) (red-top s sent q n black r.1) r.0.3 (top-null sent far sn zf)
      (red-top s sent q far black r.2)
both-run s sent par right c n q far sn black qn zn zf r =
    both-read s q (top sent far) (top sent n) (is_red far) (is_red n) qn r.0.2
      (top-null sent far sn zf) (red-top s sent q far black r.1) r.0.3 (top-null sent n sn zn)
      (red-top s sent q n black r.2)
    ∙ ap (λ b. ok (not b)) (or_swap (is_red far) (is_red n))

-- A node keeps its parent where its tree is still below it; the sentinel, where it was not written.
pub up-after :
    (s s' : Nodes) (sent p : ℕ) (t : Tree)
    → s.parent (top sent t) ≡ p
    → s'.parent sent ≡ s.parent sent
    → Rep s' sent p t
    → s'.parent (top sent t) ≡ p
up-after s s' sent p leaf h k r = k ∙ h
up-after s s' sent p (node c a q b) h k r = r.0.0

module _ (s : Nodes) (sent root above : ℕ) (fs : List Frame) (d : Side) (c : Bool) (t : Tree)
    (p : ℕ) (sent_null : (sent == null) ≡ false) (black : s.red sent ≡ false)
    (x_null : (top sent t == null) ≡ false) (x_up : s.parent (top sent t) ≡ p) where
  near_run :
      (s2 s3 : Nodes) (root' q y : ℕ) (far : Tree) (b : Bool)
      → (q == null) ≡ false
      → s.child (flip d) q ≡ top sent far
      → (top sent far == null) ≡ false
      → s.red (top sent far) ≡ false
      → s.child d q ≡ y
      → (y == null) ≡ false
      → set_red (set_red s y false) q true ≡ s2
      → rotate (flip d) s2 root sent q ≡ ok (s3, root')
      → s3.parent (top sent t) ≡ p
      → (p == null) ≡ false
      → s3.child (flip d) p ≡ y
      → turn_near d s root sent (top sent t) q ≡ ok (s3, root', y)
  unfolding turn_near load_parent load_child load_red store_red
  near_run s2 s3 root' q y far b qn h1 fn h2 h3 yn h4 h5 h6 pn h7 =
      rw (qn, h1, fn, h2) (rw (qn, h3, yn, h4, h5, x_null, h6, pn, h7) refl)

  pub near_turned :
      (na nb far : Tree) (q y : ℕ)
      → is_red far ≡ false
      → At s sent root above fs (join d c t p (join d false (join (flip d) true nb y na) q far))
      → Round s sent above
          (turn_near d s root sent (top sent t) q)
          fs
          (join d c t p (join d false na y (join d true nb q far)))
          y
  unfolding count_above
  near_turned na nb far q y far_black here =
      let near : Tree = join (flip d) true nb y na in
      let sib : Tree = join d false near q far in
      let g : Frame = record { side = flip d; colour = c; at = p; sibling = t } in
      let s1 : Nodes = set_red s y false in
      let s2 : Nodes = set_red s1 q true in
      let at_p = join-Rep s sent d c t p sib (up above fs) here.rep in
      let at_q = join-Rep s sent d false near q far p at_p.5 in
      let e1 = λ (z : ℕ). count-join z d c t p sib in
      let e2 = λ (z : ℕ). count-join z d false near q far in
      let e3 = λ (z : ℕ). count-join z (flip d) true nb y na in
      let zn = here.clear.no_null in
      let low = At-down s sent root above g fs sib (rw (join-flip d c sib p t) here) in
      let h1 =
        colour-near s sent root above false (g ∷ fs) d (flip d) false true nb na far y q low in
      let h2 =
        colour-top s1 sent root above true (g ∷ fs) d false (join (flip d) false nb y na) q far
          h1 in
      let turn =
        rotated s2 sent root above (g ∷ fs) (flip d) true false far nb na q y
          (rw (join-flip d true far q (join (flip d) false nb y na)) h2) in
      let after : At turn.nodes sent turn.new_root above (g ∷ fs)
          (join d false na y (join d true nb q far)) =
        rw (join-flip d true far q nb, join-flip d false (join d true nb q far) y na) at
          turn.here in
      let new_sib : Tree = join d false na y (join d true nb q far) in
      let e4 = λ (z : ℕ). count-join z d c t p new_sib in
      let e5 = λ (z : ℕ). count-join z d false na y (join d true nb q far) in
      let e6 = λ (z : ℕ). count-join z d true nb q far in
      let e7 = λ (z : ℕ). count-join z (flip d) false (join (flip d) true far q nb) y na in
      let e8 = λ (z : ℕ). count-join z (flip d) true far q nb in
      let e9 : (z : ℕ) → count_above z (g ∷ fs) ≡ hit z p + count z t + count_above z fs =
        λ z. refl in
      let done =
        rw (join-flip d c new_sib p t) at
          (At-up turn.nodes sent turn.new_root above g fs new_sib after) in
      let at_p' = join-Rep turn.nodes sent d c t p new_sib (up above fs) done.rep in
      let same : (z : ℕ)
          → count_above z fs + count z (join d c t p new_sib) ≡ 0
          → Same s turn.nodes z =
        λ z k.
          Same-trans s s1 turn.nodes z
            (set_red-Same s y z false (hit-zero z y (omega (arith, k, e4 z, e5 z))))
            (Same-trans s1 s2 turn.nodes z
              (set_red-Same s1 q z true (hit-zero z q (omega (arith, k, e4 z, e5 z, e6 z))))
              (turn.same z (omega (arith, k, e4 z, e5 z, e6 z, e7 z, e8 z, e9 z)))) in
      record {
        nodes = turn.nodes;
        new_root = turn.new_root;
        run =
            near_run s2 turn.nodes turn.new_root q y far false
              (hit-away null q (omega (arith, zn, e1 null, e2 null))) at_q.3
              (top-null sent far sent_null (omega (arith, zn, e1 null, e2 null)))
              (red-top s sent q far black at_q.5 ∙ far_black)
              (at_q.2 ∙ top-join sent (flip d) true nb y na)
              (hit-away null y (omega (arith, zn, e1 null, e2 null, e3 null))) refl turn.run
              (up-after s turn.nodes sent p t x_up (same sent done.clear.no_sent).1 at_p'.4)
              (hit-away null p (omega (arith, zn, e1 null)))
              (at_p'.3 ∙ top-join sent d false na y (join d true nb q far));
        here = done;
        keys = turn.keys;
        same = same;
      }
