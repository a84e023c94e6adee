-- ===== src/Common/Rbtree/Nearby.antt =====
-- code/common/rbtree.c: what the loop of rbtree_delete reads around a node.
use headquarter.Base.{
  ℕ, suc, ◌≡◌, refl, ap, ◌∙◌, Bool, true, false, ◌&&◌, List, ◌∷◌, ◌==◌, if◌then◌else◌, ok, ◌>>=◌,
  arith,
}
use headquarter.Common.Rbtree.{
  Side, left, right, flip, Nodes, null, load_child, load_parent, load_red,
}
use headquarter.Common.Rbtree.Tree.{
  Tree, leaf, node, join, Frame, count, count_above, count-join, hit_self, hit-zero, hit-away,
  hit-ne, tell_apart, top, top-join,
}
use headquarter.Common.Rbtree.Replace.{root-count, side_of}
use headquarter.Common.Rbtree.Focus.{At}
use headquarter.Common.Rbtree.Shape.{is_red, RedBlack}
use headquarter.Common.Rbtree.Round.{red-top, top-null}
use headquarter.Common.Rbtree.Delete.{turn_sibling, lift_sibling, delete_round, delete_loop}
use headquarter.Common.Rbtree.Finish.{blacken}

pub loop-run :
    (n : ℕ) (s : Nodes) (root sent x : ℕ)
    → (x == root) ≡ false
    → (x == null) ≡ false
    → s.red x ≡ false
    → delete_loop (suc n) s root sent x
      ≡ (delete_round s root sent x >>= (λ (s', root', x'). delete_loop n s' root' sent x'))
unfolding delete_loop load_red
loop-run n s root sent x xr xn k = rw (delete_loop, xr, xn, k) refl

round-run :
    (s : Nodes) (root sent x p q : ℕ) (d : Side)
    → (x == null) ≡ false
    → s.parent x ≡ p
    → (p == null) ≡ false
    → (if x == s.child left p then left else right) ≡ d
    → s.child (flip d) p ≡ q
    → delete_round s root sent x
      ≡ (turn_sibling d s root sent x q >>= (λ (s1, root1, q1). lift_sibling d s1 root1 sent x q1))
unfolding delete_round load_parent load_child
round-run s root sent x p q d xn h1 pn h2 h3 =
    rw (xn, h1, pn, h2)
      (ap
        (λ y.
          turn_sibling d s root sent x y >>= (λ (s1, root1, q1). lift_sibling d s1 root1 sent x q1))
        h3)

pub black_run :
    (d : Side) (s : Nodes) (root sent x q : ℕ)
    → (q == null) ≡ false
    → s.red q ≡ false
    → turn_sibling d s root sent x q ≡ ok (s, root, q)
unfolding turn_sibling load_red
black_run d s root sent x q qn k = rw (qn, k) refl

pub RedBlack-black : (t : Tree) → is_red t ≡ false → RedBlack (blacken t) → RedBlack t
RedBlack-black leaf k h = tt
RedBlack-black (node false l p r) k h = h
RedBlack-black (node true l p r) k h = cc

pub and_left : (c : Bool) → (c && true) ≡ false → c ≡ false
and_left true h = h
and_left false h = refl

pub suc_if : (c : Bool) (m n : ℕ) → suc (if c then m else n) ≡ (if c then suc m else suc n)
suc_if true m n = refl
suc_if false m n = refl

module _ (sent above : ℕ) (sent_null : (sent == null) ≡ false) where
  -- The node, its parent and its sibling.
  pub record Place (s : Nodes) (root : ℕ) (f : Frame) (fs : List Frame) (t : Tree) : Type 0 where
    pub x_null : (top sent t == null) ≡ false
    pub x_root : (top sent t == root) ≡ false
    pub x_red : s.red (top sent t) ≡ is_red t
    pub run : delete_round s root sent (top sent t) ≡ (
        turn_sibling f.side s root sent (top sent t) (top sent f.sibling)
        >>= (λ (s1, root1, q1). lift_sibling f.side s1 root1 sent (top sent t) q1))

  pub tops_differ :
      (y : ℕ) (t : Tree) → (sent == y) ≡ false → count y t ≡ 0 → (top sent t == y) ≡ false
  unfolding count
  tops_differ y leaf n z = n
  tops_differ y (node c l p r) n z = hit-away y p (omega (arith, z))

  pub placed :
      (s : Nodes) (root : ℕ) (f : Frame) (fs : List Frame) (t : Tree)
      → At s sent root above (f ∷ fs) t
      → s.parent (top sent t) ≡ f.at
      → s.red sent ≡ false
      → (top sent t == top sent f.sibling) ≡ false
      → Place s root f fs t
  unfolding count_above
  placed s root f fs t here x_up black apart =
      let zn = here.clear.no_null in
      let zr = root-count s sent root above _ f fs here.rep_above in
      let r = here.rep_above in
      let xn = top-null sent t sent_null (omega (arith, zn)) in
      record {
        x_null = xn;
        x_root =
            tops_differ root t
              (hit-zero sent root (
                hit-ne sent root (
                  tell_apart (λ z. count_above z (f ∷ fs)) sent root
                    (omega (arith, here.clear.no_sent)) zr)))
              (omega (arith, zr, here.clear.once root));
        x_red = red-top s sent f.at t black here.rep;
        run =
            round-run s root sent (top sent t) f.at (top sent f.sibling) f.side xn x_up
              (hit-away null f.at (omega (arith, zn)))
              (side_of s sent f.at (top sent t) f.side f.sibling r.2 r.3 apart) r.3;
      }

  pub sibling_apart :
      (s : Nodes) (root : ℕ) (f : Frame) (fs : List Frame) (t : Tree) (d : Side) (c : Bool)
      (a : Tree) (q : ℕ) (b : Tree)
      → At s sent root above (f ∷ fs) t
      → f.sibling ≡ join d c a q b
      → (top sent t == top sent f.sibling) ≡ false
  unfolding count_above
  sibling_apart s root f fs t d c a q b here e =
      let cj = λ (z : ℕ). ap (count z) e ∙ count-join z d c a q b in
      let sq = hit-zero sent q (omega (arith, here.clear.no_sent, cj sent)) in
      rw (e, top-join sent d c a q b)
        (tops_differ q t sq (omega (arith, here.clear.once q, cj q, hit_self q)))
