-- ===== src/Common/Rbtree/Settle.antt =====
-- code/common/rbtree.c: the loop of rbtree_insert from any red node to its end.
use headquarter.Base.{
  ℕ, zero, suc, ◌<◌, ◌≡◌, refl, true, false, List, [], ◌∷◌, ◌==◌, Bool-cases, inl, inr, length,
  arith,
}
use headquarter.Common.Rbtree.{Side, Nodes, null, insert_loop}
use headquarter.Common.Rbtree.Tree.{Tree, join, Frame, plug}
use headquarter.Common.Rbtree.Focus.{At}
use headquarter.Common.Rbtree.Zip.{At-up, At-plug}
use headquarter.Common.Rbtree.Loop.{Settled, stopped_top, stopped, looped}
use headquarter.Common.Rbtree.Step.{step}
use headquarter.Common.Rbtree.Shape.{
  black_height, RedBlack, RedBlackAbove, is_red-join, RedBlack-plug,
}

module _ (sent above : ℕ) (sent_null : (sent == null) ≡ false) where
  -- Below a black parent.
  ends_black :
      (n : ℕ) (s : Nodes) (root : ℕ) (f : Frame) (fs : List Frame) (e : Side) (l r : Tree) (x : ℕ)
      → At s sent root above (f ∷ fs) (join e true l x r)
      → RedBlack (join e true l x r)
      → RedBlackAbove (black_height (join e true l x r)) (f ∷ fs)
      → s.red sent ≡ false
      → f.colour ≡ false
      → Settled s sent above (insert_loop (suc n) s root sent x) (plug (f ∷ fs) (join e true l x r))
  ends_black n s root f fs e l r x here shape outside black k = record {
    nodes = s;
    new_root = root;
    tree = plug (f ∷ fs) (join e true l x r);
    run = stopped s sent root above f fs e l r x n here k;
    here = At-plug s sent root above (f ∷ fs) (join e true l x r) here;
    shape =
        RedBlack-plug (f ∷ fs) (join e true l x r) outside shape (rw (is_red-join e true l x r) k);
    order = refl;
    keys = refl;
    black = black;
  }

  -- With more fuel than frames the loop ends, and the tree is red and black again, but for a red root.
  pub settled :
      (n : ℕ) (fs : List Frame) (s : Nodes) (root : ℕ) (e : Side) (l r : Tree) (x : ℕ)
      → At s sent root above fs (join e true l x r)
      → RedBlack (join e true l x r)
      → RedBlackAbove (black_height (join e true l x r)) fs
      → s.red sent ≡ false
      → length fs < n
      → Settled s sent above (insert_loop n s root sent x) (plug fs (join e true l x r))
  settled zero fs s root e l r x here shape outside black enough = absurd (omega (arith, enough))
  settled (suc n) [] s root e l r x here shape outside black enough = record {
    nodes = s;
    new_root = root;
    tree = join e true l x r;
    run = stopped_top s sent root above n e l r x here;
    here = here;
    shape = shape;
    order = refl;
    keys = refl;
    black = black;
  }
  settled (suc n) (f ∷ []) s root e l r x here shape outside black enough =
      elim (Bool-cases f.colour) [
        | inl k ↦ let bad : true ≡ false = rw k at outside.2 in cc
        | inr k ↦ ends_black n s root f [] e l r x here shape outside black k
      ]
  settled (suc zero) (f ∷ g ∷ gs) s root e l r x here shape outside black enough =
      absurd (omega (arith, enough))
  settled (suc (suc n)) (f ∷ g ∷ gs) s root e l r x here shape outside black enough =
      elim (Bool-cases f.colour) [
        | inl k ↦
            let t : Tree = join e true l x r in
            let lifted =
              At-up s sent root above g gs (join f.side f.colour t f.at f.sibling)
                (At-up s sent root above f (g ∷ gs) t here) in
            let next : RedBlackAbove (black_height t) (g ∷ gs) = rw k at outside.4 in
            let g_black : g.colour ≡ false = rw k at outside.2 in
            let done =
              step sent above sent_null s root black gs g.side g.colour f.at g.at f.sibling x n
                f.side e l r g.sibling
                (
                  shape,
                  outside.0,
                  rw k at outside.1,
                  outside.3,
                  next.0,
                  next.3,
                  rw g_black at next.4,
                )
                (rw k at lifted)
                (λ s' root' e' l' r' h1 h2 h3 h4.
                  settled (suc n) gs s' root' e' l' r' g.at h1 h2 h3 h4 (omega (arith, enough))) in
            rw (looped s sent root above f (g ∷ gs) e l r x (suc n) here k, k) done
        | inr k ↦ ends_black (suc n) s root f (g ∷ gs) e l r x here shape outside black k
      ]
