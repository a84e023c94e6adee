-- ===== src/Common/Rbtree/Repair.antt =====
-- code/common/rbtree.c: the loop of rbtree_delete from any node below which a black one is missing.
use headquarter.Base.{
  ℕ, zero, suc, ◌<◌, ◌≡◌, refl, sym, ap, ◌∙◌, true, false, List, [], ◌∷◌, ◌==◌, Bool-cases, inl,
  inr, ◌>>=◌, length, arith,
}
use headquarter.Common.Rbtree.{left, Nodes, null}
use headquarter.Common.Rbtree.Tree.{
  ==_self, Tree, leaf, node, join, Frame, plug, count-join, hit-away, join-Rep, top, top-join, up,
}
use headquarter.Common.Rbtree.Focus.{At}
use headquarter.Common.Rbtree.Zip.{At-up}
use headquarter.Common.Rbtree.Shape.{
  is_red, black_height, RedBlack, RedBlackAbove, join-RedBlack, black_height-join,
}
use headquarter.Common.Rbtree.Round.{top-null}
use headquarter.Common.Rbtree.Delete.{lift_sibling, delete_round, delete_loop}
use headquarter.Common.Rbtree.Finish.{Repaired, blacken, finished, finish-root}
use headquarter.Common.Rbtree.Sibling.{mended, as_join}
use headquarter.Common.Rbtree.RedSibling.{black_join, blacken-join, ends_red, red_mended}
use headquarter.Common.Rbtree.Nearby.{
  loop-run, black_run, RedBlack-black, and_left, suc_if, placed, sibling_apart,
}

module _ (sent above : ℕ) (sent_null : (sent == null) ≡ false) where
  -- At a red node or at the root.
  ended :
      (n : ℕ) (fs : List Frame) (s : Nodes) (root : ℕ) (t : Tree)
      → At s sent root above fs t
      → s.red sent ≡ false
      → RedBlack (blacken t)
      → RedBlackAbove (black_height (blacken t)) fs
      → (top sent t == root) ≡ true
      → Repaired s sent above (delete_loop (suc n) s root sent (top sent t)) (plug fs t)
  ended n fs s root t here black shape outside e =
      finished s sent root above fs t (delete_loop (suc n) s root sent (top sent t)) here shape
        outside black
        (finish-root s sent root above n (top sent t)
          (top-null sent t sent_null (omega (arith, here.clear.no_null))) e)

  red_end :
      (n : ℕ) (f : Frame) (fs : List Frame) (s : Nodes) (root : ℕ) (t : Tree)
      → At s sent root above (f ∷ fs) t
      → s.red sent ≡ false
      → RedBlack (blacken t)
      → RedBlackAbove (suc (black_height t)) (f ∷ fs)
      → is_red t ≡ true
      → Repaired s sent above (delete_loop (suc n) s root sent (top sent t)) (plug (f ∷ fs) t)
  unfolding black_height
  red_end n f fs s root leaf here black shape outside k = cc
  red_end n f fs s root (node false a p b) here black shape outside k = cc
  red_end n f fs s root (node true a p b) here black shape outside k =
      ends_red s sent root above f fs left a p b n here shape outside black

  -- With a black sibling; `again` is the loop one frame higher.
  black_sibling :
      (n : ℕ) (f : Frame) (fs : List Frame) (s : Nodes) (root : ℕ) (t : Tree)
      → At s sent root above (f ∷ fs) t
      → s.parent (top sent t) ≡ f.at
      → s.red sent ≡ false
      → RedBlack (blacken t)
      → RedBlackAbove (suc (black_height t)) (f ∷ fs)
      → is_red t ≡ false
      → is_red f.sibling ≡ false
      → ((s' : Nodes) (t' : Tree)
          → At s' sent root above fs t'
          → s'.parent (top sent t') ≡ up above fs
          → s'.red sent ≡ false
          → RedBlack (blacken t')
          → RedBlackAbove (suc (black_height t')) fs
          → Repaired s' sent above (delete_loop (suc n) s' root sent (top sent t')) (plug fs t'))
      → Repaired s sent above (delete_loop (suc (suc n)) s root sent (top sent t)) (plug (f ∷ fs) t)
  black_sibling n f fs s root t here x_up black shape outside k h again =
      let (a, q, b, e) = black_join f.side f.sibling (black_height t) h (sym outside.0) in
      let at =
        placed sent above sent_null s root f fs t here x_up black
          (sibling_apart sent above sent_null s root f fs t f.side false a q b here e) in
      let lifted = rw e at (At-up s sent root above f fs t here) in
      let parts = join-RedBlack f.side false a q b (rw e at outside.3) in
      let sib_h : suc (black_height t) ≡ black_height (join f.side false a q b) =
        rw e at outside.0 in
      let ah : black_height a ≡ black_height t =
        omega (arith, sib_h, black_height-join f.side false a q b parts.0) in
      let rep_q = join-Rep s sent f.side false a q b f.at (rw e at here.rep_above.4) in
      let qn = hit-away null q (
        omega (
          arith,
          lifted.clear.no_null,
          count-join null f.side f.colour t f.at (join f.side false a q b),
          count-join null f.side false a q b,
        )) in
      let t' : Tree = join f.side f.colour t f.at (join f.side true a q b) in
      let same_h : black_height t ≡ black_height (join f.side true a q b) =
        sym ah ∙ sym (black_height-join f.side true a q b parts.0) in
      let outside' : RedBlackAbove (suc (black_height t')) fs =
        rw
          (
            black_height-join f.side f.colour t f.at (join f.side true a q b) same_h,
            suc_if f.colour (black_height t) (suc (black_height t)),
          )
          outside.4 in
      let done =
        mended s sent root above fs f.side f.colour t f.at sent_null black at.x_null x_up k
          (RedBlack-black t k shape) outside.2 outside.4 n a b q lifted parts.3 parts.4 parts.0 ah
          (λ s' here' shape' black'.
            rw (top-join sent f.side f.colour t f.at (join f.side true a q b)) at (
              again s' t' here'
                (rw (top-join sent f.side f.colour t f.at (join f.side true a q b))
                  (join-Rep s' sent f.side f.colour t f.at (join f.side true a q b) _ here'.rep).0)
                black' (rw (blacken-join f.side f.colour t f.at (join f.side true a q b)) shape')
                outside')) in
      let skip = black_run f.side s root sent (top sent t) q qn rep_q.1 in
      let round : delete_round s root sent (top sent t)
          ≡ lift_sibling f.side s root sent (top sent t) q =
        at.run ∙ (rw (e, top-join sent f.side false a q b, skip) refl) in
      let start =
        loop-run (suc n) s root sent (top sent t) at.x_root at.x_null (at.x_red ∙ k)
        ∙ ap (λ o. o >>= (λ (s', root', x'). delete_loop (suc n) s' root' sent x')) round in
      rw (start, e) done

  -- With a red sibling.
  red_sibling :
      (n : ℕ) (f : Frame) (fs : List Frame) (s : Nodes) (root : ℕ) (t : Tree)
      → At s sent root above (f ∷ fs) t
      → s.parent (top sent t) ≡ f.at
      → s.red sent ≡ false
      → RedBlack (blacken t)
      → RedBlackAbove (suc (black_height t)) (f ∷ fs)
      → is_red t ≡ false
      → is_red f.sibling ≡ true
      → Repaired s sent above (delete_loop (suc (suc n)) s root sent (top sent t)) (plug (f ∷ fs) t)
  red_sibling n f fs s root t here x_up black shape outside k h =
      let (a, q, b, e) = as_join f.side f.sibling h in
      let at =
        placed sent above sent_null s root f fs t here x_up black
          (sibling_apart sent above sent_null s root f fs t f.side true a q b here e) in
      let fc : f.colour ≡ false = and_left f.colour (rw h at outside.1) in
      let parts = join-RedBlack f.side true a q b (rw e at outside.3) in
      let sib_h : suc (black_height t) ≡ black_height (join f.side true a q b) =
        rw e at outside.0 in
      let ah : black_height a ≡ suc (black_height t) =
        sym (sib_h ∙ black_height-join f.side true a q b parts.0) in
      let (n', q', far', e') = black_join f.side a (black_height t) parts.1 ah in
      let lifted = rw (fc, e, e') at (At-up s sent root above f fs t here) in
      let done =
        red_mended s sent root above fs f.side t f.at sent_null black at.x_null x_up k
          (RedBlack-black t k shape) (rw fc at outside.4) n n' far' b q' q lifted
          (rw (e, e') at outside.3) (rw e' at ah) in
      let start =
        loop-run (suc n) s root sent (top sent t) at.x_root at.x_null (at.x_red ∙ k)
        ∙ ap (λ o. o >>= (λ (s', root', x'). delete_loop (suc n) s' root' sent x')) at.run in
      rw (start, fc, e, top-join sent f.side true a q b, e') done

  -- With more fuel than frames the loop ends with a red-black tree.
  pub repaired :
      (n : ℕ) (fs : List Frame) (s : Nodes) (root : ℕ) (t : Tree)
      → At s sent root above fs t
      → s.parent (top sent t) ≡ up above fs
      → s.red sent ≡ false
      → RedBlack (blacken t)
      → RedBlackAbove (suc (black_height t)) fs
      → length fs < n
      → Repaired s sent above (delete_loop n s root sent (top sent t)) (plug fs t)
  repaired zero fs s root t here x_up black shape outside enough = absurd (omega (arith, enough))
  repaired (suc n) [] s root t here x_up black shape outside enough =
      let e : root ≡ top sent t = here.rep_above in
      ended n [] s root t here black shape tt (rw e (==_self (top sent t)))
  repaired (suc zero) (f ∷ fs) s root t here x_up black shape outside enough =
      absurd (omega (arith, enough))
  repaired (suc (suc n)) (f ∷ fs) s root t here x_up black shape outside enough =
      elim (Bool-cases (is_red t)) [
        | inl k ↦ red_end (suc n) f fs s root t here black shape outside k
        | inr k ↦ elim (Bool-cases (is_red f.sibling)) [
          | inl h ↦ red_sibling n f fs s root t here x_up black shape outside k h
          | inr h ↦
              black_sibling n f fs s root t here x_up black shape outside k h
                (λ s' t' h1 h2 h3 h4 h5.
                  repaired (suc n) fs s' root t' h1 h2 h3 h4 h5 (omega (arith, enough)))
        ]
      ]

-- The loop of rbtree_delete, started at the tree `t` below the frames `fs`: in memory is the whole tree,
-- the root of `t`, or the sentinel for an empty one, has the lowest frame as its parent, and every way
-- down through `t` lacks one black node, while all else is a red-black tree, a red root of `t` aside.
-- With more fuel than frames the loop ends without a fault; the nodes in memory are then a red-black tree
-- with a black root and the same nodes in the same order, and the sentinel and all keys are as before.
pub delete_loop-Repaired :
    (n : ℕ) (s : Nodes) (sent root above : ℕ) (fs : List Frame) (t : Tree)
    → (sent == null) ≡ false
    → s.red sent ≡ false
    → At s sent root above fs t
    → s.parent (top sent t) ≡ up above fs
    → RedBlack (blacken t)
    → RedBlackAbove (suc (black_height t)) fs
    → length fs < n
    → Repaired s sent above (delete_loop n s root sent (top sent t)) (plug fs t)
delete_loop-Repaired n s sent root above fs t sn black here x_up shape outside enough =
    repaired sent above sn n fs s root t here x_up black shape outside enough
