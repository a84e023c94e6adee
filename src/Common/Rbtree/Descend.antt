-- ===== src/Common/Rbtree/Descend.antt =====
-- code/common/rbtree.c: the way down of rbtree_insert_core.
use headquarter.Base.{
  ℕ, zero, suc, ◌+◌, ◌≤◌, ◌≡◌, refl, sym, ap, ◌∙◌, Bool, true, false, List, [], ◌∷◌, ◌==◌, ◌&&◌,
  ltb, if◌then◌else◌, Bool-cases, inl, inr, Outcome, ok, length, max, arith,
}
use headquarter.Common.Rbtree.{
  Side, left, right, Nodes, null, load_key, load_child, attach, insert_core,
}
use headquarter.Common.Rbtree.Tree.{
  ==_self, Tree, leaf, node, Frame, plug, count, count_above, hit-away, hit-ne, top,
}
use headquarter.Common.Rbtree.Focus.{At}
use headquarter.Common.Rbtree.Zip.{At-down}
use headquarter.Common.Rbtree.Shape.{is_red, black_height, RedBlack, RedBlackAbove, and_flip, depth}
use headquarter.Common.Rbtree.Order.{insert_leaf}
use headquarter.Common.Rbtree.Attach.{Fresh, attached, attached-Same, At-attached}

-- A run of rbtree_insert_core that hangs `n` as a red leaf below some frames, and makes the tree `t`.
pub record Hung (s : Nodes) (sent root above n : ℕ) (o : Outcome Nodes) (bound : ℕ) (t : Tree)
    : Type 0 where
  pub nodes : Nodes
  pub frames : List Frame
  pub run : o ≡ ok nodes
  pub here : At nodes sent root above frames (node true leaf n leaf)
  pub outside : RedBlackAbove 0 frames
  pub whole : plug frames (node true leaf n leaf) ≡ t
  pub keys : nodes.key ≡ s.key
  pub black : nodes.red sent ≡ s.red sent
  pub within : length frames ≤ bound

module _ (s : Nodes) (sent root above n : ℕ) (fresh : Fresh sent n) where
  -- What rbtree_insert_core does with the child `m` of `p`.
  abbrev edge : ℕ → Side → ℕ → ℕ → Outcome Nodes
  edge fuel d p m = elim (m == sent) [
    | true ↦ attach s sent d p n
    | false ↦ insert_core fuel s m sent n
  ]

  edge-leaf : (fuel : ℕ) (d : Side) (p : ℕ) → edge fuel d p sent ≡ attach s sent d p n
  edge-leaf fuel d p = rw (edge, ==_self sent) refl

  edge-node :
      (fuel : ℕ) (d : Side) (p m : ℕ)
      → (m == sent) ≡ false
      → edge fuel d p m ≡ insert_core fuel s m sent n
  edge-node fuel d p m e = rw (edge, e) refl

  core-run :
      (fuel p : ℕ) (d : Side) (m : ℕ)
      → (p == null) ≡ false
      → (if ltb (s.key n) (s.key p) then left else right) ≡ d
      → s.child d p ≡ m
      → insert_core (suc fuel) s p sent n ≡ edge fuel d p m
  unfolding insert_core load_key load_child
  core-run fuel p d m pn h1 h2 =
      rw (insert_core, fresh.not_null, pn)
        (ap (λ d'. edge fuel d' p (s.child d' p)) h1 ∙ ap (edge fuel d p) h2)

  loosen :
      (o : Outcome Nodes) (i j : ℕ) (t : Tree)
      → i ≤ j
      → Hung s sent root above n o i t
      → Hung s sent root above n o j t
  loosen o i j t le h = record {
    nodes = h.nodes;
    frames = h.frames;
    run = h.run;
    here = h.here;
    outside = h.outside;
    whole = h.whole;
    keys = h.keys;
    black = h.black;
    within = omega (arith, h.within, le);
  }

  -- The key decides for one of the sides.
  core_step :
      (fuel bound : ℕ) (c : Bool) (a : Tree) (p : ℕ) (b : Tree) (fs : List Frame)
      → At s sent root above fs (node c a p b)
      → Hung s sent root above n
          (edge fuel left p (top sent a))
          bound
          (plug fs (node c (insert_leaf s.key n a) p b))
      → Hung s sent root above n
          (edge fuel right p (top sent b))
          bound
          (plug fs (node c a p (insert_leaf s.key n b)))
      → Hung s sent root above n
          (insert_core (suc fuel) s p sent n)
          bound
          (plug fs (insert_leaf s.key n (node c a p b)))
  unfolding count insert_leaf
  core_step fuel bound c a p b fs here on_left on_right =
      let pn = hit-away null p (omega (arith, here.clear.no_null)) in
      elim (Bool-cases (ltb (s.key n) (s.key p))) [
        | inl k ↦ rw (core-run fuel p left (top sent a) pn (rw k refl) here.rep.0.2, k) on_left
        | inr k ↦ rw (core-run fuel p right (top sent b) pn (rw k refl) here.rep.0.3, k) on_right
      ]

  enter :
      (fuel : ℕ) (t : Tree) (f : Frame) (fs : List Frame)
      → At s sent root above (f ∷ fs) t
      → count_above n (f ∷ fs) + count n t ≡ 0
      → RedBlack t
      → RedBlackAbove (black_height t) (f ∷ fs)
      → (is_red t && f.colour) ≡ false
      → depth t ≤ fuel
      → Hung s sent root above n
          (edge fuel f.side f.at (top sent t))
          (suc (length fs) + depth t)
          (plug (f ∷ fs) (insert_leaf s.key n t))
  unfolding depth insert_leaf black_height count count_above
  enter fuel leaf f fs here apart shape outside hole enough =
      let ap0 : count_above n (f ∷ fs) ≡ 0 = omega (arith, apart) in
      let end = At-attached s sent root above f fs n fresh ap0 here in
      record {
        nodes = attached s sent root above f fs n fresh ap0;
        frames = f ∷ fs;
        run = edge-leaf fuel f.side f.at ∙ end.0;
        here = end.1;
        outside = outside;
        whole = refl;
        keys = refl;
        black =
            (attached-Same s sent root above f fs n fresh ap0 sent (hit-ne sent n fresh.not_sent)
              (omega (arith, here.clear.no_sent))).2;
        within = omega arith;
      }
  enter zero (node c a p b) f fs here apart shape outside hole enough =
      absurd (omega (arith, enough))
  enter (suc fuel) (node c a p b) f fs here apart shape outside hole enough =
      let on_left : Frame = record { side = left; colour = c; at = p; sibling = b } in
      let on_right : Frame = record { side = right; colour = c; at = p; sibling = a } in
      let go_left =
        enter fuel a on_left (f ∷ fs) (At-down s sent root above on_left (f ∷ fs) a here)
          (omega (arith, apart)) shape.3 (shape.0, shape.2, hole, shape.4, outside)
          (and_flip c (is_red a) shape.1) (omega (arith, enough)) in
      let go_right =
        enter fuel b on_right (f ∷ fs) (At-down s sent root above on_right (f ∷ fs) b here)
          (omega (arith, apart)) shape.4
          (sym shape.0, shape.1, hole, shape.3, rw shape.0 at outside)
          (and_flip c (is_red b) shape.2) (omega (arith, enough)) in
      rw (edge-node (suc fuel) f.side f.at p (hit-away sent p (omega (arith, here.clear.no_sent))))
        (core_step fuel (suc (length fs) + suc (max (depth a) (depth b))) c a p b (f ∷ fs) here
          (loosen _ _ _ _ (omega arith) go_left) (loosen _ _ _ _ (omega arith) go_right))

  -- From the root of a tree that is not empty.
  pub entered :
      (fuel : ℕ) (a : Tree) (p : ℕ) (b : Tree)
      → At s sent root above [] (node false a p b)
      → count n (node false a p b) ≡ 0
      → RedBlack (node false a p b)
      → depth (node false a p b) ≤ fuel
      → Hung s sent root above n
          (insert_core fuel s p sent n)
          (depth (node false a p b))
          (insert_leaf s.key n (node false a p b))
  unfolding depth count count_above
  entered zero a p b here apart shape enough = absurd (omega (arith, enough))
  entered (suc fuel) a p b here apart shape enough =
      let on_left : Frame = record { side = left; colour = false; at = p; sibling = b } in
      let on_right : Frame = record { side = right; colour = false; at = p; sibling = a } in
      core_step fuel (suc (max (depth a) (depth b))) false a p b [] here
        (loosen _ _ _ _ (omega arith) (
          enter fuel a on_left [] (At-down s sent root above on_left [] a here)
            (omega (arith, apart)) shape.3 (shape.0, shape.2, refl, shape.4, tt)
            (and_flip false (is_red a) shape.1) (omega (arith, enough))))
        (loosen _ _ _ _ (omega arith) (
          enter fuel b on_right [] (At-down s sent root above on_right [] b here)
            (omega (arith, apart)) shape.4 (sym shape.0, shape.1, refl, shape.3, tt)
            (and_flip false (is_red b) shape.2) (omega (arith, enough))))
