-- ===== src/Common/Rbtree/Restore.antt =====
-- code/common/rbtree.c: the two cases of the loop of rbtree_insert.
use headquarter.Base.{
  ℕ, ◌+◌, ◌≡◌, refl, ◌∙◌, Bool, true, false, List, ◌∷◌, ◌==◌, Outcome, ok, arith,
}
use headquarter.Common.Rbtree.{
  Side, flip, Nodes, null, load_parent, load_child, store_red, rotate, turn_down, restore,
}
use headquarter.Common.Rbtree.Tree.{
  ==_self, Tree, join, Frame, count, count_above, count-join, hit, hit_self, hit-zero, hit-away,
  join-Rep, Same, top-away, top-join, up,
}
use headquarter.Common.Rbtree.Same.{set_red, set_red-Same, Same-trans}
use headquarter.Common.Rbtree.Focus.{At, Becomes}
use headquarter.Common.Rbtree.Rotate.{rotated}
use headquarter.Common.Rbtree.Zip.{At-up, At-down}
use headquarter.Common.Rbtree.Colour.{colour-top, colour-near}
use headquarter.Common.Rbtree.Order.{join-flip}

-- A round of the loop ends at the node `x`.
pub record Round (s : Nodes) (sent above : ℕ) (o : Outcome (Nodes × ℕ × ℕ)) (fs : List Frame)
    (t : Tree) (x : ℕ) : Type 0 where
  pub nodes : Nodes
  pub new_root : ℕ
  pub run : o ≡ ok (nodes, new_root, x)
  pub here : At nodes sent new_root above fs t
  pub keys : nodes.key ≡ s.key
  pub same : (q : ℕ) → count_above q fs + count q t ≡ 0 → Same s nodes q

module _ (s : Nodes) (sent root above : ℕ) (fs : List Frame) (d : Side) where
  module _ (e : Side) (ct cp cg : Bool) (l r b u : Tree) (x p g : ℕ) where
    abbrev pub Line : Tree
    Line = join d cg (join d cp (join e ct l x r) p b) g u

    abbrev pub Turned : Tree
    Turned = join d false (join e ct l x r) p (join d true b g u)

    counted :
        (q : ℕ)
        → count q Line ≡ hit q x + hit q p + hit q g + count q l + count q r + count q b + count q u
    counted q = omega (
      arith,
      count-join q d cg (join d cp (join e ct l x r) p b) g u,
      count-join q d cp (join e ct l x r) p b,
      count-join q e ct l x r,
    )

    counted_after :
        (q : ℕ)
        → count q Turned
          ≡ hit q x + hit q p + hit q g + count q l + count q r + count q b + count q u
    counted_after q = omega (
      arith,
      count-join q d false (join e ct l x r) p (join d true b g u),
      count-join q d true b g u,
      count-join q e ct l x r,
    )

    -- With its parent and grandparent on one line, a node's parent comes to the top, black, and the
    -- grandparent goes below it, red.
    pub turned_down :
        At s sent root above fs Line
        → Becomes s sent above (turn_down (flip d) s root sent x) fs Turned
    unfolding turn_down load_parent store_red
    turned_down here =
        let s1 : Nodes = set_red s p false in
        let s2 : Nodes = set_red s1 g true in
        let t : Tree = join e ct l x r in
        let at_g = join-Rep s sent d cg (join d cp t p b) g u (up above fs) here.rep in
        let at_p = join-Rep s sent d cp t p b g at_g.4 in
        let at_x = join-Rep s sent e ct l x r p at_p.4 in
        let zn : hit null x + hit null p + hit null g ≡ 0 =
          omega (arith, here.clear.no_null, counted null) in
        let black = colour-near s sent root above false fs d d cg cp t b u p g here in
        let red = colour-top s1 sent root above true fs d cg (join d false t p b) g u black in
        let turn : Becomes s2 sent above (rotate (flip d) s2 root sent g) fs Turned =
          rw (join-flip d true u g b, join-flip d false (join d true b g u) p t) at
            (rotated s2 sent root above fs (flip d) true false u b t g p
              (rw (join-flip d false b p t, join-flip d true u g (join d false t p b)) red)) in
        record {
          nodes = turn.nodes;
          new_root = turn.new_root;
          run =
              rw
                (
                  hit-away null x (omega (arith, zn)),
                  at_x.0,
                  hit-away null p (omega (arith, zn)),
                  at_p.0,
                  hit-away null g (omega (arith, zn)),
                )
                turn.run;
          here = turn.here;
          keys = turn.keys;
          same = λ q k.
              Same-trans s s2 turn.nodes q
                (Same-trans s s1 s2 q
                  (set_red-Same s p q false (hit-zero q p (omega (arith, k, counted_after q))))
                  (set_red-Same s1 g q true (hit-zero q g (omega (arith, k, counted_after q)))))
                (turn.same q k);
        }

    -- The node is on the outer side.
    pub restored-outer :
        (x == sent) ≡ false
        → At s sent root above fs Line
        → Round s sent above (restore d s root sent x p) fs Turned x
    unfolding restore load_child
    restored-outer xs here =
        let turn = turned_down here in
        let t : Tree = join e ct l x r in
        let at_g = join-Rep s sent d cg (join d cp t p b) g u (up above fs) here.rep in
        let at_p = join-Rep s sent d cp t p b g at_g.4 in
        let xb = top-away sent x b xs (omega (arith, here.clear.once x, counted x, hit_self x)) in
        let pn = hit-away null p (omega (arith, here.clear.no_null, counted null)) in
        record {
          nodes = turn.nodes;
          new_root = turn.new_root;
          run = rw (pn, at_p.3, xb, turn.run) refl;
          here = turn.here;
          keys = turn.keys;
          same = turn.same;
        }

-- The node is on the inner side, and goes to the top.
pub restored-inner :
    (s : Nodes) (sent root above : ℕ) (fs : List Frame) (d : Side) (ct cp cg : Bool)
    (b a c u : Tree) (x p g : ℕ)
    → At s sent root above fs (join d cg (join d cp b p (join d ct a x c)) g u)
    → Round s sent above
        (restore d s root sent x p)
        fs
        (join d false (join d cp b p a) x (join d true c g u))
        p
unfolding restore load_child count_above
restored-inner s sent root above fs d ct cp cg b a c u x p g here =
    let f : Frame = record { side = d; colour = cg; at = g; sibling = u } in
    let low = At-down s sent root above f fs (join d cp b p (join d ct a x c)) here in
    let first = rotated s sent root above (f ∷ fs) d cp ct b a c p x low in
    let line =
      At-up first.nodes sent first.new_root above f fs (join d ct (join d cp b p a) x c)
        first.here in
    let turn =
      turned_down first.nodes sent first.new_root above fs d d cp ct cg b a c u p x g line in
    let at_p = join-Rep s sent d cp b p (join d ct a x c) g low.rep in
    let zn = count-join null d cp b p (join d ct a x c) in
    let pn = hit-away null p (omega (arith, low.clear.no_null, zn)) in
    let e1 = λ (q : ℕ). count-join q d false (join d cp b p a) x (join d true c g u) in
    let e2 = λ (q : ℕ). count-join q d true c g u in
    let e3 = λ (q : ℕ). count-join q d ct (join d cp b p a) x c in
    record {
      nodes = turn.nodes;
      new_root = turn.new_root;
      run = rw (pn, at_p.3, top-join sent d ct a x c, ==_self x, first.run, turn.run) refl;
      here = turn.here;
      keys = turn.keys ∙ first.keys;
      same = λ q k.
          Same-trans s first.nodes turn.nodes q (first.same q (omega (arith, k, e1 q, e2 q, e3 q)))
            (turn.same q k);
    }
