-- ===== src/Common/Rbtree/Round.antt =====
-- code/common/rbtree.c: one round of the loop of rbtree_insert.
use headquarter.Base.{
  ℕ, ◌≡◌, refl, ◌∙◌, Bool, true, false, List, ◌==◌, if◌then◌else◌, ok, ◌>>=◌, arith,
}
use headquarter.Common.Rbtree.{
  Side, left, right, flip, Nodes, null, load_parent, load_child, load_red, store_red, restore,
  recolour, insert_round,
}
use headquarter.Common.Rbtree.Tree.{
  Tree, leaf, node, join, Frame, count, count-join, hit_self, hit-zero, hit-away, join-Rep, Rep,
  top-away, top-join, top, up,
}
use headquarter.Common.Rbtree.Same.{set_red, set_red-Same, Same-trans}
use headquarter.Common.Rbtree.Replace.{side_of}
use headquarter.Common.Rbtree.Focus.{At}
use headquarter.Common.Rbtree.Colour.{colour-top, colour-near, colour-far}
use headquarter.Common.Rbtree.Restore.{Round, restored-outer, restored-inner}
use headquarter.Common.Rbtree.Shape.{is_red}
use headquarter.Common.Rbtree.Order.{join-flip}

pub red-top :
    (s : Nodes) (sent par : ℕ) (t : Tree)
    → s.red sent ≡ false
    → Rep s sent par t
    → s.red (top sent t) ≡ is_red t
red-top s sent par leaf black r = black
red-top s sent par (node c a p b) black r = r.0.1

pub top-null :
    (sent : ℕ) (t : Tree) → (sent == null) ≡ false → count null t ≡ 0 → (top sent t == null) ≡ false
unfolding count
top-null sent leaf n z = n
top-null sent (node c a p b) n z = hit-away null p (omega (arith, z))

round-run :
    (s : Nodes) (root sent x p g u : ℕ) (d : Side) (c : Bool)
    → (p == null) ≡ false
    → s.parent p ≡ g
    → (g == null) ≡ false
    → (if p == s.child left g then left else right) ≡ d
    → s.child (flip d) g ≡ u
    → (u == null) ≡ false
    → s.red u ≡ c
    → insert_round s root sent x p
      ≡ (if c then (recolour s p u g >>= (λ s'. ok (s', root, g))) else restore d s root sent x p)
unfolding insert_round load_parent load_child load_red
round-run s root sent x p g u d c pn h1 gn h2 h3 un h4 = rw (pn, h1, gn, h2, h3, un, h4) refl

module _ (s : Nodes) (sent root above : ℕ) (fs : List Frame) (sent_null : (sent == null) ≡ false)
    (black : s.red sent ≡ false) (d e : Side) (cg cp : Bool) (t b u : Tree) (x p g : ℕ) where
  abbrev Start : Tree
  Start = join d cg (join e cp t p b) g u

  started :
      At s sent root above fs Start
      → (p == sent) ≡ false
      → insert_round s root sent x p ≡ (
          if is_red u
          then (recolour s p (top sent u) g >>= (λ s'. ok (s', root, g)))
          else restore d s root sent x p)
  started here ps =
      let at_g = join-Rep s sent d cg (join e cp t p b) g u (up above fs) here.rep in
      let at_p = join-Rep s sent e cp t p b g at_g.4 in
      let e1 = λ (q : ℕ). count-join q d cg (join e cp t p b) g u in
      let e2 = λ (q : ℕ). count-join q e cp t p b in
      let zn = here.clear.no_null in
      let one = here.clear.once p in
      let near = at_g.2 ∙ top-join sent e cp t p b in
      let pu = top-away sent p u ps (omega (arith, one, e1 p, e2 p, hit_self p)) in
      round-run s root sent x p g (top sent u) d (is_red u)
        (hit-away null p (omega (arith, zn, e1 null, e2 null))) at_p.0
        (hit-away null g (omega (arith, zn, e1 null))) (side_of s sent g p d u near at_g.3 pu)
        at_g.3 (top-null sent u sent_null (omega (arith, zn, e1 null)))
        (red-top s sent g u black at_g.5)

module _ (s : Nodes) (sent root above : ℕ) (fs : List Frame) (sent_null : (sent == null) ≡ false)
    (black : s.red sent ≡ false) (d : Side) (cg cp : Bool) where
  -- A red uncle.
  pub recoloured :
      (e : Side) (t b l r : Tree) (x p g q : ℕ)
      → (p == sent) ≡ false
      → At s sent root above fs (join d cg (join e cp t p b) g (node true l q r))
      → Round s sent above
          (insert_round s root sent x p)
          fs
          (join d true (join e false t p b) g (node false l q r))
          g
  unfolding recolour store_red count
  recoloured e t b l r x p g q ps here =
      let u : Tree = node true l q r in
      let s1 : Nodes = set_red s p false in
      let s2 : Nodes = set_red s1 q false in
      let s3 : Nodes = set_red s2 g true in
      let e1 = λ (y : ℕ). count-join y d cg (join e cp t p b) g u in
      let e2 = λ (y : ℕ). count-join y e cp t p b in
      let e3 = λ (y : ℕ). count-join y d true (join e false t p b) g (node false l q r) in
      let e4 = λ (y : ℕ). count-join y e false t p b in
      let zn = here.clear.no_null in
      let pn = hit-away null p (omega (arith, zn, e1 null, e2 null)) in
      let qn = hit-away null q (omega (arith, zn, e1 null)) in
      let gn = hit-away null g (omega (arith, zn, e1 null)) in
      let h1 = colour-near s sent root above false fs d e cg cp t b u p g here in
      let h2 =
        colour-far s1 sent root above false fs d left cg true (join e false t p b) l r q g h1 in
      let h3 =
        colour-top s2 sent root above true fs d cg (join e false t p b) g (node false l q r) h2 in
      record {
        nodes = s3;
        new_root = root;
        run =
            started s sent root above fs sent_null black d e cg cp t b u x p g here ps
            ∙ (rw (pn, qn, gn) refl);
        here = h3;
        keys = refl;
        same = λ y k.
            Same-trans s s1 s3 y
              (set_red-Same s p y false (hit-zero y p (omega (arith, k, e3 y, e4 y))))
              (Same-trans s1 s2 s3 y
                (set_red-Same s1 q y false (hit-zero y q (omega (arith, k, e3 y))))
                (set_red-Same s2 g y true (hit-zero y g (omega (arith, k, e3 y)))));
      }

  -- A black uncle, and the node on the outer side.
  pub outer_turned :
      (e : Side) (ct : Bool) (l r b u : Tree) (x p g : ℕ)
      → (p == sent) ≡ false
      → (x == sent) ≡ false
      → is_red u ≡ false
      → At s sent root above fs (join d cg (join d cp (join e ct l x r) p b) g u)
      → Round s sent above
          (insert_round s root sent x p)
          fs
          (join d false (join e ct l x r) p (join d true b g u))
          x
  outer_turned e ct l r b u x p g ps xs k here =
      let turn = restored-outer s sent root above fs d e ct cp cg l r b u x p g xs here in
      record {
        nodes = turn.nodes;
        new_root = turn.new_root;
        run =
            started s sent root above fs sent_null black d d cg cp (join e ct l x r) b u x p g here
              ps
            ∙ (rw k turn.run);
        here = turn.here;
        keys = turn.keys;
        same = turn.same;
      }

  -- A black uncle, and the node on the inner side.
  pub inner_turned :
      (ct : Bool) (b a c u : Tree) (x p g : ℕ)
      → (p == sent) ≡ false
      → is_red u ≡ false
      → At s sent root above fs (join d cg (join (flip d) cp (join d ct a x c) p b) g u)
      → Round s sent above
          (insert_round s root sent x p)
          fs
          (join d false (join d cp b p a) x (join d true c g u))
          p
  inner_turned ct b a c u x p g ps k here =
      let flat = rw (join-flip d cp (join d ct a x c) p b) at here in
      let turn = restored-inner s sent root above fs d ct cp cg b a c u x p g flat in
      record {
        nodes = turn.nodes;
        new_root = turn.new_root;
        run =
            started s sent root above fs sent_null black d (flip d) cg cp (join d ct a x c) b u x p
              g here ps
            ∙ (rw k turn.run);
        here = turn.here;
        keys = turn.keys;
        same = turn.same;
      }
