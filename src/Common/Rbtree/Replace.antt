-- ===== src/Common/Rbtree/Replace.antt =====
-- code/common/rbtree.c: how the rotations hang a node in another's place.
use headquarter.Base.{
  ℕ, ◌+◌, ◌≤◌, ◌<◌, ◌≡◌, refl, ◌∙◌, false, List, [], ◌∷◌, ◌==◌, if◌then◌else◌, ok, arith,
}
use headquarter.Common.Rbtree.{
  Side, left, right, flip, Nodes, null, replace_child, load_parent, load_child, store_child,
}
use headquarter.Common.Rbtree.Tree.{
  ==_self, Tree, Frame, count_above, hit, hit_self, hit-zero, hit-away, top-away, RepAbove, Same,
  top, up,
}
use headquarter.Common.Rbtree.Same.{
  Rep-Same, RepAbove-Same, set_child, set_child-Same, write_side-same, write_side-flip,
}

-- The frames hold no address twice, and neither the null pointer nor the sentinel.
pub record Clear (sent : ℕ) (total : ℕ → ℕ) : Type 0 where
  pub once : (q : ℕ) → total q ≤ 1
  pub no_null : total null ≡ 0
  pub no_sent : total sent ≡ 0

pub root-count :
    (s : Nodes) (sent root above p : ℕ) (f : Frame) (fs : List Frame)
    → RepAbove s sent root above p (f ∷ fs)
    → 0 < count_above root (f ∷ fs)
unfolding count_above
root-count s sent root above p f [] r = rw (r.5) omega (arith, hit_self f.at)
root-count s sent root above p f (g ∷ fs) r =
    let k = root-count s sent root above f.at g fs r.5 in omega (arith, k)

pub side_of :
    (s : Nodes) (sent at node : ℕ) (side : Side) (t : Tree)
    → s.child side at ≡ node
    → s.child (flip side) at ≡ top sent t
    → (node == top sent t) ≡ false
    → (if node == s.child left at then left else right) ≡ side
side_of s sent at node left t h k n = rw (h, ==_self node) refl
side_of s sent at node right t h k n = rw (k, n) refl

pub record Replaced (s : Nodes) (sent root above node temp : ℕ) (fs : List Frame) : Type 0 where
  pub nodes : Nodes
  pub new_root : ℕ
  pub run : replace_child s root node temp ≡ ok (nodes, new_root)
  pub rep : RepAbove nodes sent new_root above temp fs
  pub keys : nodes.key ≡ s.key
  pub parents : nodes.parent ≡ s.parent
  pub reds : nodes.red ≡ s.red
  pub same : (q : ℕ) → count_above q fs ≡ 0 → Same s nodes q

module _ (s : Nodes) (sent root above node temp : ℕ) (node_null : (node == null) ≡ false) where
  pub replaced :
      (fs : List Frame)
      → RepAbove s sent root above node fs
      → s.parent node ≡ up above fs
      → (node == sent) ≡ false
      → Clear sent (λ q. hit q node + count_above q fs)
      → Replaced s sent root above node temp fs
  unfolding replace_child load_parent load_child store_child count_above
  replaced [] r e n clear = record {
    nodes = s;
    new_root = temp;
    run = rw (r, ==_self node) refl;
    rep = refl;
    keys = refl;
    parents = refl;
    reds = refl;
    same = λ q k. (λ side. refl, refl, refl);
  }
  replaced (f ∷ fs) r e n clear =
      let z = clear.once node in
      let zn = clear.no_null in
      let n1 = hit-away null f.at (omega (arith, zn)) in
      let zr = root-count s sent root above node f fs r in
      let n2 = hit-away root node (omega (arith, zr, clear.once root)) in
      let n3 = top-away sent node f.sibling n (omega (arith, z, hit_self node)) in
      let found = side_of s sent f.at node f.side f.sibling r.2 r.3 n3 in
      record {
        nodes = set_child s f.side f.at temp;
        new_root = root;
        run = rw (n2, node_null, e, n1, found) refl;
        rep = (
          r.0,
          r.1,
          write_side-same s.child f.side f.at temp,
          write_side-flip s.child f.side f.at temp f.at ∙ r.3,
          Rep-Same s (set_child s f.side f.at temp) sent f.sibling f.at
              (λ q k.
                set_child-Same s f.side f.at temp q
                  (hit-zero q f.at (omega (arith, k, clear.once q))))
              r.4,
          RepAbove-Same s (set_child s f.side f.at temp) sent root above f.at fs
              (λ q k.
                set_child-Same s f.side f.at temp q
                  (hit-zero q f.at (omega (arith, k, clear.once q))))
              r.5,
        );
        keys = refl;
        parents = refl;
        reds = refl;
        same = λ q k. set_child-Same s f.side f.at temp q (hit-zero q f.at (omega (arith, k)));
      }
