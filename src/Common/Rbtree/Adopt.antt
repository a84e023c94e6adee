-- ===== src/Common/Rbtree/Adopt.antt =====
-- code/common/rbtree.c: the tree that a rotation gives to another parent.
use headquarter.Base.{ℕ, ◌≡◌, refl, false, ◌==◌, if◌then◌else◌, ok, arith}
use headquarter.Common.Rbtree.{
  Side, flip, Nodes, null, rotate, replace_child, load_parent, load_child, store_child,
  store_parent,
}
use headquarter.Common.Rbtree.Tree.{
  ==_self, Tree, leaf, node, count, hit-zero, hit-away, Rep, Same, top,
}
use headquarter.Common.Rbtree.Same.{Rep-Same, set_child, set_parent, set_parent-Same}
use headquarter.Common.Rbtree.Replace.{Clear}

pub record Adopted (s : Nodes) (sent par : ℕ) (t : Tree) : Type 0 where
  pub nodes : Nodes
  pub run : (if top sent t == sent then ok s else store_parent s (top sent t) par) ≡ ok nodes
  pub rep : Rep nodes sent par t
  pub keys : nodes.key ≡ s.key
  pub children : nodes.child ≡ s.child
  pub reds : nodes.red ≡ s.red
  pub same : (q : ℕ) → count q t ≡ 0 → Same s nodes q

pub adopted :
    (s : Nodes) (sent par par' : ℕ) (t : Tree)
    → Clear sent (λ q. count q t)
    → Rep s sent par t
    → Adopted s sent par' t
unfolding store_parent count
adopted s sent par par' leaf clear r = record {
  nodes = s;
  run = rw (==_self sent) refl;
  rep = tt;
  keys = refl;
  children = refl;
  reds = refl;
  same = λ q k. (λ side. refl, refl, refl);
}
adopted s sent par par' (node c l p t) clear ((h1, h2, h3, h4), rl, rr) =
    let s' : Nodes = set_parent s p par' in
    let ns = hit-away sent p (omega (arith, clear.no_sent)) in
    let nn = hit-away null p (omega (arith, clear.no_null)) in
    record {
      nodes = s';
      run = rw (ns, nn) refl;
      rep = (
        (rw (==_self p) refl, h2, h3, h4),
        Rep-Same s s' sent l p
            (λ q k. set_parent-Same s p par' q (hit-zero q p (omega (arith, k, clear.once q)))) rl,
        Rep-Same s s' sent t p
            (λ q k. set_parent-Same s p par' q (hit-zero q p (omega (arith, k, clear.once q)))) rr,
      );
      keys = refl;
      children = refl;
      reds = refl;
      same = λ q k. set_parent-Same s p par' q (hit-zero q p (omega (arith, k)));
    }

pub rotate-run :
    (s s2 s5 : Nodes) (side : Side) (sent root p q m par root' : ℕ)
    → (p == null) ≡ false
    → s.child (flip side) p ≡ q
    → (q == null) ≡ false
    → s.child side q ≡ m
    → (if m == sent
        then ok (set_child s (flip side) p m)
        else store_parent (set_child s (flip side) p m) m p)
      ≡ ok s2
    → s2.parent p ≡ par
    → replace_child (set_parent (set_child s2 side q p) q par) root p q ≡ ok (s5, root')
    → rotate side s root sent p ≡ ok (set_parent s5 p q, root')
unfolding rotate load_parent load_child store_child store_parent
rotate-run s s2 s5 side sent root p q m par root' pn h1 qn h2 h3 h4 h5 =
    rw (pn, h1, qn, h2, h3, h4, h5) refl
