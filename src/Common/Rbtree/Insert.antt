-- ===== src/Common/Rbtree/Insert.antt =====
-- code/common/rbtree.c: rbtree_insert on a whole tree.
use headquarter.Base.{
  ℕ, ◌<◌, ◌≡◌, refl, sym, ap, ◌∙◌, true, false, List, [], ◌∷◌, ◌==◌, Bool-cases, inl, inr, ok, ltb,
  arith,
}
use headquarter.Common.Rbtree.{
  left, right, Nodes, Rbtree, null, store_child, store_parent, store_red, insert_core, insert_loop,
  first_node, rbtree_insert,
}
use headquarter.Common.Rbtree.Tree.{
  ==_self, Tree, leaf, node, count, count_above, hit_le, hit-away, hit-zero, hit-ne,
}
use headquarter.Common.Rbtree.Same.{set_child, set_parent, set_red}
use headquarter.Common.Rbtree.Focus.{At}
use headquarter.Common.Rbtree.Colour.{colour-top}
use headquarter.Common.Rbtree.Shape.{is_red, black_height, RedBlack, depth}
use headquarter.Common.Rbtree.Order.{flatten, Sorted, place, place-Sorted, flatten-insert_leaf}
use headquarter.Common.Rbtree.Settle.{settled}
use headquarter.Common.Rbtree.Attach.{Fresh}
use headquarter.Common.Rbtree.Descend.{entered}

-- The nodes in memory are the red-black tree `t`, whose keys are in order.
pub record IsRbtree (s : Nodes) (tree : Rbtree) (t : Tree) : Type 0 where
  pub above : ℕ
  pub here : At s tree.sentinel tree.root above [] t
  pub sent_null : (tree.sentinel == null) ≡ false
  pub sent_black : s.red tree.sentinel ≡ false
  pub shape : RedBlack t
  pub root_black : is_red t ≡ false
  pub sorted : Sorted s.key (flatten t)

-- What rbtree_insert makes of a tree.
pub record Inserted (fuel : ℕ) (s : Nodes) (tree : Rbtree) (t : Tree) (n : ℕ) : Type 0 where
  pub nodes : Nodes
  pub root : ℕ
  pub tree' : Tree
  pub run : rbtree_insert fuel s tree n ≡ ok (nodes, record tree { root = root })
  pub whole : IsRbtree nodes (record tree { root = root }) tree'
  pub order : flatten tree' ≡ place s.key n (flatten t)
  pub keys : nodes.key ≡ s.key

module _ (s : Nodes) (tree : Rbtree) (n : ℕ) (fresh : Fresh tree.sentinel n) where
  first-Inserted : (fuel : ℕ) → IsRbtree s tree leaf → Inserted fuel s tree leaf n
  unfolding rbtree_insert first_node store_child store_parent store_red flatten count count_above
  first-Inserted fuel h =
      let sent = tree.sentinel in
      let s' : Nodes =
        set_red (set_parent (set_child (set_child s left n sent) right n sent) n null) n false in
      record {
        nodes = s';
        root = n;
        tree' = node false leaf n leaf;
        run = rw (fresh.not_null, h.here.rep_above, h.sent_null, ==_self sent) refl;
        whole = record {
          above = null;
          here = record {
            rep_above = refl;
            rep = (
              (rw (==_self n) refl, rw (==_self n) refl, rw (==_self n) refl, rw (==_self n) refl),
              tt,
              tt,
            );
            clear = record {
              once = λ q. omega (arith, hit_le q n);
              no_null = omega (arith, hit-ne null n fresh.not_null);
              no_sent = omega (arith, hit-ne sent n fresh.not_sent);
            };
          };
          sent_null = h.sent_null;
          sent_black = rw (hit-zero sent n (hit-ne sent n fresh.not_sent)) h.sent_black;
          shape = (refl, refl, refl, tt, tt);
          root_black = refl;
          sorted = (tt, tt);
        };
        order = refl;
        keys = refl;
      }

  place_nonempty : (ps : List ℕ) → (q : ℕ) × (qs : List ℕ) × (place s.key n ps ≡ q ∷ qs)
  place_nonempty [] = (n, [], refl)
  place_nonempty (p ∷ ps) = elim (Bool-cases (ltb (s.key n) (s.key p))) [
    | inl e ↦ (n, p ∷ ps, rw e refl)
    | inr e ↦ (p, place s.key n ps, rw e refl)
  ]

  -- The root is made black at the end.
  blackened :
      (fuel : ℕ) (t : Tree) (s1 s2 : Nodes) (above root : ℕ) (t2 : Tree)
      → IsRbtree s tree t
      → At s2 tree.sentinel root above [] t2
      → RedBlack t2
      → flatten t2 ≡ place s.key n (flatten t)
      → s2.key ≡ s.key
      → s2.red tree.sentinel ≡ false
      → (tree.root == null) ≡ false
      → (tree.root == tree.sentinel) ≡ false
      → insert_core fuel s tree.root tree.sentinel n ≡ ok s1
      → insert_loop fuel s1 tree.root tree.sentinel n ≡ ok (s2, root)
      → Inserted fuel s tree t n
  unfolding rbtree_insert store_red flatten count
  blackened fuel t s1 s2 above root leaf h here shape order keys black rn rs run1 run2 =
      let bad = sym (order ∙ (place_nonempty (flatten t)).2) in cc
  blackened fuel t s1 s2 above root (node c l p r) h here shape order keys black rn rs run1 run2 =
      let sent = tree.sentinel in
      let pn = hit-away null p (omega (arith, here.clear.no_null)) in
      let sp = hit-zero sent p (omega (arith, here.clear.no_sent)) in
      let r' : root ≡ p = here.rep_above in
      record {
        nodes = set_red s2 p false;
        root = p;
        tree' = node false l p r;
        run = rw (fresh.not_null, rn, rs, run1, run2, r', pn) refl;
        whole = record {
          above = above;
          here = rw r' at (colour-top s2 sent root above false [] left c l p r here);
          sent_null = h.sent_null;
          sent_black = rw sp black;
          shape = (shape.0, refl, refl, shape.3, shape.4);
          root_black = refl;
          sorted = rw (keys, order) (place-Sorted s.key n (flatten t) h.sorted);
        };
        order = order;
        keys = keys;
      }

  -- With more fuel than the tree is deep.
  inserted :
      (fuel : ℕ) (t : Tree)
      → IsRbtree s tree t
      → count n t ≡ 0
      → depth t < fuel
      → Inserted fuel s tree t n
  unfolding count black_height
  inserted fuel leaf h apart enough = first-Inserted fuel h
  inserted fuel (node true l p r) h apart enough = let bad = h.root_black in cc
  inserted fuel (node false l p r) h apart enough =
      let sent = tree.sentinel in
      let t : Tree = node false l p r in
      let rp : tree.root ≡ p = h.here.rep_above in
      let core =
        entered s sent tree.root h.above n fresh fuel l p r h.here apart h.shape
          (omega (arith, enough)) in
      let loop =
        settled sent h.above h.sent_null fuel core.frames core.nodes tree.root left leaf leaf n
          core.here (refl, refl, refl, tt, tt) core.outside (core.black ∙ h.sent_black)
          (omega (arith, core.within, enough)) in
      blackened fuel t core.nodes loop.nodes h.above loop.new_root loop.tree h loop.here loop.shape
        (loop.order ∙ ap flatten core.whole ∙ flatten-insert_leaf s.key n t h.sorted)
        (loop.keys ∙ core.keys) loop.black
        (rw rp (hit-away null p (omega (arith, h.here.clear.no_null))))
        (rw rp (hit-away sent p (omega (arith, h.here.clear.no_sent))))
        (ap (λ r. insert_core fuel s r sent n) rp ∙ core.run) loop.run

-- rbtree_insert of a node `n` that is not in the tree, with more fuel than the tree is deep, ends without
-- a fault. The nodes in memory are again a red-black tree, with the sentinel and all keys as before, a
-- black root, and the keys in order; in order it has the old nodes, with `n` in front of the first key
-- above its own and so behind all nodes of an equal key.
pub rbtree_insert-IsRbtree :
    (fuel : ℕ) (s : Nodes) (tree : Rbtree) (t : Tree) (n : ℕ)
    → IsRbtree s tree t
    → Fresh tree.sentinel n
    → count n t ≡ 0
    → depth t < fuel
    → (s' : Nodes) × (root : ℕ) × (t' : Tree) × (rbtree_insert fuel s tree n
        ≡ ok (s', record tree { root = root }))
      × IsRbtree s' (record tree { root = root }) t'
      × (flatten t' ≡ place s.key n (flatten t))
      × (s'.key ≡ s.key)
rbtree_insert-IsRbtree fuel s tree t n h fresh apart enough =
    let done = inserted s tree n fresh fuel t h apart enough in
    (done.nodes, done.root, done.tree', done.run, done.whole, done.order, done.keys)
