-- ===== src/Common/Rbtree/Loop.antt =====
-- code/common/rbtree.c: the loop of rbtree_insert, up to where no red node has a red child.
use headquarter.Base.{
  ℕ, suc, ◌≡◌, refl, ap, ◌∙◌, true, false, List, [], ◌∷◌, ◌==◌, Outcome, ok, ◌>>=◌, arith,
}
use headquarter.Common.Rbtree.{Side, Nodes, null, load_parent, load_red, insert_round, insert_loop}
use headquarter.Common.Rbtree.Tree.{
  ==_self, Tree, join, Frame, count_above, count-join, hit-away, join-Rep, top-join,
}
use headquarter.Common.Rbtree.Replace.{root-count}
use headquarter.Common.Rbtree.Focus.{At}
use headquarter.Common.Rbtree.Shape.{RedBlack}
use headquarter.Common.Rbtree.Order.{flatten}

-- A run that ends with a red-black tree of the same nodes in the same order.
pub record Settled (s : Nodes) (sent above : ℕ) (o : Outcome (Nodes × ℕ)) (t : Tree) : Type 0 where
  pub nodes : Nodes
  pub new_root : ℕ
  pub tree : Tree
  pub run : o ≡ ok (nodes, new_root)
  pub here : At nodes sent new_root above [] tree
  pub shape : RedBlack tree
  pub order : flatten tree ≡ flatten t
  pub keys : nodes.key ≡ s.key
  pub black : nodes.red sent ≡ false

module _ (s : Nodes) (sent root above : ℕ) where
  pub stopped_top :
      (n : ℕ) (e : Side) (l r : Tree) (x : ℕ)
      → At s sent root above [] (join e true l x r)
      → insert_loop (suc n) s root sent x ≡ ok (s, root)
  unfolding insert_loop
  stopped_top n e l r x here =
      let r' : root ≡ x = here.rep_above ∙ top-join sent e true l x r in
      let k : (x == root) ≡ true = rw r' (==_self x) in rw (insert_loop, k) refl

  module _ (f : Frame) (fs : List Frame) (e : Side) (l r : Tree) (x : ℕ) where
    not_root : At s sent root above (f ∷ fs) (join e true l x r) → (x == root) ≡ false
    unfolding count_above
    not_root here =
        let zr = root-count s sent root above _ f fs here.rep_above in
        hit-away root x (omega (arith, zr, here.clear.once root, count-join root e true l x r))

    parent_null : At s sent root above (f ∷ fs) (join e true l x r) → (f.at == null) ≡ false
    unfolding count_above
    parent_null here = hit-away null f.at (omega (arith, here.clear.no_null))

    node_null : At s sent root above (f ∷ fs) (join e true l x r) → (x == null) ≡ false
    node_null here =
        hit-away null x (omega (arith, here.clear.no_null, count-join null e true l x r))

    -- Below a black parent the loop ends.
    pub stopped :
        (n : ℕ)
        → At s sent root above (f ∷ fs) (join e true l x r)
        → f.colour ≡ false
        → insert_loop (suc n) s root sent x ≡ ok (s, root)
    unfolding insert_loop load_parent load_red
    stopped n here k =
        let at_x = join-Rep s sent e true l x r f.at here.rep in
        rw
          (
            insert_loop,
            not_root here,
            node_null here,
            at_x.0,
            parent_null here,
            here.rep_above.1,
            k,
          )
          refl

    -- Below a red parent there is a round, and the loop goes on.
    pub looped :
        (n : ℕ)
        → At s sent root above (f ∷ fs) (join e true l x r)
        → f.colour ≡ true
        → insert_loop (suc n) s root sent x ≡ (
            insert_round s root sent x f.at
            >>= (λ (s', root', node'). insert_loop n s' root' sent node'))
    unfolding insert_loop load_parent load_red
    looped n here k =
        let at_x = join-Rep s sent e true l x r f.at here.rep in
        rw
          (
            insert_loop,
            not_root here,
            node_null here,
            at_x.0,
            parent_null here,
            here.rep_above.1,
            k,
          )
          (ap
            (λ p.
              insert_round s root sent x p
              >>= (λ (s', root', node'). insert_loop n s' root' sent node'))
            at_x.0)
