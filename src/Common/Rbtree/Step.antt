-- ===== src/Common/Rbtree/Step.antt =====
-- code/common/rbtree.c: one round of the loop of rbtree_insert and what follows it.
use headquarter.Base.{
  ℕ, suc, ◌≡◌, ◌⊎◌, refl, ap, ◌∙◌, Bool, true, false, List, ◌==◌, inl, inr, ◌>>=◌, arith,
}
use headquarter.Common.Rbtree.{Side, left, right, flip, Nodes, null, insert_round, insert_loop}
use headquarter.Common.Rbtree.Tree.{Tree, leaf, node, join, Frame, plug, count-join, hit-away}
use headquarter.Common.Rbtree.Focus.{At}
use headquarter.Common.Rbtree.Turn.{outer_ends, inner_ends}
use headquarter.Common.Rbtree.Loop.{Settled}
use headquarter.Common.Rbtree.Round.{recoloured, outer_turned, inner_turned}
use headquarter.Common.Rbtree.Shape.{
  is_red, black_height, RedBlack, RedBlackAbove, RedBlack-join, black_height-join, is_red-join,
}
use headquarter.Common.Rbtree.Order.{flatten, flatten-join, flatten-plug, flatten-colour, join-flip}

flatten-uncle :
    (d : Side) (cg cg' : Bool) (x : Tree) (g : ℕ) (a : Tree) (q : ℕ) (c : Tree)
    → flatten (join d cg x g (node false a q c)) ≡ flatten (join d cg' x g (node true a q c))
unfolding flatten
flatten-uncle left cg cg' x g a q c = refl
flatten-uncle right cg cg' x g a q c = refl

side-cases : (a b : Side) → (a ≡ b) ⊎ (a ≡ flip b)
side-cases left left = inl refl
side-cases left right = inr refl
side-cases right left = inr refl
side-cases right right = inl refl

-- The shape around a red node with a red parent: its brother `b`, its uncle `u` and the part above.
abbrev pub Facts : Tree → Tree → Tree → List Frame → Type 0
Facts t b u gs =
    RedBlack t
    × (black_height t ≡ black_height b)
    × (is_red b ≡ false)
    × RedBlack b
    × (black_height t ≡ black_height u)
    × RedBlack u
    × RedBlackAbove (suc (black_height t)) gs

module _ (sent above : ℕ) (sent_null : (sent == null) ≡ false) (s : Nodes) (root : ℕ)
    (black : s.red sent ≡ false) (gs : List Frame) (d : Side) (cg : Bool) (p g : ℕ) (b : Tree)
    (x n : ℕ) where
  abbrev pub Start2 : Side → Tree → Tree → Tree
  Start2 f t u = join d cg (join f true t p b) g u

  abbrev pub Goal : Tree → Type 0
  Goal t =
      Settled s sent above
        (insert_round s root sent x p
          >>= (λ (s', root', node'). insert_loop (suc n) s' root' sent node'))
        (plug gs t)

  p_sent : (f : Side) (t u : Tree) → At s sent root above gs (Start2 f t u) → (p == sent) ≡ false
  p_sent f t u here = hit-away sent p (
      omega (
        arith,
        here.clear.no_sent,
        count-join sent d cg (join f true t p b) g u,
        count-join sent f true t p b,
      ))

  x_sent :
      (f e : Side) (l r u : Tree)
      → At s sent root above gs (Start2 f (join e true l x r) u)
      → (x == sent) ≡ false
  x_sent f e l r u here = hit-away sent x (
      omega (
        arith,
        here.clear.no_sent,
        count-join sent d cg (join f true (join e true l x r) p b) g u,
        count-join sent f true (join e true l x r) p b,
        count-join sent e true l x r,
      ))

  outer_step :
      (e : Side) (l r u : Tree)
      → Facts (join e true l x r) b u gs
      → is_red u ≡ false
      → At s sent root above gs (Start2 d (join e true l x r) u)
      → Goal (Start2 d (join e true l x r) u)
  outer_step e l r u (h1, h2, h3, h4, h5, h6, h7) k here =
      outer_ends s sent above gs d p g b u cg e l r x n h1 h2 h3 h4 h5 h6 h7 black _ k (
        outer_turned s sent root above gs sent_null black d cg true e true l r b u x p g
          (p_sent d (join e true l x r) u here) (x_sent d e l r u here) k here)

  inner_step :
      (l r u : Tree)
      → Facts (join d true l x r) b u gs
      → is_red u ≡ false
      → At s sent root above gs (Start2 (flip d) (join d true l x r) u)
      → Goal (Start2 (flip d) (join d true l x r) u)
  inner_step l r u (h1, h2, h3, h4, h5, h6, h7) k here =
      inner_ends s sent above gs d p g b u cg d l r x n h1 h2 h3 h4 h5 h6 h7 black _ refl k (
        inner_turned s sent root above gs sent_null black d cg true true b l r u x p g
          (p_sent (flip d) (join d true l x r) u here) k here)

  -- A black uncle.
  turned_step :
      (f e : Side) (l r u : Tree)
      → Facts (join e true l x r) b u gs
      → is_red u ≡ false
      → At s sent root above gs (Start2 f (join e true l x r) u)
      → Goal (Start2 f (join e true l x r) u)
  turned_step f e l r u h k here = elim (side-cases f d) [
    | inl fd ↦ rw fd (outer_step e l r u h k (rw fd at here))
    | inr fd ↦ elim (side-cases e d) [
      | inl ed ↦ rw (fd, ed) (inner_step l r u (rw ed at h) k (rw (fd, ed) at here))
      | inr ed ↦
          rw (fd, ed, join-flip d true l x r)
            (inner_step r l u (rw (ed, join-flip d true l x r) at h) k
              (rw (fd, ed, join-flip d true l x r) at here))
    ]
  ]

  -- A red uncle, where the loop goes on at the grandparent.
  recoloured_step :
      (f e : Side) (l r a c : Tree) (q : ℕ)
      → Facts (join e true l x r) b (node true a q c) gs
      → At s sent root above gs (Start2 f (join e true l x r) (node true a q c))
      → ((s' : Nodes) (root' : ℕ)
          → At s' sent root' above gs
              (join d true (join f false (join e true l x r) p b) g (node false a q c))
          → RedBlack (join d true (join f false (join e true l x r) p b) g (node false a q c))
          → RedBlackAbove
              (black_height
                (join d true (join f false (join e true l x r) p b) g (node false a q c)))
              gs
          → s'.red sent ≡ false
          → Settled s' sent above
              (insert_loop (suc n) s' root' sent g)
              (plug gs (join d true (join f false (join e true l x r) p b) g (node false a q c))))
      → Goal (Start2 f (join e true l x r) (node true a q c))
  unfolding black_height
  recoloured_step f e l r a c q (h1, h2, h3, h4, h5, (k1, k2, k3, k4, k5), h7) here again =
      let t : Tree = join e true l x r in
      let u : Tree = node true a q c in
      let end =
        recoloured s sent root above gs sent_null black d cg true f t b a c x p g q
          (p_sent f t u here) here in
      let t' : Tree = join f false t p b in
      let u' : Tree = node false a q c in
      let th : black_height t' ≡ suc (black_height t) = black_height-join f false t p b h2 in
      let same : black_height t' ≡ black_height u' = th ∙ ap suc h5 in
      let whole =
        RedBlack-join d true t' g u' same (is_red-join f false t p b) refl
          (RedBlack-join f false t p b h2 refl refl h1 h4) (k1, refl, refl, k4, k5) in
      let rest =
        again end.nodes end.new_root end.here whole
          (rw (black_height-join d true t' g u' same, th) h7)
          ((end.same sent end.here.clear.no_sent).2 ∙ black) in
      let colours : flatten (join d true t' g u') ≡ flatten (Start2 f t u) =
        flatten-join d true t' (join f true t p b) g u' (flatten-colour f false true t p b)
        ∙ flatten-uncle d true cg (join f true t p b) g a q c in
      record {
        nodes = rest.nodes;
        new_root = rest.new_root;
        tree = rest.tree;
        run =
            ap (λ o. o >>= (λ (s', root', node'). insert_loop (suc n) s' root' sent node')) end.run
            ∙ rest.run;
        here = rest.here;
        shape = rest.shape;
        order = rest.order ∙ flatten-plug gs (join d true t' g u') (Start2 f t u) colours;
        keys = rest.keys ∙ end.keys;
        black = rest.black;
      }

  -- One round below a red parent, where `again` is what the loop does after it.
  pub step :
      (f e : Side) (l r u : Tree)
      → Facts (join e true l x r) b u gs
      → At s sent root above gs (Start2 f (join e true l x r) u)
      → ((s' : Nodes) (root' : ℕ) (e' : Side) (l' r' : Tree)
          → At s' sent root' above gs (join e' true l' g r')
          → RedBlack (join e' true l' g r')
          → RedBlackAbove (black_height (join e' true l' g r')) gs
          → s'.red sent ≡ false
          → Settled s' sent above
              (insert_loop (suc n) s' root' sent g)
              (plug gs (join e' true l' g r')))
      → Goal (Start2 f (join e true l x r) u)
  step f e l r leaf h here again = turned_step f e l r leaf h refl here
  step f e l r (node false a q c) h here again = turned_step f e l r (node false a q c) h refl here
  step f e l r (node true a q c) h here again =
      recoloured_step f e l r a c q h here
        (λ s' root'. again s' root' d (join f false (join e true l x r) p b) (node false a q c))
