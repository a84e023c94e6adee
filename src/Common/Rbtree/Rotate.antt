-- ===== src/Common/Rbtree/Rotate.antt =====
-- code/common/rbtree.c: rbtree_rotate_left and rbtree_rotate_right.
use headquarter.Base.{ℕ, ◌+◌, ◌≤◌, ◌≡◌, refl, sym, ap, ◌∙◌, Bool, false, List, ◌==◌, arith}
use headquarter.Common.Rbtree.{Side, flip, Nodes, null, rotate}
use headquarter.Common.Rbtree.Tree.{
  ==_self, Tree, join, Frame, count, count_above, count-join, hit, hit_self, hit-zero, hit-away,
  Rep, Rep-join, join-Rep, Same, top, top-join, up,
}
use headquarter.Common.Rbtree.Same.{
  Rep-Same, RepAbove-Same, Same-trans, set_child, set_child-Same, set_parent, set_parent-Same,
  write_side-same, write_side-else, write_side-flip, write_side-flip',
}
use headquarter.Common.Rbtree.Replace.{Clear, Replaced, replaced}
use headquarter.Common.Rbtree.Focus.{At, Becomes}
use headquarter.Common.Rbtree.Adopt.{Adopted, adopted, rotate-run}

module _ (s : Nodes) (sent root above : ℕ) (fs : List Frame) where
  module _ (side : Side) (cp cq : Bool) (a b c : Tree) (p q : ℕ) where
    abbrev pub Before : Type 0
    Before = At s sent root above fs (join side cp a p (join side cq b q c))

    counted :
        (x : ℕ)
        → count x (join side cp a p (join side cq b q c))
          ≡ hit x p + hit x q + count x a + count x b + count x c
    counted x =
        omega (arith, count-join x side cp a p (join side cq b q c), count-join x side cq b q c)

    counted_after :
        (x : ℕ)
        → count x (join side cq (join side cp a p b) q c)
          ≡ hit x p + hit x q + count x a + count x b + count x c
    counted_after x =
        omega (arith, count-join x side cq (join side cp a p b) q c, count-join x side cp a p b)

    module _ (here : Before) where
      once : (x : ℕ) → count_above x fs + hit x p + hit x q + count x a + count x b + count x c ≤ 1
      once x = omega (arith, here.clear.once x, counted x)

      no_null :
          count_above null fs + hit null p + hit null q + count null a + count null b + count null c
          ≡ 0
      no_null = omega (arith, here.clear.no_null, counted null)

      no_sent :
          count_above sent fs + hit sent p + hit sent q + count sent a + count sent b + count sent c
          ≡ 0
      no_sent = omega (arith, here.clear.no_sent, counted sent)

      pq : (p == q) ≡ false
      pq = hit-zero p q (omega (arith, once p, hit_self p))

      qp : (q == p) ≡ false
      qp = hit-zero q p (omega (arith, once q, hit_self q))

      Clear-part :
          (f : ℕ → ℕ) → ((x : ℕ) → f x ≤ count_above x fs + hit x p + count x b) → Clear sent f
      Clear-part f le = record {
        once = λ x. omega (arith, once x, le x);
        no_null = omega (arith, no_null, le null);
        no_sent = omega (arith, no_sent, le sent);
      }

      abbrev at_p :
          (s.parent p ≡ up above fs)
          × (s.red p ≡ cp)
          × (s.child side p ≡ top sent a)
          × (s.child (flip side) p ≡ top sent (join side cq b q c))
          × Rep s sent p a
          × Rep s sent p (join side cq b q c)
      at_p = join-Rep s sent side cp a p (join side cq b q c) (up above fs) here.rep

      abbrev at_q :
          (s.parent q ≡ p)
          × (s.red q ≡ cq)
          × (s.child side q ≡ top sent b)
          × (s.child (flip side) q ≡ top sent c)
          × Rep s sent q b
          × Rep s sent q c
      at_q = join-Rep s sent side cq b q c p at_p.5

      abbrev s1 : Nodes
      s1 = set_child s (flip side) p (top sent b)

      s1-Same : (x : ℕ) → hit x p ≡ 0 → Same s s1 x
      s1-Same x h = set_child-Same s (flip side) p (top sent b) x (hit-zero x p h)

      abbrev middle : Adopted s1 sent p b
      middle =
          adopted s1 sent q p b (Clear-part (λ x. count x b) (λ x. omega arith))
            (Rep-Same s s1 sent b q (λ x k. s1-Same x (omega (arith, k, once x))) at_q.4)

      abbrev s4 : Nodes
      s4 = set_parent (set_child middle.nodes side q p) q (up above fs)

      s4-Same : (x : ℕ) → hit x q ≡ 0 → Same middle.nodes s4 x
      s4-Same x h =
          Same-trans middle.nodes (set_child middle.nodes side q p) s4 x
            (set_child-Same middle.nodes side q p x (hit-zero x q h))
            (set_parent-Same (set_child middle.nodes side q p) q (up above fs) x (hit-zero x q h))

      middle-Same : (x : ℕ) → hit x p ≡ 0 → count x b ≡ 0 → Same s middle.nodes x
      middle-Same x h k = Same-trans s s1 middle.nodes x (s1-Same x h) (middle.same x k)

      middle_parent : middle.nodes.parent p ≡ up above fs
      middle_parent = (middle.same p (omega (arith, once p, hit_self p))).1 ∙ at_p.0

      abbrev hung : Replaced s4 sent root above p q fs
      hung =
          replaced s4 sent root above p q (hit-away null p (omega (arith, no_null))) fs
            (RepAbove-Same s s4 sent root above p fs
              (λ x k.
                Same-trans s middle.nodes s4 x
                  (middle-Same x (omega (arith, k, once x)) (omega (arith, k, once x)))
                  (s4-Same x (omega (arith, k, once x))))
              (rw (top-join sent side cp a p (join side cq b q c)) at here.rep_above))
            (rw pq middle_parent) (hit-away sent p (omega (arith, no_sent)))
            (Clear-part (λ x. hit x p + count_above x fs) (λ x. omega arith))

      abbrev s6 : Nodes
      s6 = set_parent hung.nodes p q

      last-Same :
          (x : ℕ) → hit x p ≡ 0 → hit x q ≡ 0 → count_above x fs ≡ 0 → Same middle.nodes s6 x
      last-Same x h1 h2 h3 = Same-trans middle.nodes s4 s6 x (s4-Same x h2) (
          Same-trans s4 hung.nodes s6 x (hung.same x h3)
            (set_parent-Same hung.nodes p q x (hit-zero x p h1)))

      s6-Same :
          (x : ℕ) → hit x p ≡ 0 → hit x q ≡ 0 → count_above x fs ≡ 0 → count x b ≡ 0 → Same s s6 x
      s6-Same x h1 h2 h3 h4 =
          Same-trans s middle.nodes s6 x (middle-Same x h1 h4) (last-Same x h1 h2 h3)

      Rep-outer :
          (t : Tree) (par : ℕ)
          → ((x : ℕ) → count x t ≤ count x a + count x c)
          → Rep s sent par t
          → Rep s6 sent par t
      Rep-outer t par le = Rep-Same s s6 sent t par (λ x k.
          s6-Same x (omega (arith, k, le x, once x)) (omega (arith, k, le x, once x))
            (omega (arith, k, le x, once x)) (omega (arith, k, le x, once x)))

      Rep-inner : Rep s6 sent p b
      Rep-inner =
          Rep-Same middle.nodes s6 sent b p
            (λ x k.
              last-Same x (omega (arith, k, once x)) (omega (arith, k, once x))
                (omega (arith, k, once x)))
            middle.rep

      children : (d : Side) (x : ℕ) → middle.nodes.child d x ≡ s1.child d x
      children d x = ap (λ f. f d x) middle.children

      reds : (x : ℕ) → s6.red x ≡ s.red x
      reds x = ap (λ f. f x) (hung.reds ∙ middle.reds)

      Rep-lower : Rep s6 sent q (join side cp a p b)
      Rep-lower =
          let same = hung.same p (omega (arith, once p, hit_self p)) in
          Rep-join s6 sent side cp a p b q (rw (==_self p) refl) (reds p ∙ at_p.1)
            (same.0 side
              ∙ write_side-else middle.nodes.child side side q p p pq
              ∙ children side p
              ∙ write_side-flip' s.child side p (top sent b) p
              ∙ at_p.2)
            (same.0 (flip side)
              ∙ write_side-flip middle.nodes.child side q p p
              ∙ children (flip side) p
              ∙ write_side-same s.child (flip side) p (top sent b))
            (Rep-outer a p (λ x. omega arith) at_p.4) Rep-inner

      Rep-upper : Rep s6 sent (up above fs) (join side cq (join side cp a p b) q c)
      Rep-upper =
          let same = hung.same q (omega (arith, once q, hit_self q)) in
          Rep-join s6 sent side cq (join side cp a p b) q c (up above fs)
            (rw qp (ap (λ f. f q) hung.parents ∙ (rw (==_self q) refl))) (reds q ∙ at_q.1)
            (same.0 side
              ∙ write_side-same middle.nodes.child side q p
              ∙ sym (top-join sent side cp a p b))
            (same.0 (flip side)
              ∙ write_side-flip middle.nodes.child side q p q
              ∙ children (flip side) q
              ∙ write_side-else s.child (flip side) (flip side) p (top sent b) q qp
              ∙ at_q.3)
            Rep-lower (Rep-outer c q (λ x. omega arith) at_q.5)

    -- A rotation at `p` exchanges it with its child `q`, and the tree between the two goes over.
    pub rotated :
        Before
        → Becomes s sent above
            (rotate side s root sent p)
            fs
            (join side cq (join side cp a p b) q c)
    rotated here =
        let fields = hung here in
        let up_q =
          RepAbove-Same fields.nodes (s6 here) sent fields.new_root above q fs
            (λ x k.
              set_parent-Same fields.nodes p q x (hit-zero x p (omega (arith, k, once here x))))
            fields.rep in
        record {
          nodes = s6 here;
          new_root = fields.new_root;
          run =
              rotate-run s (middle here).nodes fields.nodes side sent root p q (top sent b)
                (up above fs) fields.new_root (hit-away null p (omega (arith, no_null here)))
                ((at_p here).3 ∙ top-join sent side cq b q c)
                (hit-away null q (omega (arith, no_null here))) (at_q here).2 (middle here).run
                (middle_parent here) fields.run;
          here = record {
            rep_above = rw (top-join sent side cq (join side cp a p b) q c) up_q;
            rep = Rep-upper here;
            clear = record {
              once = λ x. omega (arith, once here x, counted_after x);
              no_null = omega (arith, no_null here, counted_after null);
              no_sent = omega (arith, no_sent here, counted_after sent);
            };
          };
          keys = fields.keys ∙ (middle here).keys;
          same = λ x k.
              s6-Same here x (omega (arith, k, counted_after x)) (omega (arith, k, counted_after x))
                (omega (arith, k)) (omega (arith, k, counted_after x));
        }
