-- ===== src/Common/Rbtree/Successor.antt =====
-- code/common/rbtree.c: rbtree_min finds the first node of a tree, rbtree_next the one that follows.
use headquarter.Base.{
  ℕ, zero, suc, ◌+◌, ◌≤◌, ◌<◌, ◌≡◌, refl, sym, ap, ◌∙◌, Bool, true, false, List, [], ◌∷◌, ◌++◌,
  append_assoc, ◌==◌, ◌>>=◌, Outcome, ok, length, arith,
}
use headquarter.Common.Rbtree.{
  Side, left, right, flip, Nodes, Rbtree, null, load_child, load_parent,
}
use headquarter.Common.Rbtree.Tree.{
  ==_self, Tree, leaf, node, join, Frame, count, count_above, count-join, hit_self, hit-away, Rep,
  join-Rep, top, top-join, top-away,
}
use headquarter.Common.Rbtree.Replace.{root-count}
use headquarter.Common.Rbtree.Focus.{At}
use headquarter.Common.Rbtree.Zip.{At-up}
use headquarter.Common.Rbtree.Shape.{depth}
use headquarter.Common.Rbtree.Order.{flatten}
use headquarter.Common.Rbtree.Walk.{min_loop, rbtree_min, next_loop, rbtree_next}
use headquarter.Common.Rbtree.Locate.{after, At-unplug, located}
use headquarter.Common.Rbtree.Insert.{IsRbtree}

abbrev pub first_or : ℕ → List ℕ → ℕ
first_or d [] = d
first_or d (p ∷ ps) = p

first_flatten :
    (d e : ℕ) (c : Bool) (a : Tree) (p : ℕ) (b : Tree) (zs : List ℕ)
    → first_or d (flatten (node c a p b) ++ zs) ≡ first_or e (flatten (node c a p b))
unfolding flatten
first_flatten d e c leaf p b zs = refl
first_flatten d e c (node c' a' q b') p b zs =
    rw (append_assoc (flatten (node c' a' q b')) (p ∷ flatten b) zs) (
      first_flatten d e c' a' q b' (p ∷ flatten b ++ zs)
      ∙ sym (first_flatten e e c' a' q b' (p ∷ flatten b)))

module _ (s : Nodes) (sent : ℕ) where
  min-round :
      (fuel p m : ℕ)
      → (p == null) ≡ false
      → s.child left p ≡ m
      → min_loop (suc fuel) s sent p
        ≡ elim (m == sent) [ true ↦ ok p | false ↦ min_loop fuel s sent m ]
  unfolding min_loop load_child
  min-round fuel p m n h =
      rw (min_loop, n)
        (ap
          (λ l. elim (l == sent) as (λ x. Outcome ℕ) [
            | true ↦ ok p
            | false ↦ min_loop fuel s sent l
          ])
          h)

  min-first :
      (fuel : ℕ) (c : Bool) (a : Tree) (p : ℕ) (b : Tree) (par : ℕ)
      → Rep s sent par (node c a p b)
      → count null (node c a p b) ≡ 0
      → count sent (node c a p b) ≡ 0
      → depth (node c a p b) ≤ fuel
      → min_loop fuel s sent p ≡ ok (first_or null (flatten (node c a p b)))
  unfolding count depth flatten
  min-first zero c a p b par r zn zs enough = absurd (omega (arith, enough))
  min-first (suc fuel) c leaf p b par r zn zs enough =
      min-round fuel p sent (hit-away null p (omega (arith, zn))) r.0.2 ∙ (rw (==_self sent) refl)
  min-first (suc fuel) c (node c' a' q b') p b par r zn zs enough =
      let ih =
        min-first fuel c' a' q b' p r.1 (omega (arith, zn)) (omega (arith, zs))
          (omega (arith, enough)) in
      min-round fuel p q (hit-away null p (omega (arith, zn))) r.0.2
      ∙ (rw (hit-away sent q (omega (arith, zs))) ih)
      ∙ ap ok (sym (first_flatten null null c' a' q b' (p ∷ flatten b)))

  next-round :
      (fuel root x par : ℕ)
      → (x == null) ≡ false
      → (x == root) ≡ false
      → s.parent x ≡ par
      → (par == null) ≡ false
      → next_loop (suc fuel) s root x
        ≡ elim (x == s.child left par) [ true ↦ ok par | false ↦ next_loop fuel s root par ]
  unfolding next_loop load_child load_parent
  next-round fuel root x par xn xr h pn =
      rw (next_loop, xn, xr)
        (ap
            (λ y.
              (load_child s left y >>= (λ l. elim (x == l) as (λ z. Outcome ℕ) [
                | true ↦ ok y
                | false ↦ next_loop fuel s root y
              ])))
            h
          ∙ (rw pn refl))

  -- Above a left child its parent follows, above a right one what follows the parent.
  turned_off :
      (side : Side) (fuel root x p : ℕ) (sib : Tree) (ys : List ℕ)
      → s.child side p ≡ x
      → s.child (flip side) p ≡ top sent sib
      → (x == top sent sib) ≡ false
      → next_loop fuel s root p ≡ ok (first_or null ys)
      → elim (x == s.child left p) [ true ↦ ok p | false ↦ next_loop fuel s root p ]
        ≡ ok (first_or null (elim side [ left ↦ p ∷ (flatten sib ++ ys) | right ↦ ys ]))
  turned_off left fuel root x p sib ys h1 h2 n rest =
      let k : (x == s.child left p) ≡ true = rw h1 (==_self x) in rw k refl
  turned_off right fuel root x p sib ys h1 h2 n rest =
      let k : (x == s.child left p) ≡ false = rw h2 n in rw k rest

  climbed :
      (fuel root above : ℕ) (fs : List Frame) (d : Side) (c : Bool) (a : Tree) (x : ℕ) (b : Tree)
      → At s sent root above fs (join d c a x b)
      → length fs < fuel
      → next_loop fuel s root x ≡ ok (first_or null (after fs))
  unfolding next_loop load_parent count_above
  climbed zero root above fs d c a x b here enough = absurd (omega (arith, enough))
  climbed (suc fuel) root above [] d c a x b here enough =
      let xr : root ≡ x = here.rep_above ∙ top-join sent d c a x b in
      let k : (x == root) ≡ true = rw xr (==_self x) in
      let cj = count-join null d c a x b in
      rw (next_loop, hit-away null x (omega (arith, here.clear.no_null, cj)), k) refl
  climbed (suc fuel) root above (f ∷ fs) d c a x b here enough =
      let cj = λ (q : ℕ). count-join q d c a x b in
      let r = here.rep_above in
      let zr = root-count s sent root above _ f fs r in
      let zn = here.clear.no_null in
      let start =
        next-round fuel root x f.at (hit-away null x (omega (arith, zn, cj null)))
          (hit-away root x (omega (arith, zr, here.clear.once root, cj root)))
          (join-Rep s sent d c a x b f.at here.rep).0 (hit-away null f.at (omega (arith, zn))) in
      let xs = hit-away sent x (omega (arith, here.clear.no_sent, cj sent)) in
      let away =
        top-away sent x f.sibling xs (omega (arith, here.clear.once x, cj x, hit_self x)) in
      let up_here = At-up s sent root above f fs (join d c a x b) here in
      let rest =
        climbed fuel root above fs f.side f.colour (join d c a x b) f.at f.sibling up_here
          (omega (arith, enough)) in
      start
      ∙ turned_off f.side fuel root x f.at f.sibling (after fs) (r.2 ∙ top-join sent d c a x b) r.3
          away rest

-- rbtree_min of the root of a tree that is not empty, with more fuel than the tree is deep, is the first
-- of its nodes in the order of the keys.
pub rbtree_min-first :
    (fuel : ℕ) (s : Nodes) (tree : Rbtree) (t : Tree) (p : ℕ) (ps : List ℕ)
    → IsRbtree s tree t
    → flatten t ≡ p ∷ ps
    → depth t < fuel
    → rbtree_min fuel s tree tree.root ≡ ok p
unfolding rbtree_min flatten count_above
rbtree_min-first fuel s tree leaf p ps h e enough = cc
rbtree_min-first fuel s tree (node c a q b) p ps h e enough =
    let found =
      min-first s tree.sentinel fuel c a q b h.above h.here.rep
        (omega (arith, h.here.clear.no_null)) (omega (arith, h.here.clear.no_sent))
        (omega (arith, enough)) in
    rw h.here.rep_above (found ∙ ap (λ xs. ok (first_or null xs)) e)

next-run :
    (fuel : ℕ) (s : Nodes) (tree : Rbtree) (p m : ℕ)
    → (p == null) ≡ false
    → s.child right p ≡ m
    → rbtree_next fuel s tree p ≡ elim (m == tree.sentinel) [
      | true ↦ next_loop fuel s tree.root p
      | false ↦ min_loop fuel s tree.sentinel m
    ]
unfolding rbtree_next rbtree_min load_child
next-run fuel s tree p m n h = rw n (
    ap
      (λ r. elim (r == tree.sentinel) as (λ x. Outcome ℕ) [
        | true ↦ next_loop fuel s tree.root p
        | false ↦ min_loop fuel s tree.sentinel r
      ])
      h)

from_right :
    (fuel : ℕ) (s : Nodes) (tree : Rbtree) (above : ℕ) (fs : List Frame) (c : Bool) (l : Tree)
    (p : ℕ) (r : Tree) (qs : List ℕ)
    → At s tree.sentinel tree.root above fs (node c l p r)
    → flatten r ++ after fs ≡ qs
    → length fs + suc (depth r) ≤ fuel
    → rbtree_next fuel s tree p ≡ ok (first_or null qs)
unfolding count depth flatten
from_right fuel s tree above fs c l p leaf qs here e enough =
    next-run fuel s tree p tree.sentinel (hit-away null p (omega (arith, here.clear.no_null)))
      here.rep.0.3
    ∙ (rw (==_self tree.sentinel) (
        climbed s tree.sentinel fuel tree.root above fs left c l p leaf here
          (omega (arith, enough))))
    ∙ ap (λ xs. ok (first_or null xs)) e
from_right fuel s tree above fs c l p (node c' a q b) qs here e enough =
    let zn = here.clear.no_null in
    let zs = here.clear.no_sent in
    next-run fuel s tree p q (hit-away null p (omega (arith, zn))) here.rep.0.3
    ∙ (rw (hit-away tree.sentinel q (omega (arith, zs))) (
        min-first s tree.sentinel fuel c' a q b p here.rep.2 (omega (arith, zn)) (omega (arith, zs))
          (omega (arith, enough))))
    ∙ ap ok (sym (first_flatten null null c' a q b (after fs)))
    ∙ ap (λ xs. ok (first_or null xs)) e

-- rbtree_next of a node of a tree, with more fuel than the tree is deep, is the node that follows it in
-- the order of the keys, and the null pointer for the last one.
pub rbtree_next-first_or :
    (fuel : ℕ) (s : Nodes) (tree : Rbtree) (t : Tree) (ps : List ℕ) (p : ℕ) (qs : List ℕ)
    → IsRbtree s tree t
    → flatten t ≡ ps ++ p ∷ qs
    → depth t < fuel
    → rbtree_next fuel s tree p ≡ ok (first_or null qs)
rbtree_next-first_or fuel s tree t ps p qs h e enough =
    let f = located t ps p qs e in
    let here =
      At-unplug s tree.sentinel tree.root h.above f.frames (node f.colour f.l p f.r)
        (rw f.plugged h.here) in
    from_right fuel s tree h.above f.frames f.colour f.l p f.r qs here f.behind
      (omega (arith, f.within, enough))
