-- ===== src/Common/Rbtree/Same.antt =====
-- code/common/rbtree.c: what a write at one address leaves as it was.
use headquarter.Base.{ℕ, ◌<◌, ◌≡◌, refl, ◌∙◌, Bool, List, [], ◌∷◌, ◌==◌, false, arith}
use headquarter.Common.Rbtree.{Side, left, right, flip, Nodes, write, write_side}
use headquarter.Common.Rbtree.Tree.{
  ==_self, Tree, leaf, node, Frame, count, count_above, hit_self, Rep, RepAbove, Same,
}

module _ (s s' : Nodes) (sent : ℕ) where
  pub Rep-Same :
      (t : Tree) (par : ℕ)
      → ((q : ℕ) → 0 < count q t → Same s s' q)
      → Rep s sent par t
      → Rep s' sent par t
  unfolding count
  Rep-Same leaf par same r = tt
  Rep-Same (node c l p r) par same ((h1, h2, h3, h4), rl, rr) =
      let e = same p (omega (arith, hit_self p)) in
      (
        (e.1 ∙ h1, e.2 ∙ h2, e.0 left ∙ h3, e.0 right ∙ h4),
        Rep-Same l p (λ q k. same q (omega (arith, k))) rl,
        Rep-Same r p (λ q k. same q (omega (arith, k))) rr,
      )

  pub RepAbove-Same :
      (root above p : ℕ) (fs : List Frame)
      → ((q : ℕ) → 0 < count_above q fs → Same s s' q)
      → RepAbove s sent root above p fs
      → RepAbove s' sent root above p fs
  unfolding count_above
  RepAbove-Same root above p [] same r = r
  RepAbove-Same root above p (f ∷ fs) same (h1, h2, h3, h4, rb, ra) =
      let e = same f.at (omega (arith, hit_self f.at)) in
      (
        e.1 ∙ h1,
        e.2 ∙ h2,
        e.0 f.side ∙ h3,
        e.0 (flip f.side) ∙ h4,
        Rep-Same f.sibling f.at (λ q k. same q (omega (arith, k))) rb,
        RepAbove-Same root above f.at fs (λ q k. same q (omega (arith, k))) ra,
      )

-- The states after one write.
abbrev pub set_child : Nodes → Side → ℕ → ℕ → Nodes
set_child s side p v = record s { child = write_side s.child side p v }

abbrev pub set_parent : Nodes → ℕ → ℕ → Nodes
set_parent s p v = record s { parent = write s.parent p v }

abbrev pub set_red : Nodes → ℕ → Bool → Nodes
set_red s p v = record s { red = write s.red p v }

pub write_side-same : (f : Side → ℕ → ℕ) (side : Side) (p v : ℕ) → write_side f side p v side p ≡ v
write_side-same f left p v = rw (==_self p) refl
write_side-same f right p v = rw (==_self p) refl

pub write_side-flip :
    (f : Side → ℕ → ℕ) (side : Side) (p v q : ℕ)
    → write_side f side p v (flip side) q ≡ f (flip side) q
write_side-flip f left p v q = refl
write_side-flip f right p v q = refl

pub write_side-flip' :
    (f : Side → ℕ → ℕ) (side : Side) (p v q : ℕ) → write_side f (flip side) p v side q ≡ f side q
write_side-flip' f left p v q = refl
write_side-flip' f right p v q = refl

pub write_side-else :
    (f : Side → ℕ → ℕ) (side side' : Side) (p v q : ℕ)
    → (q == p) ≡ false
    → write_side f side p v side' q ≡ f side' q
write_side-else f left left p v q e = rw e refl
write_side-else f left right p v q e = refl
write_side-else f right left p v q e = refl
write_side-else f right right p v q e = rw e refl

pub set_child-Same :
    (s : Nodes) (side : Side) (p v q : ℕ) → (q == p) ≡ false → Same s (set_child s side p v) q
set_child-Same s side p v q e = (λ side'. write_side-else s.child side side' p v q e, refl, refl)

pub set_parent-Same : (s : Nodes) (p v q : ℕ) → (q == p) ≡ false → Same s (set_parent s p v) q
set_parent-Same s p v q e = (λ side. refl, rw e refl, refl)

pub set_red-Same : (s : Nodes) (p q : ℕ) (v : Bool) → (q == p) ≡ false → Same s (set_red s p v) q
set_red-Same s p q v e = (λ side. refl, refl, rw e refl)

pub Same-trans : (s s' s'' : Nodes) (q : ℕ) → Same s s' q → Same s' s'' q → Same s s'' q
Same-trans s s' s'' q a b = (λ side. b.0 side ∙ a.0 side, b.1 ∙ a.1, b.2 ∙ a.2)
