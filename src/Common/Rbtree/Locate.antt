-- ===== src/Common/Rbtree/Locate.antt =====
-- code/common/rbtree.c: where in a tree the nodes of its order are.
use headquarter.Base.{
  ℕ, suc, ◌+◌, ◌≤◌, ◌≡◌, Bool, ◌⊎◌, inl, inr, refl, sym, ap, ◌∙◌, List, [], ◌∷◌, ◌++◌, append_assoc,
  append-nil, length, arith,
}
use headquarter.Common.Rbtree.{left, right, Nodes}
use headquarter.Common.Rbtree.Tree.{Tree, leaf, node, join, Frame, plug}
use headquarter.Common.Rbtree.Focus.{At}
use headquarter.Common.Rbtree.Zip.{At-down}
use headquarter.Common.Rbtree.Shape.{depth}
use headquarter.Common.Rbtree.Order.{flatten}

-- What comes behind the hole.
abbrev pub after : List Frame → List ℕ
after [] = []
after (f ∷ fs) = elim f.side [ left ↦ f.at ∷ (flatten f.sibling ++ after fs) | right ↦ after fs ]

pub At-unplug :
    (s : Nodes) (sent root above : ℕ) (fs : List Frame) (t : Tree)
    → At s sent root above [] (plug fs t)
    → At s sent root above fs t
At-unplug s sent root above [] t here = here
At-unplug s sent root above (f ∷ fs) t here =
    At-down s sent root above f fs t
      (At-unplug s sent root above fs (join f.side f.colour t f.at f.sibling) here)

-- An element of two lists around another is in the first, is the other, or is in the second.
parts :
    (xs : List ℕ) (y : ℕ) (ys ps : List ℕ) (p : ℕ) (qs : List ℕ)
    → xs ++ y ∷ ys ≡ ps ++ p ∷ qs
    → ((us : List ℕ) × (xs ≡ ps ++ p ∷ us) × (qs ≡ us ++ y ∷ ys))
      ⊎ (((y ≡ p) × (qs ≡ ys)) ⊎ ((vs : List ℕ) × (ys ≡ vs ++ p ∷ qs)))
parts [] y ys [] p qs e = inr (inl (cc, cc))
parts [] y ys (q ∷ ps) p qs e = inr (inr (ps, cc))
parts (x ∷ xs) y ys [] p qs e = inl (xs, cc, cc)
parts (x ∷ xs) y ys (q ∷ ps) p qs e =
    let xq : x ≡ q = cc in
    let rest : xs ++ y ∷ ys ≡ ps ++ p ∷ qs = cc in
    elim (parts xs y ys ps p qs rest) [
      | inl (us, h, k) ↦ inl (us, rw (xq, h) refl, k)
      | inr h ↦ inr h
    ]

-- A node of a tree with the part above it, and the right side of the tree at it.
pub record Found (whole : Tree) (p : ℕ) (rest : List ℕ) (bound : ℕ) : Type 0 where
  pub frames : List Frame
  pub colour : Bool
  pub l : Tree
  pub r : Tree
  pub plugged : plug frames (node colour l p r) ≡ whole
  pub behind : flatten r ++ after frames ≡ rest
  pub within : length frames + suc (depth r) ≤ bound

found :
    (t : Tree) (fs : List Frame) (ps : List ℕ) (p : ℕ) (qs : List ℕ)
    → flatten t ≡ ps ++ p ∷ qs
    → Found (plug fs t) p (qs ++ after fs) (length fs + depth t)
unfolding flatten depth
found leaf fs [] p qs e = cc
found leaf fs (q ∷ ps) p qs e = cc
found (node c a q b) fs ps p qs e =
    let on_left : Frame = record { side = left; colour = c; at = q; sibling = b } in
    let on_right : Frame = record { side = right; colour = c; at = q; sibling = a } in
    elim (parts (flatten a) q (flatten b) ps p qs e) [
      | inl (us, h, k) ↦
          let rec = found a (on_left ∷ fs) ps p us h in
          record {
            frames = rec.frames;
            colour = rec.colour;
            l = rec.l;
            r = rec.r;
            plugged = rec.plugged;
            behind =
                rec.behind
                ∙ sym (append_assoc us (q ∷ flatten b) (after fs))
                ∙ ap (λ xs. xs ++ after fs) (sym k);
            within = omega (arith, rec.within);
          }
      | inr (inl (h, k)) ↦ record {
        frames = fs;
        colour = c;
        l = a;
        r = b;
        plugged = rw h refl;
        behind = rw k refl;
        within = omega arith;
      }
      | inr (inr (vs, h)) ↦
          let rec = found b (on_right ∷ fs) vs p qs h in
          record {
            frames = rec.frames;
            colour = rec.colour;
            l = rec.l;
            r = rec.r;
            plugged = rec.plugged;
            behind = rec.behind;
            within = omega (arith, rec.within);
          }
    ]

pub located :
    (t : Tree) (ps : List ℕ) (p : ℕ) (qs : List ℕ)
    → flatten t ≡ ps ++ p ∷ qs
    → Found t p qs (depth t)
located t ps p qs e =
    let f = found t [] ps p qs e in
    record {
      frames = f.frames;
      colour = f.colour;
      l = f.l;
      r = f.r;
      plugged = f.plugged;
      behind = f.behind ∙ append-nil qs;
      within = omega (arith, f.within);
    }
