-- ===== src/Common/Rbtree/Attach.antt =====
-- code/common/rbtree.c: rbtree_insert_core, which hangs a new red leaf in the place of its key.
use headquarter.Base.{
  ℕ, ◌+◌, ◌≤◌, ◌≡◌, refl, ◌∙◌, true, false, List, ◌∷◌, ◌==◌, ==_iff, Bool-cases, inl, inr, ok,
  arith,
}
use headquarter.Common.Rbtree.{
  left, right, flip, Nodes, null, store_child, store_parent, store_red, attach,
}
use headquarter.Common.Rbtree.Tree.{
  ==_self, leaf, node, Frame, count, count_above, hit, hit-zero, hit-away, hit-ne, Same,
}
use headquarter.Common.Rbtree.Same.{
  Rep-Same, RepAbove-Same, Same-trans, set_child, set_child-Same, set_parent, set_red,
  write_side-same, write_side-else, write_side-flip,
}
use headquarter.Common.Rbtree.Focus.{At}

-- A node that is neither in the tree nor the null pointer or the sentinel.
pub record Fresh (sent n : ℕ) : Type 0 where
  pub not_null : (n == null) ≡ false
  pub not_sent : (n == sent) ≡ false

module _ (s : Nodes) (sent root above : ℕ) (f : Frame) (fs : List Frame) (n : ℕ)
    (fresh : Fresh sent n) (apart : count_above n (f ∷ fs) ≡ 0) where
  abbrev s4 : Nodes
  s4 = set_red (set_parent (set_child (set_child s left n sent) right n sent) n f.at) n true

  abbrev pub attached : Nodes
  attached = set_child s4 f.side f.at n

  s4-Same : (q : ℕ) → hit q n ≡ 0 → Same s s4 q
  s4-Same q h =
      let k = hit-zero q n h in
      (
        λ side.
            write_side-else (set_child s left n sent).child right side n sent q k
            ∙ write_side-else s.child left side n sent q k,
        rw k refl,
        rw k refl,
      )

  pub attached-Same : (q : ℕ) → hit q n ≡ 0 → hit q f.at ≡ 0 → Same s attached q
  attached-Same q h k =
      Same-trans s s4 attached q (s4-Same q h)
        (set_child-Same s4 f.side f.at n q (hit-zero q f.at k))

  once : (q : ℕ) → count_above q (f ∷ fs) ≤ 1 → hit q n + count_above q (f ∷ fs) ≤ 1
  once q le = elim (Bool-cases (q == n)) [
    | inl e ↦ rw (e, (==_iff q n).0 e, apart) omega arith
    | inr e ↦ rw e omega (arith, le)
  ]

  pub At-attached :
      At s sent root above (f ∷ fs) leaf
      → (attach s sent f.side f.at n ≡ ok attached)
        × At attached sent root above (f ∷ fs) (node true leaf n leaf)
  unfolding attach store_child store_parent store_red count count_above
  At-attached here =
      let zn = hit-zero n f.at (omega (arith, apart)) in
      let nz = hit-away n f.at (omega (arith, apart)) in
      let an = hit-away null f.at (omega (arith, here.clear.no_null)) in
      let r = here.rep_above in
      let at = s4-Same f.at (hit-ne f.at n zn) in
      (
        rw (fresh.not_null, an) refl,
        record {
          rep_above = (
            at.1 ∙ r.0,
            at.2 ∙ r.1,
            write_side-same s4.child f.side f.at n,
            write_side-flip s4.child f.side f.at n f.at ∙ at.0 (flip f.side) ∙ r.3,
            Rep-Same s attached sent f.sibling f.at
                (λ q k.
                  attached-Same q (omega (arith, k, once q (omega (arith, here.clear.once q))))
                    (omega (arith, k, here.clear.once q)))
                r.4,
            RepAbove-Same s attached sent root above f.at fs
                (λ q k.
                  attached-Same q (omega (arith, k, once q (omega (arith, here.clear.once q))))
                    (omega (arith, k, here.clear.once q)))
                r.5,
          );
          rep = (
            (
              rw (==_self n) refl,
              rw (==_self n) refl,
              write_side-else s4.child f.side left f.at n n zn ∙ (rw (==_self n) refl),
              write_side-else s4.child f.side right f.at n n zn ∙ (rw (==_self n) refl),
            ),
            tt,
            tt,
          );
          clear = record {
            once = λ q. omega (arith, once q (omega (arith, here.clear.once q)));
            no_null = omega (arith, here.clear.no_null, hit-ne null n fresh.not_null);
            no_sent = omega (arith, here.clear.no_sent, hit-ne sent n fresh.not_sent);
          };
        },
      )
