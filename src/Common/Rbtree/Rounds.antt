-- ===== src/Common/Rbtree/Rounds.antt =====
-- code/common/rbtree.c: how many rounds the loops of rbtree_insert need, by the number of nodes.
use native.Mathlib.Nat.{pow-le-pow_right}
use headquarter.Base.{ℕ, suc, ◌*◌, ◌^◌, ◌≤◌, ◌<◌, ◌≡◌, Bool-cases, inl, inr, leb, leb→le, ok, arith}
use headquarter.Common.Rbtree.{Nodes, Rbtree, rbtree_insert}
use headquarter.Common.Rbtree.Tree.{Tree, count}
use headquarter.Common.Rbtree.Shape.{black_height, depth-le, size, size-ge}
use headquarter.Common.Rbtree.Attach.{Fresh}
use headquarter.Common.Rbtree.Insert.{IsRbtree, rbtree_insert-IsRbtree}

two_pow : {i j : ℕ} → i ≤ j → 2 ^ i ≤ 2 ^ j
two_pow le = pow-le-pow_right (omega arith) le

height-le : (k h m : ℕ) → 2 ^ h ≤ m → m < 2 ^ suc k → h ≤ k
height-le k h m a b = elim (Bool-cases (leb h k)) [
  | inl e ↦ leb→le h k e
  | inr e ↦ let above : suc k ≤ h = ground (arith, e) in absurd (omega (arith, a, b, two_pow above))
]

-- In a tree of fewer than 2^(k+1) - 1 nodes, 2k + 1 rounds of each loop are enough for rbtree_insert of a
-- node that is not in the tree to end without a fault.
pub rbtree_insert-rounds :
    (k fuel : ℕ) (s : Nodes) (tree : Rbtree) (t : Tree) (n : ℕ)
    → IsRbtree s tree t
    → Fresh tree.sentinel n
    → count n t ≡ 0
    → suc (size t) < 2 ^ suc k
    → 2 * k < fuel
    → (s' : Nodes) × (root : ℕ) × (rbtree_insert fuel s tree n
        ≡ ok (s', record tree { root = root }))
rbtree_insert-rounds k fuel s tree t n h fresh apart small enough =
    let bound = height-le k (black_height t) (suc (size t)) (size-ge t h.shape) small in
    let deep = rw h.root_black at (depth-le t h.shape) in
    let done =
      rbtree_insert-IsRbtree fuel s tree t n h fresh apart (omega (arith, bound, deep, enough)) in
    (done.0, done.1, done.3)
