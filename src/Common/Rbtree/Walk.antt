-- ===== src/Common/Rbtree/Walk.antt =====
-- code/common/rbtree.c: rbtree_min and rbtree_next. `fuel` bounds the steps down and up.
use headquarter.Base.{ℕ, zero, suc, true, false, ◌==◌, Outcome, ok, fault, ◌>>=◌}
use headquarter.Common.Rbtree.{left, right, Nodes, Rbtree, null, load_child, load_parent}

-- The loop of `rbtree_min`.
unfoldable pub min_loop : ℕ → Nodes → ℕ → ℕ → Outcome ℕ
min_loop zero s sentinel node = fault
min_loop (suc fuel) s sentinel node = do
  l ← load_child s left node
  elim (l == sentinel) [ true ↦ ok node | false ↦ min_loop fuel s sentinel l ]

unfoldable pub rbtree_min : ℕ → Nodes → Rbtree → ℕ → Outcome ℕ
rbtree_min fuel s tree node = min_loop fuel s tree.sentinel node

-- The loop of `rbtree_next`.
unfoldable pub next_loop : ℕ → Nodes → ℕ → ℕ → Outcome ℕ
next_loop zero s root node = fault
next_loop (suc fuel) s root node = do
  parent ← load_parent s node
  elim (node == root) [
    | true ↦ ok null
    | false ↦ (do
      l ← load_child s left parent
      elim (node == l) [ true ↦ ok parent | false ↦ next_loop fuel s root parent ])
  ]

unfoldable pub rbtree_next : ℕ → Nodes → Rbtree → ℕ → Outcome ℕ
rbtree_next fuel s tree node = do
  r ← load_child s right node
  elim (r == tree.sentinel) [
    | true ↦ next_loop fuel s tree.root node
    | false ↦ rbtree_min fuel s tree r
  ]
