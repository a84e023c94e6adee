-- ===== src/Common/Rbtree/Focus.antt =====
-- code/common/rbtree.c: the tree in memory seen from one place, and runs that end in such a view.
use headquarter.Base.{ℕ, ◌+◌, ◌≡◌, List, Outcome, ok}
use headquarter.Common.Rbtree.{Nodes}
use headquarter.Common.Rbtree.Tree.{Tree, Frame, count, count_above, Rep, RepAbove, Same, top, up}
use headquarter.Common.Rbtree.Replace.{Clear}

-- The nodes in memory are the tree `t` below the frames.
pub record At (s : Nodes) (sent root above : ℕ) (fs : List Frame) (t : Tree) : Type 0 where
  pub rep_above : RepAbove s sent root above (top sent t) fs
  pub rep : Rep s sent (up above fs) t
  pub clear : Clear sent (λ q. count_above q fs + count q t)

-- A run from the nodes `s` ends, and below the frames is then the tree `t`; nodes elsewhere and all keys
-- are as before.
pub record Becomes (s : Nodes) (sent above : ℕ) (o : Outcome (Nodes × ℕ)) (fs : List Frame)
    (t : Tree) : Type 0 where
  pub nodes : Nodes
  pub new_root : ℕ
  pub run : o ≡ ok (nodes, new_root)
  pub here : At nodes sent new_root above fs t
  pub keys : nodes.key ≡ s.key
  pub same : (q : ℕ) → count_above q fs + count q t ≡ 0 → Same s nodes q
