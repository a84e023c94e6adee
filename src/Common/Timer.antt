-- ===== src/Common/Timer.antt =====
-- code/common/timer.c and timer.h: the timers, in a red-black tree by the time at which they end. A timer
-- is known by the address of its node. The clock is the argument `now`, and what the handlers do is the
-- parameter `handler`; `fuel` bounds the loops of the tree, `rounds` the one of process_timers.
mod Tests
use headquarter.Base.{
  ℕ, zero, suc, ◌+◌, Bool, true, false, u64, ltb, ◌==◌, if◌then◌else◌, Outcome, ok, fault, ◌>>=◌,
}
use headquarter.Common.Rbtree.{Nodes, Rbtree, null, write, load_key, rbtree_init, rbtree_insert}
use headquarter.Common.Rbtree.Walk.{rbtree_min}
use headquarter.Common.Rbtree.Delete.{rbtree_delete}

-- `timer_rbtree`, the nodes, and the field `timer_set` of every timer.
pub record Timers : Type 0 where
  pub tree : Rbtree
  pub nodes : Nodes
  pub timer_set : ℕ → Bool

unfoldable pub init_timers : Timers → ℕ → Outcome Timers
init_timers s timer_sentinel = do
  (nodes, tree) ← rbtree_init s.nodes timer_sentinel
  ok (record s { tree = tree; nodes = nodes })

unfoldable pub timer_del : ℕ → Timers → ℕ → Outcome Timers
timer_del fuel s timer = do
  (nodes, tree) ← rbtree_delete fuel s.nodes s.tree timer
  ok (record s { tree = tree; nodes = nodes; timer_set = write s.timer_set timer false })

unfoldable pub timer_add : ℕ → ℕ → Timers → ℕ → ℕ → Outcome Timers
timer_add now fuel s timer timeout = do
  let key = u64 (now + timeout)
  s1 ← (if s.timer_set timer then timer_del fuel s timer else ok s)
  let keyed : Nodes = record s1.nodes { key = write s1.nodes.key timer key }
  (nodes, tree) ← rbtree_insert fuel keyed s1.tree timer
  ok (record s1 { tree = tree; nodes = nodes; timer_set = write s1.timer_set timer true })

module _ {World : Type 0} (handler : ℕ → World × Timers → Outcome (World × Timers)) where
  -- The loop of `process_timers`, with the time that it read before; what it does to the timer before the
  -- handler is what timer_del does.
  unfoldable pub process_loop : ℕ → ℕ → ℕ → World × Timers → Outcome (World × Timers)
  process_loop zero current_time fuel (w, s) = fault
  process_loop (suc rounds) current_time fuel (w, s) = elim (s.tree.root == s.tree.sentinel) [
    | true ↦ ok (w, s)
    | false ↦ (do
      node ← rbtree_min fuel s.nodes s.tree s.tree.root
      key ← load_key s.nodes node
      elim (ltb current_time key) [
        | true ↦ ok (w, s)
        | false ↦ (do
          s1 ← timer_del fuel s node
          (w2, s2) ← handler node (w, s1)
          process_loop rounds current_time fuel (w2, s2))
      ])
  ]

  unfoldable pub process_timers : ℕ → ℕ → ℕ → World × Timers → Outcome (World × Timers)
  process_timers rounds now fuel (w, s) = process_loop rounds now fuel (w, s)
