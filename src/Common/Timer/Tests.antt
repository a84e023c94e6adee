-- ===== src/Common/Timer/Tests.antt =====
-- Three timers at the time 100, two of which are due at 107.
use headquarter.Base.{◌≡◌, refl, true, ℕ, Bool, false, true, List, [], ◌∷◌, Outcome, ok, ◌>>=◌}
use headquarter.Common.Rbtree.{
  rbtree_init, rbtree_insert, first_node, insert_core, insert_loop, insert_round, recolour, restore,
  turn_down, rotate, replace_child, attach, load_key, load_child, load_parent, load_red,
  store_child, store_parent, store_red,
}
use headquarter.Common.Rbtree.Walk.{rbtree_min, min_loop}
use headquarter.Common.Rbtree.Delete.{
  rbtree_delete, choose, delete_inner, delete_root, unlink, take_place, adopt_child, clear_links,
  delete_loop, delete_round, turn_sibling, lift_sibling, both_black, turn_near, turn_far,
}
use headquarter.Common.Timer.{
  Timers, init_timers, timer_add, timer_del, process_timers, process_loop,
}

abbrev start : Timers
start = record {
  tree = record { root = 0; sentinel = 0 };
  nodes = record { key = λ q. 0; child = λ side q. 0; parent = λ q. 0; red = λ q. false };
  timer_set = λ q. false;
}

-- Each handler notes its timer.
abbrev noted : ℕ → List ℕ × Timers → Outcome (List ℕ × Timers)
noted timer (w, s) = ok (timer ∷ w, s)

-- The timers that ran, the last first, the one that is left, and whether 2 is still set.
abbrev two_due : Outcome (List ℕ × ℕ × Bool)
two_due = do
  s0 ← init_timers start 1
  s1 ← timer_add 100 5 s0 2 30
  s2 ← timer_add 100 5 s1 3 5
  s3 ← timer_add 100 5 s2 4 7
  s4 ← timer_add 100 5 s3 2 20
  (w, s5) ← process_timers noted 5 107 5 ([], s4)
  ok (w, s5.tree.root, s5.timer_set 2)

two_due-run : two_due ≡ ok (4 ∷ 3 ∷ [], 2, true)
unfolding init_timers timer_add timer_del process_timers process_loop rbtree_init rbtree_insert
    first_node insert_core insert_loop insert_round recolour restore turn_down rotate replace_child
    attach load_key load_child load_parent load_red store_child store_parent store_red rbtree_delete
    choose rbtree_min min_loop delete_inner delete_root unlink take_place adopt_child clear_links
    delete_loop delete_round turn_sibling lift_sibling both_black turn_near turn_far
two_due-run = refl
