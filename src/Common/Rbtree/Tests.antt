-- ===== src/Common/Rbtree/Tests.antt =====
-- The nodes 2, 3 and 4, each its own key, below the sentinel 1: a black root 3 with two red children.
use headquarter.Base.{
  ℕ, ◌+◌, ◌≤◌, ◌≡◌, refl, true, false, [], ◌∷◌, ◌==◌, if◌then◌else◌, ◌>>=◌, Outcome, ok, Bool,
  arith, List,
}
use headquarter.Common.Rbtree.{
  Side, left, right, Nodes, Rbtree, rbtree_init, rbtree_insert, first_node, insert_core,
  insert_loop, insert_round, recolour, restore, turn_down, rotate, replace_child, attach, load_key,
  load_child, load_parent, load_red, store_child, store_parent, store_red,
}
use headquarter.Common.Rbtree.Tree.{Tree, leaf, node, Frame, plug, count, count_above}
use headquarter.Common.Rbtree.Focus.{At}
use headquarter.Common.Rbtree.Finish.{Repaired}
use headquarter.Common.Rbtree.Repair.{delete_loop-Repaired}
use headquarter.Common.Rbtree.Shape.{black_height, depth, size}
use headquarter.Common.Rbtree.Order.{flatten, place}
use headquarter.Common.Rbtree.Attach.{Fresh}
use headquarter.Common.Rbtree.Insert.{IsRbtree, rbtree_insert-IsRbtree}
use headquarter.Common.Rbtree.Rounds.{rbtree_insert-rounds}
use headquarter.Common.Rbtree.Delete.{
  rbtree_delete, choose, delete_inner, unlink, take_place, adopt_child, clear_links, delete_loop,
  delete_round, turn_sibling, lift_sibling, both_black,
}
use headquarter.Common.Rbtree.Walk.{min_loop, rbtree_min, rbtree_next}
use headquarter.Common.Rbtree.Successor.{rbtree_next-first_or}

abbrev sample_child : Side → ℕ → ℕ
sample_child left q = if q == 3 then 2 else 1
sample_child right q = if q == 3 then 4 else 1

abbrev sample : Nodes
sample = record {
  key = λ q. q;
  child = sample_child;
  parent = λ q. if q == 3 then 0 else 3;
  red = λ q. if q == 2 then true else q == 4;
}

abbrev sample_tree : Rbtree
sample_tree = record { root = 3; sentinel = 1 }

abbrev three : Tree
three = node false (node true leaf 2 leaf) 3 (node true leaf 4 leaf)

once : (q : ℕ) → count_above q [] + count q three ≤ 1
unfolding count count_above
once q = ground arith

three-IsRbtree : IsRbtree sample sample_tree three
unfolding count count_above black_height flatten
three-IsRbtree = record {
  above = 0;
  here = record {
    rep_above = refl;
    rep = (
      (refl, refl, refl, refl),
      ((refl, refl, refl, refl), tt, tt),
      ((refl, refl, refl, refl), tt, tt),
    );
    clear = record { once = once; no_null = refl; no_sent = refl };
  };
  sent_null = refl;
  sent_black = refl;
  shape = (refl, refl, refl, (refl, refl, refl, tt, tt), (refl, refl, refl, tt, tt));
  root_black = refl;
  sorted = ((omega arith, (omega arith, tt)), ((omega arith, tt), (tt, tt)));
}

five-Fresh : Fresh 1 5
five-Fresh = record { not_null = refl; not_sent = refl }

rbtree_insert-IsRbtree_example :
    (s' : Nodes) × (root : ℕ) × (t' : Tree) × (rbtree_insert 3 sample sample_tree 5
      ≡ ok (s', record sample_tree { root = root }))
    × IsRbtree s' (record sample_tree { root = root }) t'
    × (flatten t' ≡ place sample.key 5 (flatten three))
    × (s'.key ≡ sample.key)
unfolding count depth
rbtree_insert-IsRbtree_example =
    rbtree_insert-IsRbtree 3 sample sample_tree three 5 three-IsRbtree five-Fresh refl (omega arith)

rbtree_insert-rounds_example :
    (s' : Nodes) × (root : ℕ) × (rbtree_insert 5 sample sample_tree 5
      ≡ ok (s', record sample_tree { root = root }))
unfolding count size
rbtree_insert-rounds_example =
    rbtree_insert-rounds 2 5 sample sample_tree three 5 three-IsRbtree five-Fresh refl (omega arith)
      (omega arith)

rbtree_next-first_or_example : rbtree_next 3 sample sample_tree 3 ≡ ok 4
unfolding flatten depth
rbtree_next-first_or_example =
    rbtree_next-first_or 3 sample sample_tree three (2 ∷ []) 3 (4 ∷ []) three-IsRbtree refl
      (omega arith)

-- The nodes 2 to 6 from an empty tree on: the root is 3, and its right child 5 has two red children.
abbrev empty : Nodes
empty = record { key = λ q. q; child = λ side q. 0; parent = λ q. 0; red = λ q. true }

abbrev five_inserted : Outcome (ℕ × ℕ × Bool × Bool)
five_inserted = do
  (s0, t0) ← rbtree_init empty 1
  (s1, t1) ← rbtree_insert 5 s0 t0 2
  (s2, t2) ← rbtree_insert 5 s1 t1 3
  (s3, t3) ← rbtree_insert 5 s2 t2 4
  (s4, t4) ← rbtree_insert 5 s3 t3 5
  (s5, t5) ← rbtree_insert 5 s4 t4 6
  ok (t5.root, s5.child right 3, s5.red 5, s5.red 6)

five_inserted-run : five_inserted ≡ ok (3, 5, false, true)
unfolding rbtree_init rbtree_insert first_node insert_core insert_loop insert_round recolour restore
    turn_down rotate replace_child attach load_key load_child load_parent load_red store_child
    store_parent store_red
five_inserted-run = refl

-- With 5 and without 3 the tree has 4 at the root; without 2 as well, 5 is its red right child.
abbrev two_deleted : Outcome (ℕ × ℕ × ℕ × Bool)
two_deleted = do
  (s1, t1) ← rbtree_insert 5 sample sample_tree 5
  (s2, t2) ← rbtree_delete 5 s1 t1 3
  (s3, t3) ← rbtree_delete 5 s2 t2 2
  ok (t2.root, t3.root, s3.child right t3.root, s3.red 5)

two_deleted-run : two_deleted ≡ ok (4, 4, 5, true)
unfolding rbtree_insert insert_core insert_loop insert_round recolour restore turn_down rotate
    replace_child attach load_key load_child load_parent load_red store_child store_parent store_red
    rbtree_delete choose rbtree_min min_loop delete_inner unlink take_place adopt_child clear_links
    delete_loop delete_round turn_sibling lift_sibling both_black
two_deleted-run = refl

-- The black nodes 3 and 4, where 2 was taken out on the left.
abbrev cut : Nodes
cut = record {
  key = λ q. q;
  child = λ side q. elim side [ left ↦ 1 | right ↦ if q == 3 then 4 else 1 ];
  parent = λ q. if q == 3 then 0 else 3;
  red = λ q. false;
}

abbrev hole : List Frame
hole = record { side = left; colour = false; at = 3; sibling = node false leaf 4 leaf } ∷ []

once_cut : (q : ℕ) → count_above q hole + count q leaf ≤ 1
unfolding count count_above
once_cut q = ground arith

cut-At : At cut 1 3 0 hole leaf
unfolding count count_above
cut-At = record {
  rep_above = (refl, refl, refl, refl, ((refl, refl, refl, refl), tt, tt), refl);
  rep = tt;
  clear = record { once = once_cut; no_null = refl; no_sent = refl };
}

delete_loop-Repaired_example : Repaired cut 1 0 (delete_loop 2 cut 3 1 1) (plug hole leaf)
unfolding black_height
delete_loop-Repaired_example =
    delete_loop-Repaired 2 cut 1 3 0 hole leaf refl refl cut-At refl tt
      (refl, refl, refl, (refl, refl, refl, tt, tt), tt) (omega arith)
