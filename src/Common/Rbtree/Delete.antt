-- ===== src/Common/Rbtree/Delete.antt =====
-- code/common/rbtree.c: rbtree_delete, built without _NDEBUG. The part for the two mirror images takes
-- the side of `temp` as an argument; `fuel` bounds the way down and the rounds of the loop.
use headquarter.Base.{
  ℕ, zero, suc, Bool, true, false, not, ◌==◌, if◌then◌else◌, Outcome, ok, fault, ◌>>=◌,
}
use headquarter.Common.Rbtree.{
  Side, left, right, flip, Nodes, Rbtree, null, load_child, load_parent, load_red, store_child,
  store_parent, store_red, replace_child, rotate,
}
use headquarter.Common.Rbtree.Walk.{rbtree_min}

-- The node `subst` that leaves its place, and `temp` that comes there.
unfoldable pub choose : ℕ → Nodes → Rbtree → ℕ → Outcome (ℕ × ℕ)
choose fuel s tree node = do
  l ← load_child s left node
  r ← load_child s right node
  let from_right = (do
    subst ← rbtree_min fuel s tree r
    sl ← load_child s left subst
    sr ← load_child s right subst
    ok (subst, (if sl == tree.sentinel then sr else sl)))
  if l == tree.sentinel
      then ok (node, r)
      else if r == tree.sentinel
      then ok (node, l)
      else from_right

unfoldable pub clear_links : Nodes → ℕ → Outcome Nodes
clear_links s node = do
  s1 ← store_child s left node null
  s2 ← store_child s1 right node null
  store_parent s2 node null

-- `temp` in the place of `subst` under its parent.
unfoldable pub unlink : Nodes → ℕ → ℕ → Outcome Nodes
unlink s subst temp = do
  parent ← load_parent s subst
  l ← load_child s left parent
  store_child s (if subst == l then left else right) parent temp

unfoldable pub adopt_child : Side → Nodes → ℕ → ℕ → Outcome Nodes
adopt_child side s sentinel subst = do
  c ← load_child s side subst
  if c == sentinel then ok s else store_parent s c subst

-- `subst`, which is not `node`, takes its place and colour.
unfoldable pub take_place : Nodes → ℕ → ℕ → ℕ → ℕ → ℕ → Outcome (Nodes × ℕ)
take_place s root sentinel node subst temp = do
  subst_parent ← load_parent s subst
  s1 ← store_parent s temp (if subst_parent == node then subst else subst_parent)
  l ← load_child s1 left node
  s2 ← store_child s1 left subst l
  r ← load_child s2 right node
  s3 ← store_child s2 right subst r
  parent ← load_parent s3 node
  s4 ← store_parent s3 subst parent
  red ← load_red s4 node
  s5 ← store_red s4 subst red
  (s6, root') ← replace_child s5 root node subst
  s7 ← adopt_child left s6 sentinel subst
  s8 ← adopt_child right s7 sentinel subst
  ok (s8, root')

unfoldable pub both_black : Nodes → ℕ → Outcome Bool
both_black s sibling = do
  l ← load_child s left sibling
  l_red ← load_red s l
  elim l_red [
    | true ↦ ok false
    | false ↦ (do r ← load_child s right sibling; r_red ← load_red s r; ok (not r_red))
  ]

-- A red sibling is turned up, and the next one is black.
unfoldable pub turn_sibling : Side → Nodes → ℕ → ℕ → ℕ → ℕ → Outcome (Nodes × ℕ × ℕ)
turn_sibling side s root sentinel temp sibling = do
  red ← load_red s sibling
  elim red [
    | false ↦ ok (s, root, sibling)
    | true ↦ (do
      s1 ← store_red s sibling false
      parent ← load_parent s1 temp
      s2 ← store_red s1 parent true
      (s3, root') ← rotate side s2 root sentinel parent
      parent' ← load_parent s3 temp
      sibling' ← load_child s3 (flip side) parent'
      ok (s3, root', sibling'))
  ]

-- A sibling whose far child is black gets its near child above it.
unfoldable pub turn_near : Side → Nodes → ℕ → ℕ → ℕ → ℕ → Outcome (Nodes × ℕ × ℕ)
turn_near side s root sentinel temp sibling = do
  far ← load_child s (flip side) sibling
  far_red ← load_red s far
  elim far_red [
    | true ↦ ok (s, root, sibling)
    | false ↦ (do
      near ← load_child s side sibling
      s1 ← store_red s near false
      s2 ← store_red s1 sibling true
      (s3, root') ← rotate (flip side) s2 root sentinel sibling
      parent ← load_parent s3 temp
      sibling' ← load_child s3 (flip side) parent
      ok (s3, root', sibling'))
  ]

-- The sibling with a red far child goes up to the parent.
unfoldable pub turn_far : Side → Nodes → ℕ → ℕ → ℕ → ℕ → Outcome (Nodes × ℕ)
turn_far side s root sentinel temp sibling = do
  parent ← load_parent s temp
  red ← load_red s parent
  s1 ← store_red s sibling red
  s2 ← store_red s1 parent false
  far ← load_child s2 (flip side) sibling
  s3 ← store_red s2 far false
  rotate side s3 root sentinel parent

-- The rest of a round, with a black sibling; the last result is where the loop goes on.
unfoldable pub lift_sibling : Side → Nodes → ℕ → ℕ → ℕ → ℕ → Outcome (Nodes × ℕ × ℕ)
lift_sibling side s root sentinel temp sibling = do
  black ← both_black s sibling
  elim black [
    | true ↦ (do s1 ← store_red s sibling true; parent ← load_parent s1 temp; ok (s1, root, parent))
    | false ↦ (do
      (s1, root1, sibling1) ← turn_near side s root sentinel temp sibling
      (s2, root2) ← turn_far side s1 root1 sentinel temp sibling1
      ok (s2, root2, root2))
  ]

-- One round at a black `temp`.
unfoldable pub delete_round : Nodes → ℕ → ℕ → ℕ → Outcome (Nodes × ℕ × ℕ)
delete_round s root sentinel temp = do
  parent ← load_parent s temp
  l ← load_child s left parent
  let side = if temp == l then left else right
  sibling ← load_child s (flip side) parent
  (s1, root1, sibling1) ← turn_sibling side s root sentinel temp sibling
  lift_sibling side s1 root1 sentinel temp sibling1

unfoldable pub delete_loop : ℕ → Nodes → ℕ → ℕ → ℕ → Outcome (Nodes × ℕ)
delete_loop zero s root sentinel temp = fault
delete_loop (suc fuel) s root sentinel temp =
    let finish = (do s' ← store_red s temp false; ok (s', root)) in
    elim (temp == root) [
      | true ↦ finish
      | false ↦ (do
        red ← load_red s temp
        elim red [
          | true ↦ finish
          | false ↦ (do
            (s', root', temp') ← delete_round s root sentinel temp
            delete_loop fuel s' root' sentinel temp')
        ])
    ]

-- `subst` is the root.
unfoldable pub delete_root : Nodes → Rbtree → ℕ → ℕ → Outcome (Nodes × Rbtree)
delete_root s tree node temp = do
  s1 ← store_red s temp false
  s2 ← clear_links s1 node
  ok (s2, record tree { root = temp })

unfoldable pub delete_inner : ℕ → Nodes → Rbtree → ℕ → ℕ → ℕ → Outcome (Nodes × Rbtree)
delete_inner fuel s tree node subst temp = do
  subst_is_red ← load_red s subst
  s1 ← unlink s subst temp
  let stay = (do
    parent ← load_parent s1 subst
    s' ← store_parent s1 temp parent
    ok (s', tree.root))
  (s2, root2) ←
      (if subst == node then stay else take_place s1 tree.root tree.sentinel node subst temp)
  s3 ← clear_links s2 node
  elim subst_is_red [
    | true ↦ ok (s3, record tree { root = root2 })
    | false ↦ (do
      (s4, root4) ← delete_loop fuel s3 root2 tree.sentinel temp
      ok (s4, record tree { root = root4 }))
  ]

unfoldable pub rbtree_delete : ℕ → Nodes → Rbtree → ℕ → Outcome (Nodes × Rbtree)
rbtree_delete fuel s tree node = do
  (subst, temp) ← choose fuel s tree node
  if subst == tree.root
      then delete_root s tree node temp
      else delete_inner fuel s tree node subst temp
