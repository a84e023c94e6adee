-- ===== src/Common/Rbtree.antt =====
-- code/common/rbtree.h and rbtree.c: red-black trees whose links are inside of the structs that they
-- join. The fields of all nodes are kept by address; reading or writing through the null pointer is a
-- fault, and so is a loop that runs out of fuel; a failed assertion is `aborted`. The functions that the source writes out for the two
-- mirror images take the side as an argument.
pub mod Tree
pub mod Same
pub mod Replace
pub mod Focus
pub mod Adopt
pub mod Rotate
pub mod Zip
pub mod Paint
pub mod Shape
pub mod Order
pub mod Colour
pub mod Restore
pub mod Round
pub mod Loop
pub mod Turn
pub mod Step
pub mod Settle
pub mod Attach
pub mod Descend
pub mod Insert
pub mod Walk
pub mod Locate
pub mod Successor
pub mod Rounds
pub mod Delete
pub mod Lift
pub mod Finish
pub mod Mend
pub mod Sibling
pub mod RedSibling
pub mod Nearby
pub mod Repair
mod Tests
use headquarter.Base.{
  ℕ, zero, suc, Bool, true, false, ltb, ◌==◌, if◌then◌else◌, Outcome, ok, fault, aborted, ◌||◌,
  ◌>>=◌,
}

pub data Side : Type 0 where
  left : Side
  right : Side

abbrev pub flip : Side → Side
flip left = right
flip right = left

-- `struct rbnode`, for every address; a node is red or black.
pub record Nodes : Type 0 where
  pub key : ℕ → ℕ
  pub child : Side → ℕ → ℕ
  pub parent : ℕ → ℕ
  pub red : ℕ → Bool

pub record Rbtree : Type 0 where
  pub root : ℕ
  pub sentinel : ℕ

abbrev pub null : ℕ
null = 0

abbrev pub write {ℓ} : {A : Type ℓ} → (ℕ → A) → ℕ → A → ℕ → A
write f p v q = if q == p then v else f q

abbrev pub write_side : (Side → ℕ → ℕ) → Side → ℕ → ℕ → Side → ℕ → ℕ
write_side f left p v left = write (f left) p v
write_side f left p v right = f right
write_side f right p v left = f left
write_side f right p v right = write (f right) p v

unfoldable pub load_key : Nodes → ℕ → Outcome ℕ
load_key s p = if p == null then fault else ok (s.key p)

unfoldable pub load_child : Nodes → Side → ℕ → Outcome ℕ
load_child s side p = if p == null then fault else ok (s.child side p)

unfoldable pub load_parent : Nodes → ℕ → Outcome ℕ
load_parent s p = if p == null then fault else ok (s.parent p)

-- `rbtree_is_red`
unfoldable pub load_red : Nodes → ℕ → Outcome Bool
load_red s p = if p == null then fault else ok (s.red p)

unfoldable pub store_child : Nodes → Side → ℕ → ℕ → Outcome Nodes
store_child s side p v =
    if p == null then fault else ok (record s { child = write_side s.child side p v })

unfoldable pub store_parent : Nodes → ℕ → ℕ → Outcome Nodes
store_parent s p v = if p == null then fault else ok (record s { parent = write s.parent p v })

-- `rbtree_set_red` and `rbtree_set_black`
unfoldable pub store_red : Nodes → ℕ → Bool → Outcome Nodes
store_red s p v = if p == null then fault else ok (record s { red = write s.red p v })

unfoldable pub rbtree_init : Nodes → ℕ → Outcome (Nodes × Rbtree)
rbtree_init s sentinel = do
  s1 ← store_red s sentinel false
  ok (s1, record { root = sentinel; sentinel = sentinel })

-- `temp` takes the place of `node` under its parent, or as the root.
unfoldable pub replace_child : Nodes → ℕ → ℕ → ℕ → Outcome (Nodes × ℕ)
replace_child s root node temp =
    let below = (do
      parent ← load_parent s node
      l ← load_child s left parent
      s' ← store_child s (if node == l then left else right) parent temp
      ok (s', root)) in
    if node == root then ok (s, temp) else below

-- `rbtree_rotate_left` and `rbtree_rotate_right`; the results are the nodes and the root.
unfoldable pub rotate : Side → Nodes → ℕ → ℕ → ℕ → Outcome (Nodes × ℕ)
rotate side s root sentinel node = do
  temp ← load_child s (flip side) node
  mid ← load_child s side temp
  s1 ← store_child s (flip side) node mid
  s2 ← (if mid == sentinel then ok s1 else store_parent s1 mid node)
  s3 ← store_child s2 side temp node
  above ← load_parent s3 node
  s4 ← store_parent s3 temp above
  (s5, root') ← replace_child s4 root node temp
  s6 ← store_parent s5 node temp
  ok (s6, root')

-- The leaf that `node` becomes, under `parent`.
unfoldable pub attach : Nodes → ℕ → Side → ℕ → ℕ → Outcome Nodes
attach s sentinel side parent node = do
  s1 ← store_child s left node sentinel
  s2 ← store_child s1 right node sentinel
  s3 ← store_parent s2 node parent
  s4 ← store_red s3 node true
  store_child s4 side parent node

-- `rbtree_insert_core`
unfoldable pub insert_core : ℕ → Nodes → ℕ → ℕ → ℕ → Outcome Nodes
insert_core zero s root sentinel node = fault
insert_core (suc fuel) s root sentinel node = do
  node_key ← load_key s node
  root_key ← load_key s root
  let side = if ltb node_key root_key then left else right
  it ← load_child s side root
  elim (it == sentinel) [
    | true ↦ attach s sentinel side root node
    | false ↦ insert_core fuel s it sentinel node
  ]

-- A red uncle: the colours move up to the grandparent, where the loop goes on.
unfoldable pub recolour : Nodes → ℕ → ℕ → ℕ → Outcome Nodes
recolour s parent uncle grand = do
  s1 ← store_red s parent false
  s2 ← store_red s1 uncle false
  store_red s2 grand true

-- The grandparent of `node` is turned down.
unfoldable pub turn_down : Side → Nodes → ℕ → ℕ → ℕ → Outcome (Nodes × ℕ)
turn_down side s root sentinel node = do
  parent ← load_parent s node
  s1 ← store_red s parent false
  grand ← load_parent s1 parent
  s2 ← store_red s1 grand true
  rotate side s2 root sentinel grand

-- A black uncle: `node` and its parent are turned to one line, and then the grandparent down.
unfoldable pub restore : Side → Nodes → ℕ → ℕ → ℕ → ℕ → Outcome (Nodes × ℕ × ℕ)
restore side s root sentinel node parent = do
  inner ← load_child s (flip side) parent
  (s1, root1, node1) ←
      (if node == inner
        then (rotate side s root sentinel parent >>= (λ (s', root'). ok (s', root', parent)))
        else ok (s, root, node))
  (s2, root2) ← turn_down (flip side) s1 root1 sentinel node1
  ok (s2, root2, node1)

-- One round of the loop of rbtree_insert at a node whose parent is red.
unfoldable pub insert_round : Nodes → ℕ → ℕ → ℕ → ℕ → Outcome (Nodes × ℕ × ℕ)
insert_round s root sentinel node parent = do
  grand ← load_parent s parent
  l ← load_child s left grand
  let side = if parent == l then left else right
  uncle ← load_child s (flip side) grand
  uncle_red ← load_red s uncle
  let recoloured = (do s' ← recolour s parent uncle grand; ok (s', root, grand))
  if uncle_red then recoloured else restore side s root sentinel node parent

unfoldable pub insert_loop : ℕ → Nodes → ℕ → ℕ → ℕ → Outcome (Nodes × ℕ)
insert_loop zero s root sentinel node = fault
insert_loop (suc fuel) s root sentinel node = elim (node == root) [
  | true ↦ ok (s, root)
  | false ↦ (do
    parent ← load_parent s node
    red ← load_red s parent
    elim red [
      | false ↦ ok (s, root)
      | true ↦ (do
        (s', root', node') ← insert_round s root sentinel node parent
        insert_loop fuel s' root' sentinel node')
    ])
]

unfoldable pub first_node : Nodes → Rbtree → ℕ → Outcome (Nodes × Rbtree)
first_node s tree node = do
  s1 ← store_child s left node tree.sentinel
  s2 ← store_child s1 right node tree.sentinel
  s3 ← store_parent s2 node null
  s4 ← store_red s3 node false
  ok (s4, record tree { root = node })

-- `fuel` bounds the rounds of both loops.
unfoldable pub rbtree_insert : ℕ → Nodes → Rbtree → ℕ → Outcome (Nodes × Rbtree)
rbtree_insert fuel s tree node =
    let more = (do
      s1 ← insert_core fuel s tree.root tree.sentinel node
      (s2, root) ← insert_loop fuel s1 tree.root tree.sentinel node
      s3 ← store_red s2 root false
      ok (s3, record tree { root = root })) in
    if (node == null) || (tree.root == null)
    then aborted
    else if tree.root == tree.sentinel
    then first_node s tree node
    else more
