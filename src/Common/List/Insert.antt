-- ===== src/Common/List/Insert.antt =====
-- list_add of code/common/list.h and the four functions that call it.
use headquarter.Base.{ℕ, ◌≡◌, ◌≢◌, List, [], ◌∷◌, ◌++◌, append-nil, ok}
use headquarter.Common.List.{
  Links, null, write, list_add, list_insert_head, list_insert_tail, list_insert_before,
  list_insert_after,
}
use headquarter.Common.List.Chain.{
  Chain, NotIn, Apart, IsList, last, first, rest, set_prev, set_next, load_prev-ok, load_next-ok,
  store_prev-ok, store_next-ok, write-same, write-other, set_prev-Chain, set_next-Chain,
}
use headquarter.Common.List.Nodes.{
  All-left, All-right, All-last, All-first, ne-sym, Distinct-insert, first-rest, Apart-NotIn,
  Apart-rest, NotIn-rest,
}
use headquarter.Common.List.Cut.{Cut, Sides, Chain-Cut, Cut-Chain, Distinct-Sides}

-- The links after `node` has been put between `a` and `b`.
abbrev added : Links → ℕ → ℕ → ℕ → Links
added s a b node = set_prev (set_next (set_next (set_prev s b node) node b) a node) node a

list_add-added :
    (s : Links) (a b node : ℕ)
    → a ≢ null
    → b ≢ null
    → node ≢ null
    → list_add s a b node ≡ ok (added s a b node)
unfolding list_add
list_add-added s a b node a_ne b_ne node_ne = rw (
  store_prev-ok s b b_ne node,
  store_next-ok (set_prev s b node) node node_ne b,
  store_next-ok (set_next (set_prev s b node) node b) a a_ne node,
  store_prev-ok (set_next (set_next (set_prev s b node) node b) a node) node node_ne a,
)

added-Chain :
    (s : Links) (a b node c : ℕ) (zs : List ℕ)
    → Chain s c zs
    → NotIn b zs
    → Apart node c zs
    → Apart a c zs
    → NotIn node zs
    → Chain (added s a b node) c zs
added-Chain s a b node c zs h b_zs node_zs a_zs zs_node =
    set_prev-Chain _ node a c zs
      (set_next-Chain _ a node c zs
        (set_next-Chain _ node b c zs (set_prev-Chain s b node c zs h b_zs) node_zs) a_zs)
      zs_node

module _ (s : Links) (l : ℕ) (xs ys : List ℕ) (node : ℕ) (list : IsList s l (xs ++ ys))
    (fresh : NotIn node (null ∷ l ∷ xs ++ ys)) where
  abbrev a : ℕ
  a = last l xs

  abbrev b : ℕ
  b = first ys l

  sides : Sides l xs ys
  sides = Distinct-Sides l xs ys list.distinct

  cut : Cut s l xs ys
  cut = Chain-Cut s l xs ys list.linked

  node-ne-b : node ≢ b
  node-ne-b = All-first (λ q. node ≢ q) ys l (All-right _ xs ys fresh.1.1) fresh.1.0

  node-ne-a : node ≢ a
  node-ne-a = All-last (λ q. node ≢ q) l xs fresh.1.0 (All-left _ xs ys fresh.1.1)

  added-Cut : Cut (added s a b node) l xs (node ∷ ys)
  added-Cut = record {
    before =
        added-Chain s a b node l xs cut.before sides.first_before
          (Apart-NotIn node l xs fresh.1.0 (All-left _ xs ys fresh.1.1)) sides.last_before
          (All-left _ xs ys fresh.1.1);
    between = (write-same (write s.next node b) a node, write-same (write s.prev b node) node a);
    after = rw (first-rest ys l) (((link-next, link-prev), kept));
  }
    where
      link-next : (added s a b node).next node ≡ b
      link-next = rw (
        write-other (write s.next node b) a node node (ne-sym node-ne-a),
        write-same s.next node b,
      )

      link-prev : (added s a b node).prev b ≡ node
      link-prev =
          rw (write-other (write s.prev b node) node a b node-ne-b, write-same s.prev b node)

      kept : Chain (added s a b node) b (rest ys l)
      kept =
          added-Chain s a b node b (rest ys l) cut.after sides.first_after
            (Apart-rest node l ys (All-right _ xs ys fresh.1.1)) sides.last_after
            (NotIn-rest node l ys fresh.1.0 (All-right _ xs ys fresh.1.1))

  -- Putting a node where a list is cut.
  list_add-IsList : (s' : Links) × (list_add s a b node ≡ ok s') × IsList s' l (xs ++ (node ∷ ys))
  list_add-IsList = (
    added s a b node,
    list_add-added s a b node sides.last_ne sides.first_ne (fresh.0),
    record {
      linked = Cut-Chain (added s a b node) l xs (node ∷ ys) added-Cut;
      distinct = Distinct-insert node (null ∷ l ∷ xs) ys fresh list.distinct;
    },
  )

-- A node that is in no list and is inserted before a node of a list, or before the head, which is
-- where it ends, stands right before it in the list, and the others keep their order.
pub list_insert_before-IsList :
    (s : Links) (l : ℕ) (xs ys : List ℕ) (node : ℕ)
    → IsList s l (xs ++ ys)
    → NotIn node (null ∷ l ∷ xs ++ ys)
    → (s' : Links) × (list_insert_before s (first ys l) node ≡ ok s')
      × IsList s' l (xs ++ (node ∷ ys))
unfolding list_insert_before
list_insert_before-IsList s l xs ys node list fresh =
    let (s', added, list') = list_add-IsList s l xs ys node list fresh in
    (
      s',
      rw
          (
            load_prev-ok s (first ys l) (Distinct-Sides l xs ys list.distinct).first_ne,
            (Chain-Cut s l xs ys list.linked).between.1,
          )
          added,
      list',
    )

-- A node that is in no list and is inserted after a node of a list, or after its head, stands right
-- behind it in the list, and the others keep their order.
pub list_insert_after-IsList :
    (s : Links) (l : ℕ) (xs ys : List ℕ) (node : ℕ)
    → IsList s l (xs ++ ys)
    → NotIn node (null ∷ l ∷ xs ++ ys)
    → (s' : Links) × (list_insert_after s (last l xs) node ≡ ok s')
      × IsList s' l (xs ++ (node ∷ ys))
unfolding list_insert_after
list_insert_after-IsList s l xs ys node list fresh =
    let (s', added, list') = list_add-IsList s l xs ys node list fresh in
    (
      s',
      rw
          (
            load_next-ok s (last l xs) (Distinct-Sides l xs ys list.distinct).last_ne,
            (Chain-Cut s l xs ys list.linked).between.0,
          )
          added,
      list',
    )

module _ (s : Links) (l : ℕ) (xs : List ℕ) (node : ℕ) where
  pub list_insert_head-IsList :
      IsList s l xs
      → NotIn node (null ∷ l ∷ xs)
      → (s' : Links) × (list_insert_head s l node ≡ ok s') × IsList s' l (node ∷ xs)
  unfolding list_insert_head list_insert_after
  list_insert_head-IsList = list_insert_after-IsList s l [] xs node

  pub list_insert_tail-IsList :
      IsList s l xs
      → NotIn node (null ∷ l ∷ xs)
      → (s' : Links) × (list_insert_tail s l node ≡ ok s') × IsList s' l (xs ++ (node ∷ []))
  unfolding list_insert_tail list_insert_before
  list_insert_tail-IsList list fresh =
      list_insert_before-IsList s l xs [] node (rw (append-nil xs) list) (rw (append-nil xs) fresh)
