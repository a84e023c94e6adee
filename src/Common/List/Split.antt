-- ===== src/Common/List/Split.antt =====
-- list_split and list_set_head of code/common/list.h.
use headquarter.Base.{ℕ, ◌≡◌, ◌≢◌, refl, List, [], ◌∷◌, ◌++◌, ok, arith, All, ==_iff}
use headquarter.Common.List.{Links, null, list_split}
use headquarter.Common.List.Chain.{
  Link, Chain, NotIn, Apart, Distinct, IsList, last, set_prev, set_next, load_prev-ok, load_next-ok,
  store_prev-ok, store_next-ok, set_prev-Chain, set_next-Chain, append-Chain, write-other,
}
use headquarter.Common.List.Nodes.{
  All-left, All-right, All-last, All-append, ne-sym, Distinct-left, Distinct-right, Distinct-across,
  Distinct-back, Apart-NotIn, Apart-last, Apart-snoc,
}
use headquarter.Common.List.Cut.{Cut, Chain-Cut, Distinct-Sides}
use headquarter.Common.List.Remove.{list_singular-length}
use headquarter.Common.List.Init.{
  initialised, list_init-initialised, initialised-IsList, initialised-other,
}

-- The links after the nodes from `x` to `a` went from `list2`, where `node` followed, to `list1`.
abbrev parted : Links → ℕ → ℕ → ℕ → ℕ → ℕ → Links
parted s list1 list2 x a node =
    let s1 = set_prev (set_next s list1 x) x list1 in
    set_prev (set_next (set_next (set_prev s1 list1 a) a list1) list2 node) node list2

parted-Chain :
    (s : Links) (list1 list2 x a node c : ℕ) (zs : List ℕ)
    → Chain s c zs
    → Apart list1 c zs
    → NotIn x zs
    → NotIn list1 zs
    → Apart a c zs
    → Apart list2 c zs
    → NotIn node zs
    → Chain (parted s list1 list2 x a node) c zs
parted-Chain s list1 list2 x a node c zs h list1_zs x_zs zs_list1 a_zs list2_zs node_zs =
    set_prev-Chain _ node list2 c zs
      (set_next-Chain _ list2 node c zs
        (set_next-Chain _ a list1 c zs
          (set_prev-Chain _ list1 a c zs
            (set_prev-Chain _ x list1 c zs (set_next-Chain s list1 x c zs h list1_zs) x_zs)
            zs_list1)
          a_zs)
        list2_zs)
      node_zs

parted-links :
    (s : Links) (list1 list2 x a node : ℕ)
    → list1 ≢ list2
    → list1 ≢ x
    → list1 ≢ a
    → list1 ≢ node
    → list2 ≢ a
    → x ≢ node
    → Link (parted s list1 list2 x a node) list1 x
      × Link (parted s list1 list2 x a node) a list1
      × Link (parted s list1 list2 x a node) list2 node
parted-links s list1 list2 x a node n1 n2 n3 n4 n5 n6 =
    ((ground arith, ground arith), (ground arith, ground arith), (ground arith, ground arith))

module _ (s : Links) (list1 list2 x : ℕ) (xs : List ℕ) (node : ℕ) (ys : List ℕ)
    (list : IsList s list2 (x ∷ xs ++ (node ∷ ys)))
    (fresh : NotIn list1 (null ∷ list2 ∷ x ∷ xs ++ (node ∷ ys))) where
  abbrev a : ℕ
  a = last x xs

  abbrev s' : Links
  s' = parted s list1 list2 x a node

  cut : Cut s list2 (x ∷ xs) (node ∷ ys)
  cut = Chain-Cut s list2 (x ∷ xs) (node ∷ ys) list.linked

  across : All (λ q. NotIn q (node ∷ ys)) (x ∷ xs)
  across = Distinct-across (x ∷ xs) (node ∷ ys) list.distinct.1.1

  a-NotIn : NotIn a (node ∷ ys)
  a-NotIn = All-last (λ q. NotIn q (node ∷ ys)) x xs across.0 across.1

  old_head : NotIn list2 (x ∷ xs)
  old_head = All-left _ (x ∷ xs) (node ∷ ys) list.distinct.1.0

  old_tail : NotIn list2 (node ∷ ys)
  old_tail = All-right _ (x ∷ xs) (node ∷ ys) list.distinct.1.0

  new_head : NotIn list1 (x ∷ xs)
  new_head = All-left _ (x ∷ xs) (node ∷ ys) fresh.1.1

  new_tail : NotIn list1 (node ∷ ys)
  new_tail = All-right _ (x ∷ xs) (node ∷ ys) fresh.1.1

  xs_nodes : Distinct (x ∷ xs)
  xs_nodes = Distinct-left (x ∷ xs) (node ∷ ys) list.distinct.1.1

  ys_nodes : Distinct (node ∷ ys)
  ys_nodes = Distinct-right (x ∷ xs) (node ∷ ys) list.distinct.1.1

  node-NotIn : NotIn node (x ∷ xs)
  node-NotIn = (Distinct-back (x ∷ xs) (node ∷ ys) list.distinct.1.1).0

  list1-ne-a : list1 ≢ a
  list1-ne-a = All-last (λ q. list1 ≢ q) x xs new_head.0 new_head.1

  list2-ne-a : list2 ≢ a
  list2-ne-a = All-last (λ q. list2 ≢ q) x xs old_head.0 old_head.1

  links : Link s' list1 x × Link s' a list1 × Link s' list2 node
  links =
      parted-links s list1 list2 x a node fresh.1.0 new_head.0 list1-ne-a new_tail.0 list2-ne-a
        across.0.0

  first_Chain : Chain s' x xs
  first_Chain =
      parted-Chain s list1 list2 x a node x xs cut.before.1
        (Apart-NotIn list1 x xs new_head.0 new_head.1) xs_nodes.0 new_head.1
        (Apart-last x xs xs_nodes) (Apart-NotIn list2 x xs old_head.0 old_head.1) node-NotIn.1

  second_Chain : Chain s' node (ys ++ (list2 ∷ []))
  second_Chain =
      parted-Chain s list1 list2 x a node node (ys ++ (list2 ∷ [])) cut.after
        (Apart-snoc list1 node list2 ys new_tail.0 new_tail.1)
        (All-append _ ys (list2 ∷ []) across.0.1 (ne-sym old_head.0, tt))
        (All-append _ ys (list2 ∷ []) new_tail.1 (fresh.1.0, tt))
        (Apart-snoc a node list2 ys a-NotIn.0 a-NotIn.1)
        (Apart-snoc list2 node list2 ys old_tail.0 old_tail.1)
        (All-append _ ys (list2 ∷ []) ys_nodes.0 (ne-sym old_tail.0, tt))

  run : list_split s list1 list2 node ≡ ok s'
  unfolding list_split
  run =
      let ne1 = ne-sym fresh.0 in
      let ne2 = ne-sym list.distinct.0.0 in
      let sides = Distinct-Sides list2 (x ∷ xs) (node ∷ ys) list.distinct in
      let ne_x = ne-sym list.distinct.0.1.0 in
      let x_node = across.0.0 in
      let list2_node = old_tail.0 in
      let s1 = set_next s list1 x in
      let s2 = set_prev s1 x list1 in
      let s3 = set_prev s2 list1 a in
      let s4 = set_next s3 a list1 in
      let s5 = set_next s4 list2 node in
      rw
        (
          (list_singular-length s list2 (x ∷ xs ++ (node ∷ ys)) list).0,
          load_next-ok s list2 ne2,
          cut.before.0.0,
          store_next-ok s list1 fresh.0 x,
          store_prev-ok s1 x ne_x list1,
          load_prev-ok s2 node sides.first_ne,
          write-other s.prev x list1 node x_node,
          cut.between.1,
          store_prev-ok s2 list1 fresh.0 a,
          store_next-ok s3 a sides.last_ne list1,
          store_next-ok s4 list2 ne2 node,
          store_prev-ok s5 node sides.first_ne list2,
        )
        (ground arith)

-- Splitting a list before one of its nodes succeeds: the new head, which is in no list, gets the nodes
-- before it, in their order, and the old one keeps the node and what stands behind it.
pub list_split-IsList :
    (s : Links) (list1 list2 : ℕ) (xs : List ℕ) (node : ℕ) (ys : List ℕ)
    → IsList s list2 (xs ++ (node ∷ ys))
    → NotIn list1 (null ∷ list2 ∷ xs ++ (node ∷ ys))
    → (s' : Links) × (list_split s list1 list2 node ≡ ok s')
      × IsList s' list1 xs
      × IsList s' list2 (node ∷ ys)
unfolding list_split
list_split-IsList s list1 list2 [] node ys list fresh =
    let ne = ne-sym list.distinct.0.0 in
    (
      initialised s list1 list1,
      rw
          (
            (list_singular-length s list2 (node ∷ ys) list).0,
            load_next-ok s list2 ne,
            list.linked.0.0,
            (==_iff node node).1 refl,
            list_init-initialised s list1 fresh.0,
          )
          (ground arith),
      initialised-IsList s list1 fresh.0,
      initialised-other s list1 list1 list2 (node ∷ ys) list fresh.1,
    )
list_split-IsList s list1 list2 (x ∷ xs) node ys list fresh =
    let s' = parted s list1 list2 x (last x xs) node in
    let links = links s list1 list2 x xs node ys list fresh in
    (
      s',
      run s list1 list2 x xs node ys list fresh,
      record {
        linked = (
          links.0,
          append-Chain s' x xs list1 [] (first_Chain s list1 list2 x xs node ys list fresh) links.1
              tt,
        );
        distinct = (
          (ne-sym fresh.0, All-left _ (x ∷ xs) (node ∷ ys) list.distinct.0.1),
          (
            All-left _ (x ∷ xs) (node ∷ ys) fresh.1.1,
            Distinct-left (x ∷ xs) (node ∷ ys) list.distinct.1.1,
          ),
        );
      },
      record {
        linked = (links.2, second_Chain s list1 list2 x xs node ys list fresh);
        distinct = (
          (list.distinct.0.0, All-right _ (x ∷ xs) (node ∷ ys) list.distinct.0.1),
          (
            All-right _ (x ∷ xs) (node ∷ ys) list.distinct.1.0,
            Distinct-right (x ∷ xs) (node ∷ ys) list.distinct.1.1,
          ),
        );
      },
    )
