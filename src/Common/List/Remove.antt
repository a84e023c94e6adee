-- ===== src/Common/List/Remove.antt =====
-- list_remove of code/common/list.h, and what list_empty and list_singular tell.
use headquarter.Base.{
  ℕ, ◌≡◌, ◌≢◌, refl, sym, ◌∙◌, length, List, [], ◌∷◌, ◌++◌, false, ◌==◌, ok, arith, append-nil,
}
use mathlib.Core.Path.{subst}
use headquarter.Common.List.{Links, null, list_remove, list_empty, list_singular}
use headquarter.Common.List.Chain.{
  Chain, NotIn, Apart, IsList, Distinct, last, first, rest, set_prev, set_next, load_prev-ok,
  load_next-ok, store_prev-ok, store_next-ok, write-same, write-other, set_prev-Chain,
  set_next-Chain,
}
use headquarter.Common.List.Nodes.{
  All-right, All-last, All-map, All-append, Distinct-right, ne-sym, Distinct-remove, Distinct-back,
  Distinct-across, first-rest,
}
use headquarter.Common.List.Cut.{Cut, Sides, Chain-Cut, Cut-Chain, Distinct-Sides}

abbrev removed : Links → ℕ → ℕ → Links
removed s a b = set_prev (set_next s a b) b a

removed-Chain :
    (s : Links) (a b c : ℕ) (zs : List ℕ)
    → Chain s c zs
    → Apart a c zs
    → NotIn b zs
    → Chain (removed s a b) c zs
removed-Chain s a b c zs h a_zs b_zs =
    set_prev-Chain (set_next s a b) b a c zs (set_next-Chain s a b c zs h a_zs) b_zs

module _ (s : Links) (l : ℕ) (xs ys : List ℕ) (node : ℕ)
    (list : IsList s l (xs ++ (node ∷ ys))) where
  abbrev a : ℕ
  a = last l xs

  abbrev b : ℕ
  b = first ys l

  others : Distinct (null ∷ l ∷ xs ++ ys)
  others = Distinct-remove node (null ∷ l ∷ xs) ys list.distinct

  sides : Sides l xs ys
  sides = Distinct-Sides l xs ys others

  cut : Cut s l xs (node ∷ ys)
  cut = Chain-Cut s l xs (node ∷ ys) list.linked

  pub node-ne-null : node ≢ null
  node-ne-null = ne-sym (All-right _ xs (node ∷ ys) list.distinct.0.1).0

  last-ne-node : a ≢ node
  last-ne-node =
      All-last (λ q. q ≢ node) l xs (All-right _ xs (node ∷ ys) list.distinct.1.0).0
        (All-map _ _ (λ x n. n.0) xs (Distinct-across xs (node ∷ ys) list.distinct.1.1))

  behind : Chain s node (first ys l ∷ rest ys l)
  behind = subst (λ zs. Chain s node zs) (first-rest ys l) cut.after

  pub next-first : s.next node ≡ first ys l
  next-first = behind.0.0

  pub node-next : s.next node ≢ null
  node-next e = sides.first_ne (sym behind.0.0 ∙ e)

  pub node-prev : s.prev node ≢ null
  node-prev e = sides.last_ne (sym cut.between.1 ∙ e)

  pub node-NotIn : NotIn node (l ∷ xs ++ ys)
  node-NotIn = (
    ne-sym (All-right _ xs (node ∷ ys) list.distinct.1.0).0,
    All-append _ xs ys (Distinct-back xs (node ∷ ys) list.distinct.1.1).0
        (Distinct-right xs (node ∷ ys) list.distinct.1.1).0,
  )

  -- Taking a node out of a list that holds it succeeds, and leaves the others in their order.
  pub list_remove-IsList : (s' : Links) × (list_remove s node ≡ ok s') × IsList s' l (xs ++ ys)
  unfolding list_remove
  list_remove-IsList = (
    removed s a b,
    run,
    record {
      linked = Cut-Chain (removed s a b) l xs ys (record {
        before = removed-Chain s a b l xs cut.before sides.last_before sides.first_before;
        between = (write-same s.next a b, write-same s.prev b a);
        after = removed-Chain s a b b (rest ys l) behind.1 sides.last_after sides.first_after;
      });
      distinct = others;
    },
  )
    where
      run : list_remove s node ≡ ok (removed s a b)
      run = rw (
        load_prev-ok s node node-ne-null,
        load_next-ok s node node-ne-null,
        cut.between.1,
        behind.0.0,
        store_next-ok s a sides.last_ne b,
        load_next-ok (set_next s a b) node node-ne-null,
        load_prev-ok (set_next s a b) node node-ne-null,
        write-other s.next a b node last-ne-node,
        behind.0.0,
        cut.between.1,
        store_prev-ok (set_next s a b) b sides.first_ne a,
      )

first-ne-head : (l x : ℕ) (xs : List ℕ) → Distinct (null ∷ l ∷ x ∷ xs) → (l == x) ≡ false
first-ne-head l x xs d = let n = d.1.0.0 in ground arith

-- list_empty and list_singular tell whether a list holds no node and exactly one.
pub list_singular-length :
    (s : Links) (l : ℕ) (xs : List ℕ)
    → IsList s l xs
    → (list_empty s l ≡ ok (length xs == 0)) × (list_singular s l ≡ ok (length xs == 1))
unfolding list_empty list_singular
list_singular-length s l [] list =
    let ne = ne-sym list.distinct.0.0 in
    (
      rw (load_next-ok s l ne, list.linked.0.0) (ground arith),
      rw (load_next-ok s l ne, load_prev-ok s l ne, list.linked.0.0) (ground arith),
    )
list_singular-length s l (x ∷ []) list =
    let ne = ne-sym list.distinct.0.0 in
    (
      rw (load_next-ok s l ne, list.linked.0.0, first-ne-head l x [] list.distinct) refl,
      rw
          (
            load_next-ok s l ne,
            load_prev-ok s l ne,
            list.linked.0.0,
            list.linked.1.0.1,
            first-ne-head l x [] list.distinct,
          )
          (ground arith),
    )
list_singular-length s l (x ∷ y ∷ ys) list =
    let ne = ne-sym list.distinct.0.0 in
    let x_last = All-last (λ q. x ≢ q) y ys list.distinct.1.1.0.0 list.distinct.1.1.0.1 in
    (
      rw (load_next-ok s l ne, list.linked.0.0, first-ne-head l x (y ∷ ys) list.distinct)
          (ground arith),
      rw
          (
            load_next-ok s l ne,
            load_prev-ok s l ne,
            list.linked.0.0,
            last-back,
            first-ne-head l x (y ∷ ys) list.distinct,
          )
          (ground arith),
    )
  where
    last-back : s.prev l ≡ last y ys
    last-back = (Chain-Cut s l (x ∷ y ∷ ys) [] (rw (append-nil ys) list.linked)).between.1
