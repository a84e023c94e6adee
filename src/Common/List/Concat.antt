-- ===== src/Common/List/Concat.antt =====
-- list_concat of code/common/list.h.
use headquarter.Base.{ℕ, ◌≡◌, ◌≢◌, refl, List, [], ◌∷◌, ◌++◌, append-nil, ok, arith}
use headquarter.Common.List.{Links, null, list_concat}
use headquarter.Common.List.Chain.{
  Link, Chain, NotIn, Apart, Distinct, IsList, last, set_prev, set_next, load_prev-ok, load_next-ok,
  store_prev-ok, store_next-ok, set_prev-Chain, set_next-Chain, append-Chain,
}
use headquarter.Common.List.Nodes.{
  All-left, All-right, All-last, ne-sym, Distinct-left, Distinct-right, Distinct-across,
  Distinct-back, Distinct-remove, Apart-NotIn, Apart-last,
}
use headquarter.Common.List.Cut.{Cut, Chain-Cut, Cut-Chain, Distinct-Sides}
use headquarter.Common.List.Remove.{list_singular-length}

-- The links after the nodes from `b` to `d` have been put between `a` and the head `l`.
abbrev joined : Links → ℕ → ℕ → ℕ → ℕ → Links
joined s a b d l = set_prev (set_next (set_prev (set_next s a b) b a) d l) l d

joined-Chain :
    (s : Links) (a b d l c : ℕ) (zs : List ℕ)
    → Chain s c zs
    → Apart a c zs
    → NotIn b zs
    → Apart d c zs
    → NotIn l zs
    → Chain (joined s a b d l) c zs
joined-Chain s a b d l c zs h a_zs b_zs d_zs l_zs =
    set_prev-Chain _ l d c zs
      (set_next-Chain _ d l c zs
        (set_prev-Chain (set_next s a b) b a c zs (set_next-Chain s a b c zs h a_zs) b_zs) d_zs)
      l_zs

joined-links :
    (s : Links) (a b d l : ℕ)
    → a ≢ d
    → b ≢ l
    → Link (joined s a b d l) a b × Link (joined s a b d l) d l
joined-links s a b d l n m = ((ground arith, ground arith), (ground arith, ground arith))

module _ (s : Links) (list1 list2 y : ℕ) (xs ys : List ℕ) (first_list : IsList s list1 xs)
    (second_list : IsList s list2 (y ∷ ys))
    (apart : Distinct (null ∷ list1 ∷ xs ++ (list2 ∷ y ∷ ys))) where
  abbrev a : ℕ
  a = last list1 xs

  abbrev d : ℕ
  d = last y ys

  nodes : Distinct (null ∷ list1 ∷ xs ++ (y ∷ ys))
  nodes = Distinct-remove list2 (null ∷ list1 ∷ xs) (y ∷ ys) apart

  head_nodes : NotIn list1 xs × NotIn list1 (y ∷ ys)
  head_nodes = (All-left _ xs (y ∷ ys) nodes.1.0, All-right _ xs (y ∷ ys) nodes.1.0)

  ys_nodes : Distinct (y ∷ ys)
  ys_nodes = Distinct-right xs (y ∷ ys) nodes.1.1

  a-NotIn : NotIn a (y ∷ ys)
  a-NotIn =
      All-last (λ q. NotIn q (y ∷ ys)) list1 xs head_nodes.1 (Distinct-across xs (y ∷ ys) nodes.1.1)

  d-NotIn : NotIn d xs
  d-NotIn =
      let back = Distinct-back xs (y ∷ ys) nodes.1.1 in
      All-last (λ q. NotIn q xs) y ys back.0 back.1

  d-ne-head : list1 ≢ d
  d-ne-head = All-last (λ q. list1 ≢ q) y ys head_nodes.1.0 head_nodes.1.1

  a-ne-d : a ≢ d
  a-ne-d = All-last (λ q. a ≢ q) y ys a-NotIn.0 a-NotIn.1

  first-Cut : Cut s list1 xs []
  first-Cut = Chain-Cut s list1 xs [] (rw (append-nil xs) first_list.linked)

  second-Cut : Cut s list2 (y ∷ ys) []
  second-Cut = Chain-Cut s list2 (y ∷ ys) [] (rw (append-nil ys) second_list.linked)

  joined-Cut : Cut (joined s a y d list1) list1 xs (y ∷ ys)
  joined-Cut =
      let links = joined-links s a y d list1 a-ne-d (ne-sym head_nodes.1.0) in
      record {
        before =
            joined-Chain s a y d list1 list1 xs first-Cut.before
              (Apart-last list1 xs (head_nodes.0, Distinct-left xs (y ∷ ys) nodes.1.1))
              (Distinct-back xs (y ∷ ys) nodes.1.1).0
              (Apart-NotIn d list1 xs (ne-sym d-ne-head) d-NotIn) head_nodes.0;
        between = links.0;
        after =
            append-Chain (joined s a y d list1) y ys list1 []
              (joined-Chain s a y d list1 y ys second-Cut.before.1
                (Apart-NotIn a y ys a-NotIn.0 a-NotIn.1) ys_nodes.0 (Apart-last y ys ys_nodes)
                head_nodes.1.1)
              links.1 tt;
      }

  run : list_concat s list1 list2 ≡ ok (joined s a y d list1)
  unfolding list_concat
  run =
      let ne1 = ne-sym nodes.0.0 in
      let ne2 = ne-sym second_list.distinct.0.0 in
      let ne_a = (Distinct-Sides list1 xs (y ∷ ys) nodes).last_ne in
      let ne_y = (Distinct-Sides list1 xs (y ∷ ys) nodes).first_ne in
      let ne_d =
        ne-sym
          (All-last (λ q. null ≢ q) y ys second_list.distinct.0.1.0 second_list.distinct.0.1.1) in
      rw
        (
          (list_singular-length s list2 (y ∷ ys) second_list).0,
          load_prev-ok s list1 ne1,
          load_next-ok s list2 ne2,
          load_prev-ok s list2 ne2,
          first-Cut.between.1,
          second_list.linked.0.0,
          second-Cut.between.1,
          store_next-ok s a ne_a y,
          store_prev-ok (set_next s a y) y ne_y a,
          store_next-ok (set_prev (set_next s a y) y a) d ne_d list1,
          store_prev-ok (set_next (set_prev (set_next s a y) y a) d list1) list1 ne1 d,
        )
        (ground arith)

-- Appending a list to another one, with no node in common, succeeds, and the nodes of the second stand
-- behind those of the first, in their order.
pub list_concat-IsList :
    (s : Links) (list1 list2 : ℕ) (xs ys : List ℕ)
    → IsList s list1 xs
    → IsList s list2 ys
    → Distinct (null ∷ list1 ∷ xs ++ (list2 ∷ ys))
    → (s' : Links) × (list_concat s list1 list2 ≡ ok s') × IsList s' list1 (xs ++ ys)
unfolding list_concat
list_concat-IsList s list1 list2 xs [] h k apart =
    (s, rw ((list_singular-length s list2 [] k).0) refl, rw (append-nil xs) h)
list_concat-IsList s list1 list2 xs (y ∷ ys) h k apart = (
  joined s (last list1 xs) y (last y ys) list1,
  run s list1 list2 y xs ys h k apart,
  record {
    linked =
        Cut-Chain (joined s (last list1 xs) y (last y ys) list1) list1 xs (y ∷ ys)
          (joined-Cut s list1 list2 y xs ys h k apart);
    distinct = Distinct-remove list2 (null ∷ list1 ∷ xs) (y ∷ ys) apart;
  },
)
