-- ===== src/Common/List/Head.antt =====
-- list_set_head of code/common/list.h.
use headquarter.Base.{ℕ, ◌≡◌, ◌≢◌, List, [], ◌∷◌, append-nil, ok, arith}
use headquarter.Common.List.{Links, null, write, list_set_head}
use headquarter.Common.List.Chain.{
  Link, Chain, NotIn, Apart, IsList, last, set_prev, set_next, load_prev-ok, load_next-ok,
  store_prev-ok, store_next-ok, set_prev-Chain, set_next-Chain, append-Chain, write-same,
  write-other,
}
use headquarter.Common.List.Nodes.{All-last, ne-sym, Apart-NotIn, Apart-last}
use headquarter.Common.List.Cut.{Cut, Chain-Cut}
use headquarter.Common.List.Init.{list_init-initialised, initialised-IsList, initialised}
use headquarter.Common.List.Remove.{list_singular-length}

-- The links after the nodes from `x` to `a` have got the head `l`.
abbrev headed : Links → ℕ → ℕ → ℕ → Links
headed s l x a = set_next (set_prev (set_next (set_prev s l a) l x) x l) a l

headed-Chain :
    (s : Links) (l x a c : ℕ) (zs : List ℕ)
    → Chain s c zs
    → NotIn l zs
    → Apart l c zs
    → NotIn x zs
    → Apart a c zs
    → Chain (headed s l x a) c zs
headed-Chain s l x a c zs h zs_l l_zs x_zs a_zs =
    set_next-Chain _ a l c zs
      (set_prev-Chain _ x l c zs (set_next-Chain _ l x c zs (set_prev-Chain s l a c zs h zs_l) l_zs)
        x_zs)
      a_zs

headed-links :
    (s : Links) (l x a : ℕ) → l ≢ x → l ≢ a → Link (headed s l x a) l x × Link (headed s l x a) a l
headed-links s l x a n m = ((ground arith, ground arith), (ground arith, ground arith))

module _ (s : Links) (new_head old_head x : ℕ) (xs : List ℕ) (list : IsList s old_head (x ∷ xs))
    (fresh : NotIn new_head (null ∷ old_head ∷ x ∷ xs)) where
  abbrev a : ℕ
  a = last x xs

  cut : Cut s old_head (x ∷ xs) []
  cut = Chain-Cut s old_head (x ∷ xs) [] (rw (append-nil xs) list.linked)

  new-ne-a : new_head ≢ a
  new-ne-a = All-last (λ q. new_head ≢ q) x xs fresh.1.1.0 fresh.1.1.1

  headed-IsList : IsList (headed s new_head x a) new_head (x ∷ xs)
  headed-IsList =
      let links = headed-links s new_head x a fresh.1.1.0 new-ne-a in
      let kept =
        headed-Chain s new_head x a x xs cut.before.1 fresh.1.1.1
          (Apart-NotIn new_head x xs fresh.1.1.0 fresh.1.1.1) list.distinct.1.1.0
          (Apart-last x xs list.distinct.1.1) in
      record {
        linked = (links.0, append-Chain (headed s new_head x a) x xs new_head [] kept links.1 tt);
        distinct = ((ne-sym fresh.0, list.distinct.0.1), (fresh.1.1, list.distinct.1.1));
      }

  run : list_set_head s new_head old_head ≡ ok (headed s new_head x a)
  unfolding list_set_head
  run =
      let ne = ne-sym list.distinct.0.0 in
      let ne_a = ne-sym (All-last (λ q. null ≢ q) x xs list.distinct.0.1.0 list.distinct.0.1.1) in
      let s1 = set_prev s new_head a in
      let s2 = set_next s1 new_head x in
      let s3 = set_prev s2 x new_head in
      rw
        (
          (list_singular-length s old_head (x ∷ xs) list).0,
          load_prev-ok s old_head ne,
          load_next-ok s old_head ne,
          cut.between.1,
          list.linked.0.0,
          store_prev-ok s new_head fresh.0 a,
          store_next-ok s1 new_head fresh.0 x,
          store_prev-ok s2 x (ne-sym list.distinct.0.1.0) new_head,
          load_prev-ok s3 new_head fresh.0,
          write-other (write s.prev new_head a) x new_head new_head (ne-sym fresh.1.1.0),
          write-same s.prev new_head a,
          store_next-ok s3 a ne_a new_head,
        )
        (ground arith)

-- A head that is in no list and takes the place of another one gets its nodes, in their order.
pub list_set_head-IsList :
    (s : Links) (new_head old_head : ℕ) (xs : List ℕ)
    → IsList s old_head xs
    → NotIn new_head (null ∷ old_head ∷ xs)
    → (s' : Links) × (list_set_head s new_head old_head ≡ ok s') × IsList s' new_head xs
unfolding list_set_head
list_set_head-IsList s new_head old_head [] list fresh = (
  initialised s new_head new_head,
  rw ((list_singular-length s old_head [] list).0) (list_init-initialised s new_head fresh.0),
  initialised-IsList s new_head fresh.0,
)
list_set_head-IsList s new_head old_head (x ∷ xs) list fresh = (
  headed s new_head x (last x xs),
  run s new_head old_head x xs list fresh,
  headed-IsList s new_head old_head x xs list fresh,
)
