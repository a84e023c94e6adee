-- ===== src/Common/List/Cut.antt =====
-- A list cut in two, as code/common/list.h does where it changes the links between two nodes.
use headquarter.Base.{ℕ, ◌≢◌, sym, List, [], ◌∷◌, ◌++◌, append_assoc}
use headquarter.Common.List.{Links, null}
use headquarter.Common.List.Chain.{
  Link, Chain, NotIn, Distinct, Apart, last, first, rest, Chain-append, append-Chain,
}
use headquarter.Common.List.Nodes.{
  All-left, All-right, All-last, All-first, ne-sym, Distinct-left, Distinct-right, Distinct-across,
  Distinct-back, Apart-last, Apart-rest, NotIn-first, first-rest,
}

-- A list with head `l` that is cut behind `xs`.
pub record Cut (s : Links) (l : ℕ) (xs ys : List ℕ) : Type 0 where
  pub before : Chain s l xs
  pub between : Link s (last l xs) (first ys l)
  pub after : Chain s (first ys l) (rest ys l)

-- What the nodes of a cut list have to do with each other.
pub record Sides (l : ℕ) (xs ys : List ℕ) : Type 0 where
  pub last_ne : last l xs ≢ null
  pub first_ne : first ys l ≢ null
  pub last_before : Apart (last l xs) l xs
  pub last_after : Apart (last l xs) (first ys l) (rest ys l)
  pub first_before : NotIn (first ys l) xs
  pub first_after : NotIn (first ys l) (rest ys l)

pub Chain-Cut :
    (s : Links) (l : ℕ) (xs ys : List ℕ) → Chain s l ((xs ++ ys) ++ (l ∷ [])) → Cut s l xs ys
Chain-Cut s l xs ys c =
    let whole : Chain s l (xs ++ (first ys l ∷ rest ys l)) =
      rw (sym (first-rest ys l), sym (append_assoc xs ys (l ∷ []))) c in
    let (before, between, after) = Chain-append s l xs (first ys l) (rest ys l) whole in
    record { before = before; between = between; after = after }

pub Distinct-Sides : (l : ℕ) (xs ys : List ℕ) → Distinct (null ∷ l ∷ xs ++ ys) → Sides l xs ys
Distinct-Sides l xs ys d = record {
  last_ne = ne-sym (All-last (λ q. null ≢ q) l xs d.0.0 (All-left _ xs ys d.0.1));
  first_ne = ne-sym (All-first (λ q. null ≢ q) ys l (All-right _ xs ys d.0.1) d.0.0);
  last_before = Apart-last l xs (Distinct-left (l ∷ xs) ys d.1);
  last_after =
      Apart-rest (last l xs) l ys
        (All-last (λ q. NotIn q ys) l xs (All-right _ xs ys d.1.0) (Distinct-across xs ys d.1.1));
  first_before =
      All-first (λ q. NotIn q xs) ys l (Distinct-back xs ys d.1.1) (All-left _ xs ys d.1.0);
  first_after = NotIn-first l ys (All-right _ xs ys d.1.0, Distinct-right xs ys d.1.1);
}

pub Cut-Chain :
    (s : Links) (l : ℕ) (xs ys : List ℕ) → Cut s l xs ys → Chain s l ((xs ++ ys) ++ (l ∷ []))
Cut-Chain s l xs ys c =
    rw (append_assoc xs ys (l ∷ []), first-rest ys l)
      (append-Chain s l xs (first ys l) (rest ys l) c.before c.between c.after)
