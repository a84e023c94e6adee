-- ===== src/Common/List/Tests.antt =====
-- Two nodes at 11 and 12 in the list of head 10, and one at 21 in that of head 20.
use headquarter.Base.{◌≡◌, refl, [], ◌∷◌, ◌++◌, ok, arith, ◌==◌, if◌then◌else◌}
use headquarter.Common.List.{Links, list_insert_before, list_remove, list_concat, list_split}
use headquarter.Common.List.Chain.{IsList, NotIn, Distinct}
use headquarter.Common.List.Insert.{list_insert_before-IsList}
use headquarter.Common.List.Remove.{list_remove-IsList}
use headquarter.Common.List.Concat.{list_concat-IsList}
use headquarter.Common.List.Split.{list_split-IsList}

abbrev sample : Links
sample = record {
  prev = λ q.
      if q == 10
      then 12
      else if q == 11
      then 10
      else if q == 12
      then 11
      else if q == 20
      then 21
      else if q == 21
      then 20
      else 0;
  next = λ q.
      if q == 10
      then 11
      else if q == 11
      then 12
      else if q == 12
      then 10
      else if q == 20
      then 21
      else if q == 21
      then 20
      else 0;
}

two : IsList sample 10 (11 ∷ 12 ∷ [])
two = record {
  linked = ((refl, refl), ((refl, refl), ((refl, refl), tt)));
  distinct = (
    (ground arith, (ground arith, (ground arith, tt))),
    ((ground arith, (ground arith, tt)), ((ground arith, tt), (tt, tt))),
  );
}

one : IsList sample 20 (21 ∷ [])
one = record {
  linked = ((refl, refl), ((refl, refl), tt));
  distinct = ((ground arith, (ground arith, tt)), ((ground arith, tt), (tt, tt)));
}

fresh : NotIn 30 (0 ∷ 10 ∷ 11 ∷ 12 ∷ [])
fresh = (ground arith, (ground arith, (ground arith, (ground arith, tt))))

apart : Distinct (0 ∷ 10 ∷ 11 ∷ 12 ∷ 20 ∷ 21 ∷ [])
apart = (
  (ground arith, (ground arith, (ground arith, (ground arith, (ground arith, tt))))),
  (
    (ground arith, (ground arith, (ground arith, (ground arith, tt)))),
    (
      (ground arith, (ground arith, (ground arith, tt))),
      ((ground arith, (ground arith, tt)), ((ground arith, tt), (tt, tt))),
    ),
  ),
)

list_insert_before-IsList_example :
    (s' : Links) × (list_insert_before sample 12 30 ≡ ok s')
    × IsList s' 10 ((11 ∷ []) ++ (30 ∷ 12 ∷ []))
list_insert_before-IsList_example =
    list_insert_before-IsList sample 10 (11 ∷ []) (12 ∷ []) 30 two fresh

list_remove-IsList_example :
    (s' : Links) × (list_remove sample 12 ≡ ok s') × IsList s' 10 ((11 ∷ []) ++ [])
list_remove-IsList_example = list_remove-IsList sample 10 (11 ∷ []) [] 12 two

list_concat-IsList_example :
    (s' : Links) × (list_concat sample 10 20 ≡ ok s') × IsList s' 10 ((11 ∷ 12 ∷ []) ++ (21 ∷ []))
list_concat-IsList_example = list_concat-IsList sample 10 20 (11 ∷ 12 ∷ []) (21 ∷ []) two one apart

list_split-IsList_example :
    (s' : Links) × (list_split sample 30 10 12 ≡ ok s')
    × IsList s' 30 (11 ∷ [])
    × IsList s' 10 (12 ∷ [])
list_split-IsList_example = list_split-IsList sample 30 10 (11 ∷ []) 12 [] two fresh
