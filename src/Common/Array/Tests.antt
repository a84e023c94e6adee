-- ===== src/Common/Array/Tests.antt =====
-- Small arrays of numbers of four bytes.
use headquarter.Base.{
  ℕ, ◌+◌, ◌*◌, ◌≤◌, ◌≡◌, refl, arith, [], ◌∷◌, ◌++◌, take, drop, true, ok, fault,
}
use headquarter.Common.Array.{Array, insert, remove_range_ordered}
use headquarter.Common.Array.Grow.{IsValid, contents}
use headquarter.Common.Array.Contents.{
  insert-contents, remove_range_ordered-contents, remove_range_ordered-fault,
}

-- Two elements of four.
abbrev half : Array ℕ
half = record { capacity = 4; size = 2; data' = 5 ∷ 6 ∷ 0 ∷ 0 ∷ [] }

abbrev full : Array ℕ
full = record { capacity = 3; size = 3; data' = 5 ∷ 6 ∷ 7 ∷ [] }

half-IsValid : IsValid half
half-IsValid = record { allocated = refl; inside = ground arith }

full-IsValid : IsValid full
full-IsValid = record { allocated = refl; inside = ground arith }

insert-contents_example :
    (a' : Array ℕ) × (insert 0 4 true full (8 ∷ 9 ∷ []) ≡ ok a')
    × IsValid a'
    × (a'.capacity ≤ 2 * full.capacity + 2 + 8)
    × (contents a' ≡ contents full ++ 8 ∷ 9 ∷ [])
insert-contents_example =
    insert-contents 0 4 full (8 ∷ 9 ∷ []) (ground arith) full-IsValid (ground arith)

remove_range_ordered-contents_example :
    (a' : Array ℕ) × (remove_range_ordered half 1 1 ≡ ok a')
    × IsValid a'
    × (contents a' ≡ take 1 (contents half) ++ drop (1 + 1) (contents half))
remove_range_ordered-contents_example =
    remove_range_ordered-contents half 1 1 half-IsValid (ground arith) (ground arith) (ground arith)
      (ground arith) (ground arith)

remove_range_ordered-fault_example : remove_range_ordered full 1 1 ≡ fault
remove_range_ordered-fault_example =
    remove_range_ordered-fault full 1 1 full-IsValid (ground arith) (ground arith) (ground arith)
      (ground arith) (ground arith)
