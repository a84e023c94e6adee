-- ===== src/Common/Array/Remove.antt =====
-- `_array_remove`: which element stands where afterwards.
use headquarter.Base.{
  ℕ, zero, suc, ◌+◌, ◌-◌, ◌≤◌, ◌<◌, ◌≡◌, refl, ◌∙◌, arith, List, [], ◌∷◌, some, false,
}
use headquarter.Base.{
  ltb, leb, ◌==◌, if◌then◌else◌, length, take, drop, get_elem?, Bool-cases, inl, inr, le→leb,
}
use headquarter.Base.{ok}
use headquarter.Common.Array.{Array, load, remove}
use headquarter.Common.Array.Grow.{IsValid, contents}
use headquarter.Common.Array.Contents.{stored, store-inside, length-stored}

module _ {ℓ} {A : Type ℓ} where
  get_elem?-take : (n i : ℕ) (xs : List A) → i < n → get_elem? (take n xs) i ≡ get_elem? xs i
  get_elem?-take zero i xs h = absurd (omega arith)
  get_elem?-take (suc n) i [] h = refl
  get_elem?-take (suc n) zero (x ∷ xs) h = refl
  get_elem?-take (suc n) (suc i) (x ∷ xs) h = get_elem?-take n i xs (omega arith)

  -- A single element is stored at its index, and nowhere else.
  get_elem?-stored :
      (d : List A) (at i : ℕ) (x : A)
      → at < length d
      → get_elem? (stored d at (x ∷ [])) i ≡ (if i == at then some x else get_elem? d i)
  get_elem?-stored [] at i x h = absurd (omega arith)
  get_elem?-stored (y ∷ d) zero zero x h = refl
  get_elem?-stored (y ∷ d) zero (suc i) x h = ground arith
  get_elem?-stored (y ∷ d) (suc at) zero x h = ground arith
  get_elem?-stored (y ∷ d) (suc at) (suc i) x h =
      let below : (suc i == suc at) ≡ (i == at) = ground arith in
      let next : suc at + 1 ≡ suc (at + 1) = omega arith in
      rw (below, next) (get_elem?-stored d at i x (omega arith))

  take-one :
      (d : List A) (i : ℕ)
      → i < length d
      → (x : A) × (take 1 (drop i d) ≡ x ∷ []) × (get_elem? d i ≡ some x)
  take-one [] i h = absurd (omega arith)
  take-one (x ∷ d) zero h = (x, refl, refl)
  take-one (x ∷ d) (suc i) h = take-one d i (omega arith)

  -- On a valid array, removing an element in use gives a valid array with one element less, where the
  -- last element has taken the place of the removed one, and all others have kept theirs.
  pub remove-contents :
      (a : Array A) (index i : ℕ)
      → IsValid a
      → index < a.size
      → i < a.size - 1
      → (a' : Array A) × (remove a index ≡ ok a')
        × IsValid a'
        × (a'.size ≡ a.size - 1)
        × (get_elem? (contents a') i ≡ (
            if i == index then get_elem? (contents a) (a.size - 1) else get_elem? (contents a) i))
  unfolding remove
  remove-contents a index i v used kept =
      let n = a.size - 1 in
      let there : n < length a.data' = omega (arith, v.inside, v.allocated) in
      let (x, loads, looked) = take-one a.data' n there in
      let same : get_elem? (contents a) i ≡ get_elem? a.data' i =
        get_elem?-take a.size i a.data' (omega arith) in
      let last : get_elem? (contents a) n ≡ some x =
        get_elem?-take a.size n a.data' (omega arith) ∙ looked in
      let in_use : leb a.size index ≡ false = ground (arith, used) in
      elim (Bool-cases (ltb index n)) [
        | inl before ↦
            (let loaded : load a.data' n 1 ≡ ok (x ∷ []) =
                unfold load in
                rw (le→leb (n + 1) (length a.data') (omega (arith, there)), loads) refl in
              let fits : index + 1 ≤ length a.data' = omega (arith, there, used) in
              (
                record a { size = n; data' = stored a.data' index (x ∷ []) },
                rw (in_use, before, loaded, store-inside a.data' index (x ∷ []) fits) refl,
                record {
                  allocated = length-stored a.data' index (x ∷ []) fits ∙ v.allocated;
                  inside = omega (arith, v.inside);
                },
                refl,
                rw (same, last)
                    (get_elem?-take n i (stored a.data' index (x ∷ [])) kept
                      ∙ get_elem?-stored a.data' index i x (omega (arith, fits))),
              ))
        | inr at_end ↦
            (let other : (i == index) ≡ false = ground (arith, at_end, kept, used) in
              (
                record a { size = n },
                rw (in_use, at_end) refl,
                record { allocated = v.allocated; inside = omega (arith, v.inside) },
                refl,
                rw (other, same) (get_elem?-take n i a.data' kept),
              ))
      ]
