-- ===== src/Common/Array/Contents.antt =====
-- What the operations do to the elements in use.
use headquarter.Base.{
  ℕ, zero, suc, ◌+◌, ◌-◌, ◌*◌, ◌^◌, ◌≤◌, ◌<◌, ◌≡◌, refl, ap, ap₂, ◌∙◌, sym, arith, min, List, [],
  ◌∷◌, ◌++◌, append-nil,
}
use headquarter.Base.{true, false, ltb, leb, ◌==◌, length, take, drop, Bool-cases, inl, inr, le→leb}
use headquarter.Base.{
  length-append, length-take, length-drop, take-append_within, take_all, take-append_past, add_size,
  sub_size,
}
use headquarter.Base.{ok, fault}
use native.Mathlib.Nat.{le-mul_of_pos_right}
use headquarter.Common.Array.{
  Array, insert, resize, store, load, remove_range_ordered, min_capacity,
}
use headquarter.Common.Array.Grow.{IsValid, contents, reserve-HasRoom}

module _ {ℓ} {A : Type ℓ} where
  length-within : (n : ℕ) (d : List A) → n ≤ length d → length (take n d) ≡ n
  length-within n d h = omega (arith, length-take n d)

  abbrev pub stored : List A → ℕ → List A → List A
  stored d at xs = take at d ++ (xs ++ drop (at + length xs) d)

  pub store-inside :
      (d : List A) (at : ℕ) (xs : List A)
      → at + length xs ≤ length d
      → store d at xs ≡ ok (stored d at xs)
  unfolding store
  store-inside d at xs h = rw (le→leb (at + length xs) (length d) h) refl

  pub length-stored :
      (d : List A) (at : ℕ) (xs : List A)
      → at + length xs ≤ length d
      → length (stored d at xs) ≡ length d
  length-stored d at xs h = omega (
    arith,
    length-append (take at d) (xs ++ drop (at + length xs) d),
    length-append xs (drop (at + length xs) d),
    length-take at d,
    length-drop (at + length xs) d,
  )

  -- The elements up to a point inside of what was stored.
  pub take-stored :
      (d : List A) (at n : ℕ) (xs : List A)
      → at ≤ length d
      → n ≤ length xs
      → take (at + n) (stored d at xs) ≡ take at d ++ take n xs
  take-stored d at n xs h k =
      ap (λ (m : ℕ). take (m + n) (stored d at xs)) (sym (length-within at d h))
      ∙ take-append_past n (take at d) (xs ++ drop (at + length xs) d)
      ∙ ap (λ l. take at d ++ l) (take-append_within n xs (drop (at + length xs) d) k)

  take-take : (k n : ℕ) (d : List A) → k ≤ n → take k (take n d) ≡ take k d
  take-take zero n d h = refl
  take-take (suc k) zero d h = absurd (omega arith)
  take-take (suc k) (suc n) [] h = refl
  take-take (suc k) (suc n) (x ∷ d) h = ap (λ l. x ∷ l) (take-take k n d (omega arith))

  take_twice : (n m : ℕ) (d : List A) → take n (take m d) ≡ take (min m n) d
  take_twice n m d = elim (Bool-cases (leb n m)) [
    | inl less ↦
        take-take n m d (ground (arith, less)) ∙ ap (λ (k : ℕ). take k d) (ground (arith, less))
    | inr more ↦
        take_all n (take m d) (ground (arith, more, length-take m d))
        ∙ ap (λ (k : ℕ). take k d) (ground (arith, more))
  ]

  take-drop : (m n : ℕ) (d : List A) → drop m (take n d) ≡ take (n - m) (drop m d)
  take-drop zero n d = ap (λ (k : ℕ). take k d) (sub_zero n)
    where
      sub_zero : (i : ℕ) → i ≡ i - 0
      sub_zero i = omega arith
  take-drop (suc m) zero d = ap (λ (k : ℕ). take k (drop (suc m) d)) (zero_sub m)
    where
      zero_sub : (i : ℕ) → 0 ≡ zero - suc i
      zero_sub i = omega arith
  take-drop (suc m) (suc n) [] = sym (take-nil (suc n - suc m))
    where
      take-nil : (i : ℕ) → take {A = A} i [] ≡ []
      take-nil zero = refl
      take-nil (suc i) = refl
  take-drop (suc m) (suc n) (x ∷ d) =
      take-drop m n d ∙ ap (λ (k : ℕ). take k (drop m d)) (suc_sub n m)
    where
      suc_sub : (i j : ℕ) → i - j ≡ suc i - suc j
      suc_sub i j = omega arith

module _ {ℓ} {A : Type ℓ} (zeroed : A) (elem_size : ℕ) where
  -- On a valid array whose grown size in bytes is a `size_t`, and when the allocation succeeds,
  -- inserting puts the elements behind those in use, and the array is valid again. Its capacity is at
  -- most twice the old one, what is added, and `min_capacity`, together.
  pub insert-contents :
      (a : Array A) (xs : List A)
      → 0 < elem_size
      → IsValid a
      → (2 * a.capacity + length xs + min_capacity) * elem_size < 2 ^ 64
      → (a' : Array A) × (insert zeroed elem_size true a xs ≡ ok a')
        × IsValid a'
        × (a'.capacity ≤ 2 * a.capacity + length xs + min_capacity)
        × (contents a' ≡ contents a ++ xs)
  unfolding insert
  insert-contents a [] pos v fits = (a, refl, v, omega arith, sym (append-nil (contents a)))
  insert-contents a (x ∷ xs) pos v fits =
      let (a', reserved, room) = reserve-HasRoom zeroed elem_size a (length (x ∷ xs)) pos v fits in
      let n = length (x ∷ xs) in
      let small : 2 * a.capacity + n + 8 < 2 ^ 64 =
        omega (arith, fits, le-mul_of_pos_right (2 * a.capacity + n + 8) pos) in
      let some_given : (n == 0) ≡ false = ground arith in
      let end : add_size a'.size n ≡ a'.size + n = omega (arith, small, v.inside, room.same_size) in
      let fit : a'.size + n ≤ a'.capacity = omega (arith, room.room, room.same_size) in
      let inside : a'.size + n ≤ length a'.data' = omega (arith, fit, room.valid.allocated) in
      let done = record a' { size = a'.size + n; data' = stored a'.data' a'.size (x ∷ xs) } in
      (
        done,
        rw
            (
              some_given,
              reserved,
              end,
              le→leb (a'.size + n) a'.capacity fit,
              store-inside a'.data' a'.size (x ∷ xs) inside,
            )
            refl,
        record {
          allocated = length-stored a'.data' a'.size (x ∷ xs) inside ∙ room.valid.allocated;
          inside = fit;
        },
        room.bounded,
        take-stored a'.data' a'.size n (x ∷ xs) (omega (arith, inside)) (omega arith)
            ∙ ap₂ (λ l r. l ++ r) room.same (take_all n (x ∷ xs) (omega arith)),
      )

  -- On a valid array whose grown size in bytes is a `size_t`, and when the allocation succeeds,
  -- resizing gives a valid array of that size that keeps the elements which fit.
  pub resize-contents :
      (a : Array A) (n : ℕ)
      → 0 < elem_size
      → IsValid a
      → (2 * a.capacity + n + min_capacity) * elem_size < 2 ^ 64
      → (a' : Array A) × (resize zeroed elem_size true a n ≡ ok a')
        × IsValid a'
        × (a'.size ≡ n)
        × (take (min a.size n) (contents a') ≡ take n (contents a))
  unfolding resize
  resize-contents a n pos v fits = elim (Bool-cases (ltb a.capacity n)) [
    | inl full ↦
        (let (a', reserved, room) = reserve-HasRoom zeroed elem_size a n pos v fits in
          let less : a.size ≤ n = ground (arith, full, v.inside) in
          (
            record a' { size = n },
            rw (full, reserved) refl,
            record { allocated = room.valid.allocated; inside = omega (arith, room.room) },
            refl,
            take-take (min a.size n) n a'.data' (omega arith)
                ∙ ap (λ (m : ℕ). take m a'.data') (omega (arith, less, room.same_size))
                ∙ room.same
                ∙ sym (take_all n (contents a) (omega (arith, less, length-take a.size a.data'))),
          ))
    | inr enough ↦ (
      record a { size = n },
      rw enough refl,
      record { allocated = v.allocated; inside = ground (arith, enough) },
      refl,
      take-take (min a.size n) n a.data' (omega arith) ∙ sym (take_twice n a.size a.data'),
    )
  ]

module _ {ℓ} {A : Type ℓ} where
  -- The tests of the source when the range lies within the used part.
  abbrev IsRange : Array A → ℕ → ℕ → Type 0
  IsRange a index count =
      (ltb a.size (add_size index count) ≡ false)
      × (leb a.size index ≡ false)
      × (sub_size a.size count ≡ a.size - count)
      × ((a.size - count == 0) ≡ false)

  range :
      (a : Array A) (index count : ℕ)
      → IsValid a
      → index + count ≤ a.size
      → index < a.size
      → count < a.size
      → a.capacity < 2 ^ 64
      → IsRange a index count
  range a index count v inside used some_left word = (
    ground (arith, inside, word, v.inside),
    ground (arith, used),
    omega (arith, some_left, word, v.inside),
    ground (arith, some_left),
  )

  -- On a valid array, when the range lies within the used part and is not the whole of it, starts at
  -- an element in use, and the allocation has room for `index` elements behind the used part,
  -- removing the range keeps the elements before and after it, in their order.
  pub remove_range_ordered-contents :
      (a : Array A) (index count : ℕ)
      → IsValid a
      → index + count ≤ a.size
      → index < a.size
      → count < a.size
      → index + a.size ≤ a.capacity
      → a.capacity < 2 ^ 64
      → (a' : Array A) × (remove_range_ordered a index count ≡ ok a')
        × IsValid a'
        × (contents a' ≡ take index (contents a) ++ drop (index + count) (contents a))
  unfolding remove_range_ordered
  remove_range_ordered-contents a index count v inside used some_left room word =
      let (whole, behind, rest_size, some_rest) =
        range a index count v inside used some_left word in
      let n = a.size - count in
      let at = index + count in
      let rest = take n (drop at a.data') in
      let there : at + n ≤ length a.data' = omega (arith, v.allocated) in
      let sized : length rest ≡ n =
        omega (arith, length-take n (drop at a.data'), length-drop at a.data') in
      let fits : index + length rest ≤ length a.data' = omega (arith, sized, v.allocated) in
      let loaded : load a.data' at n ≡ ok rest =
        unfold load in rw (le→leb (at + n) (length a.data') there) refl in
      let k = n - index in
      let split : n ≡ index + k = omega arith in
      let left : a.size - at ≡ k = omega arith in
      (
        record a { size = n; data' = stored a.data' index rest },
        rw (whole, behind, rest_size, some_rest, loaded, store-inside a.data' index rest fits) refl,
        record {
          allocated = length-stored a.data' index rest fits ∙ v.allocated;
          inside = omega (arith, v.inside);
        },
        ap (λ (m : ℕ). take m (stored a.data' index rest)) split
            ∙ take-stored a.data' index k rest (omega (arith, v.allocated)) (omega (arith, sized))
            ∙ ap₂ (λ l r. l ++ r) (sym (take-take index a.size a.data' (omega arith)))
                (take-take k n (drop at a.data') (omega arith)
                  ∙ sym (
                      take-drop at a.size a.data' ∙ ap (λ (m : ℕ). take m (drop at a.data')) left)),
      )

  -- On a valid array and for the same ranges, when the allocation has no room for `index` elements
  -- behind the used part, as in a full array at any index but 0, the move reaches past its end.
  pub remove_range_ordered-fault :
      (a : Array A) (index count : ℕ)
      → IsValid a
      → index + count ≤ a.size
      → index < a.size
      → count < a.size
      → a.capacity < index + a.size
      → a.capacity < 2 ^ 63
      → remove_range_ordered a index count ≡ fault
  unfolding remove_range_ordered load
  remove_range_ordered-fault a index count v inside used some_left full word =
      let (whole, behind, rest_size, some_rest) =
        range a index count v inside used some_left (omega (arith, word)) in
      let outside : leb (index + count + (a.size - count)) (length a.data') ≡ false =
        ground (arith, full, v.allocated, inside) in
      rw (whole, behind, rest_size, some_rest, outside) refl
