-- ===== src/Common/Array/Grow.antt =====
-- Room for more elements: the invariant of an array, and what growing it keeps.
use headquarter.Base.{
  ℕ, ◌+◌, ◌-◌, ◌*◌, ◌/◌, ◌^◌, ◌≤◌, ◌<◌, ◌≡◌, refl, ap, ◌∙◌, arith, max, min, List, ◌++◌,
}
use headquarter.Base.{true, ltb, ◌==◌, if◌then◌else◌, length, take, replicate, Bool-cases, inl, inr}
use headquarter.Base.{
  length-append, length-take, length-replicate, take-append_within, take_all, add_size, sub_size,
  mul_size,
}
use headquarter.Base.{ok}
use native.Mathlib.Nat.{mul-div_cancel, mul-le-mul_right, le-mul_of_pos_right, mod-eq_of_lt}
use headquarter.Common.Array.{Array, grow_to, reserve, min_capacity}

-- The allocation has room for `capacity` elements, the first `size` of which are used.
pub record IsValid {ℓ} {A : Type ℓ} (a : Array A) : Type 0 where
  pub allocated : length a.data' ≡ a.capacity
  pub inside : a.size ≤ a.capacity

-- The elements in use.
abbrev pub contents {ℓ} : {A : Type ℓ} → Array A → List A
contents a = take a.size a.data'

-- What growing leaves: the same elements, with room for `count` more.
pub record HasRoom {ℓ} {A : Type ℓ} (a : Array A) (count : ℕ) (a' : Array A) : Type ℓ where
  pub valid : IsValid a'
  pub same : contents a' ≡ contents a
  pub same_size : a'.size ≡ a.size
  pub room : a.size + count ≤ a'.capacity
  pub bounded : a'.capacity ≤ 2 * a.capacity + count + min_capacity

module _ {ℓ} {A : Type ℓ} (zeroed : A) (elem_size : ℕ) where
  abbrev grown : Array A → ℕ → Array A
  grown a new_capacity = record {
    capacity = max new_capacity min_capacity;
    size = min a.size (max new_capacity min_capacity);
    data' =
        take (max new_capacity min_capacity) a.data'
        ++ replicate (max new_capacity min_capacity - a.capacity) zeroed;
  }

  grow_to-grown :
      (a : Array A) (n : ℕ)
      → 0 < elem_size
      → max n min_capacity * elem_size < 2 ^ 64
      → grow_to zeroed elem_size true a n ≡ ok (grown a n)
  unfolding grow_to
  grow_to-grown a n pos fits =
      let exact : mul_size (max n 8) elem_size / elem_size ≡ max n 8 =
        ap (λ (t : ℕ). t / elem_size) (mod-eq_of_lt fits) ∙ mul-div_cancel (max n 8) pos in
      let test : (mul_size (max n 8) elem_size / elem_size == max n 8) ≡ true =
        ground (arith, exact) in
      rw test refl

  grown-HasRoom :
      (a : Array A) (n count : ℕ)
      → IsValid a
      → a.capacity ≤ n
      → a.size + count ≤ n
      → max n min_capacity ≤ 2 * a.capacity + count + min_capacity
      → HasRoom a count (grown a n)
  grown-HasRoom a n count v more wide least =
      let all : take (max n 8) a.data' ≡ a.data' =
        take_all (max n 8) a.data' (omega (arith, v.allocated)) in
      let same_size : min a.size (max n 8) ≡ a.size = omega arith in
      record {
        valid = record {
          allocated = omega (
            arith,
            v.allocated,
            length-append (take (max n 8) a.data') (replicate (max n 8 - a.capacity) zeroed),
            length-take (max n 8) a.data',
            length-replicate (max n 8 - a.capacity) zeroed,
          );
          inside = omega (arith, v.inside);
        };
        same =
            rw (same_size, all)
              (take-append_within a.size a.data' _ (omega (arith, v.inside, v.allocated)));
        same_size = same_size;
        room = omega arith;
        bounded = least;
      }

  -- On a valid array whose grown size in bytes is a `size_t`, and when the allocation succeeds,
  -- reserving gives a valid array with the same elements and room for `count` more behind them, of at
  -- most twice the capacity and what is added.
  pub reserve-HasRoom :
      (a : Array A) (count : ℕ)
      → 0 < elem_size
      → IsValid a
      → (2 * a.capacity + count + min_capacity) * elem_size < 2 ^ 64
      → (a' : Array A) × (reserve zeroed elem_size true a count ≡ ok a') × HasRoom a count a'
  unfolding reserve
  reserve-HasRoom a count pos v fits =
      let small : 2 * a.capacity + count + 8 < 2 ^ 64 =
        omega (arith, fits, le-mul_of_pos_right (2 * a.capacity + count + 8) pos) in
      elim (Bool-cases (ltb (sub_size a.capacity a.size) count)) [
        | inl full ↦
            (let n =
                if ltb (mul_size a.capacity 2) (add_size a.size count)
                then add_size a.size count
                else mul_size a.capacity 2 in
              let more : a.capacity ≤ n = ground (arith, small, v.inside, full) in
              let wide : a.size + count ≤ n = ground (arith, small, v.inside) in
              let least : max n 8 ≤ 2 * a.capacity + count + 8 = ground (arith, small, v.inside) in
              (
                grown a n,
                rw full
                    (grow_to-grown a n pos (omega (arith, fits, mul-le-mul_right elem_size least))),
                grown-HasRoom a n count v more wide least,
              ))
        | inr enough ↦ (
          a,
          rw enough refl,
          record {
            valid = v;
            same = refl;
            same_size = refl;
            room = ground (arith, small, v.inside, enough);
            bounded = omega arith;
          },
        )
      ]
