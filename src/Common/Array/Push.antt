-- ===== src/Common/Array/Push.antt =====
-- `array_add` and `_array_push`: room at the end.
use headquarter.Base.{
  ℕ, ◌+◌, ◌*◌, ◌^◌, ◌≤◌, ◌<◌, ◌≡◌, refl, arith, sym, ap, ◌∙◌, [], ◌∷◌, true, add_size, le→leb, ok,
  take,
}
use native.Mathlib.Nat.{le-mul_of_pos_right}
use headquarter.Common.Array.{Array, add, push, insert, min_capacity}
use headquarter.Common.Array.Grow.{IsValid, contents, reserve-HasRoom}

module _ {ℓ} {A : Type ℓ} (zeroed : A) (elem_size : ℕ) where
  -- On a valid array whose grown size in bytes is a `size_t`, and when the allocation succeeds, adding
  -- one element is inserting it.
  pub add-insert :
      (a : Array A) (x : A)
      → 0 < elem_size
      → IsValid a
      → (2 * a.capacity + 1 + min_capacity) * elem_size < 2 ^ 64
      → add zeroed elem_size true a x ≡ insert zeroed elem_size true a (x ∷ [])
  unfolding add insert
  add-insert a x pos v fits =
      let (a', reserved, room) = reserve-HasRoom zeroed elem_size a 1 pos v fits in
      let small : 2 * a.capacity + 1 + 8 < 2 ^ 64 =
        omega (arith, fits, le-mul_of_pos_right (2 * a.capacity + 1 + 8) pos) in
      let end : add_size a'.size 1 ≡ a'.size + 1 = omega (arith, small, v.inside, room.same_size) in
      let fit : a'.size + 1 ≤ a'.capacity = omega (arith, room.room, room.same_size) in
      rw (reserved, end, le→leb (a'.size + 1) a'.capacity fit) refl

  -- On a valid array whose grown size in bytes is a `size_t`, and when the allocation succeeds,
  -- pushing gives the position behind the elements in use, and a valid array that keeps them and has
  -- `n` more behind them.
  pub push-contents :
      (a : Array A) (n : ℕ)
      → 0 < elem_size
      → IsValid a
      → (2 * a.capacity + n + min_capacity) * elem_size < 2 ^ 64
      → (a' : Array A) × (push zeroed elem_size true a n ≡ ok (a.size, a'))
        × IsValid a'
        × (a'.size ≡ a.size + n)
        × (take a.size a'.data' ≡ contents a)
  unfolding push
  push-contents a n pos v fits =
      let (a', reserved, room) = reserve-HasRoom zeroed elem_size a n pos v fits in
      let small : 2 * a.capacity + n + 8 < 2 ^ 64 =
        omega (arith, fits, le-mul_of_pos_right (2 * a.capacity + n + 8) pos) in
      let end : add_size a'.size n ≡ a'.size + n = omega (arith, small, v.inside, room.same_size) in
      let fit : a'.size + n ≤ a'.capacity = omega (arith, room.room, room.same_size) in
      (
        record a' { size = a'.size + n },
        rw (reserved, end, le→leb (a'.size + n) a'.capacity fit, room.same_size) refl,
        record { allocated = room.valid.allocated; inside = fit },
        omega (arith, room.same_size),
        ap (λ (k : ℕ). take k a'.data') (sym room.same_size) ∙ room.same,
      )
