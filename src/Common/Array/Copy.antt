-- ===== src/Common/Array/Copy.antt =====
-- `array_copy`: one array over another.
use headquarter.Base.{
  ℕ, ◌+◌, ◌*◌, ◌^◌, ◌<◌, ◌≤◌, ◌≡◌, refl, arith, true, length, length-take, le→leb, ok,
}
use headquarter.Common.Array.{Array, load, copy, min_capacity}
use headquarter.Common.Array.Grow.{IsValid, contents}
use headquarter.Common.Array.Contents.{insert-contents}

module _ {ℓ} {A : Type ℓ} (zeroed : A) (elem_size : ℕ) where
  load-contents : (a : Array A) → IsValid a → load a.data' 0 a.size ≡ ok (contents a)
  unfolding load
  load-contents a valid =
      let inside : 0 + a.size ≤ length a.data' = omega (arith, valid.inside, valid.allocated) in
      rw (le→leb (0 + a.size) (length a.data') inside) refl

  -- Copying a valid array over another one, when the allocation succeeds and the grown size in bytes is
  -- a `size_t`, leaves a valid array with the elements of the source and nothing of what it held.
  pub copy-contents :
      (dest src : Array A)
      → 0 < elem_size
      → IsValid dest
      → IsValid src
      → (2 * dest.capacity + src.size + min_capacity) * elem_size < 2 ^ 64
      → (dest' : Array A) × (copy zeroed elem_size true dest src ≡ ok dest')
        × IsValid dest'
        × (contents dest' ≡ contents src)
  unfolding copy
  copy-contents dest src pos valid from fits =
      let cleared = record dest { size = 0 } in
      let count : length (contents src) ≡ src.size =
        omega (arith, length-take src.size src.data', from.inside, from.allocated) in
      let fits' : (2 * cleared.capacity + length (contents src) + min_capacity) * elem_size
          < 2 ^ 64 =
        rw (count) fits in
      let (dest', inserted, valid', bounded, joined) =
        insert-contents zeroed elem_size cleared (contents src) pos
          (record { allocated = valid.allocated; inside = omega arith }) fits' in
      (dest', rw (load-contents src from) inserted, valid', joined)
