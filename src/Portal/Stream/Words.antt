-- ===== src/Portal/Stream/Words.antt =====
-- A word that is added to a buffer and read back.
use headquarter.Base.{
  ℕ, ◌+◌, ◌*◌, ◌^◌, ◌<◌, ◌≤◌, ◌≡◌, refl, ap, ap₂, sym, ◌∙◌, arith, List, [], ◌++◌, some, true,
  false, length, take, drop, drop-append, length-append, length-take, append-nil, take_all, ltb, ok,
}
use headquarter.Common.Array.{Array, min_capacity}
use headquarter.Common.Array.Grow.{IsValid, contents}
use headquarter.Common.Array.Push.{push-contents}
use headquarter.Common.Array.Contents.{stored, store-inside, length-stored, take-stored}
use headquarter.Common.Endian.{be16enc}
use headquarter.Common.Endian.RoundTrip.{be16dec-be16enc}
use headquarter.Portal.Stream.{array_add_be_uint16, chk_stream_read16, pushed}

length-be16enc : (value : ℕ) → length (be16enc value) ≡ 2
unfolding be16enc
length-be16enc value = omega arith

read16-be16enc :
    (value : ℕ) (rest : List ℕ)
    → value < 2 ^ 16
    → chk_stream_read16 (be16enc value ++ rest) ≡ ok (some (value, rest))
unfolding chk_stream_read16
read16-be16enc value rest small =
    let two = length-be16enc value in
    let enough : ltb (length (be16enc value ++ rest)) 2 ≡ false =
      ground (arith, length-append (be16enc value) rest, two) in
    rw (enough, be16dec-be16enc value rest small, drop-append 2 (be16enc value) rest (omega arith))
      refl

-- Adding a 16-bit word to a valid buffer, when the allocation succeeds and the grown size is a
-- `size_t`, keeps what the buffer holds; reading a word behind that gives it back and leaves nothing.
pub chk_stream_read16-array_add_be_uint16 :
    (a : Array ℕ) (value : ℕ)
    → IsValid a
    → value < 2 ^ 16
    → 2 * a.capacity + 2 + min_capacity < 2 ^ 64
    → (a' : Array ℕ) × (array_add_be_uint16 true a value ≡ ok a')
      × IsValid a'
      × (contents a' ≡ contents a ++ be16enc value)
      × (chk_stream_read16 (drop a.size (contents a')) ≡ ok (some (value, [])))
unfolding array_add_be_uint16 pushed
chk_stream_read16-array_add_be_uint16 a value valid small fits =
    let (a1, ran, valid1, size1, kept) = push-contents 0 1 a 2 (omega arith) valid (omega arith) in
    let two = length-be16enc value in
    let inside : a.size + length (be16enc value) ≤ length a1.data' =
      omega (arith, two, valid1.inside, valid1.allocated, size1) in
    let bytes = stored a1.data' a.size (be16enc value) in
    let a' = record a1 { data' = bytes } in
    let same : contents a' ≡ contents a ++ be16enc value =
      ap (λ n. take n bytes) size1
      ∙ take-stored a1.data' a.size 2 (be16enc value) (omega (arith, inside)) (omega (arith, two))
      ∙ ap₂ (λ xs ys. xs ++ ys) kept (take_all 2 (be16enc value) (omega (arith, two))) in
    let held : a.size ≡ length (contents a) =
      omega (arith, length-take a.size a.data', valid.inside, valid.allocated) in
    let behind : drop a.size (contents a ++ be16enc value) ≡ be16enc value ++ [] =
      drop-append a.size (contents a) (be16enc value) held ∙ sym (append-nil (be16enc value)) in
    let read =
      ap (λ xs. chk_stream_read16 (drop a.size xs)) same
      ∙ ap chk_stream_read16 behind
      ∙ read16-be16enc value [] small in
    (
      a',
      rw (ran, store-inside a1.data' a.size (be16enc value) inside) refl,
      record {
        allocated = length-stored a1.data' a.size (be16enc value) inside ∙ valid1.allocated;
        inside = valid1.inside;
      },
      same,
      read,
    )
