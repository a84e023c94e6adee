-- ===== src/Client/Network/Pack/Within.antt =====
-- Nothing is written past the end of the buffer of `pack`.
use headquarter.Base.{ℕ, zero, suc, ◌-◌, ◌*◌, ◌≤◌, ◌≡◌, arith, List, [], ◌∷◌, ◌++◌}
use headquarter.Base.{
  length, drop, ltb, ◌==◌, false, Bool-cases, inl, inr, length-append, length-take,
}
use headquarter.Base.{ok, >>=-eq-ok}
use headquarter.Common.Endian.{le16enc}
use headquarter.Client.Network.Fields.{MsgField, get_element_size, get_prefix_size, is_nested}
use headquarter.Client.Network.Buffer.{read_bytes}
use headquarter.Client.Network.Pack.{
  Head, Encoder, encode_count, pack_counted, pack_prefix, continue,
}
use headquarter.Client.Network.Pack.{
  repeat, pack_elements, pack_structs, pack_field, pack, read_length,
}

abbrev pub IsWithin : Encoder → Type 0
IsWithin e =
    (struct : List ℕ) (room : ℕ) (bytes : List ℕ) → e struct room ≡ ok bytes → length bytes ≤ room

continue-IsWithin :
    (next : Encoder)
    → IsWithin next
    → (done struct : List ℕ) (room : ℕ) (bytes : List ℕ) → length done ≤ room
    → continue done next struct room ≡ ok bytes
    → length bytes ≤ room
unfolding continue
continue-IsWithin next within done struct room bytes fits e =
    let (rest, writes, ends) = >>=-eq-ok (next struct (room - length done)) _ e in
    let small = within struct (room - length done) rest writes in
    ground (arith, ends, length-append done rest)

repeat-IsWithin :
    (element : Encoder) → IsWithin element → (size left : ℕ) → IsWithin (repeat element size left)
unfolding repeat
repeat-IsWithin element within size zero struct room bytes e = ground (arith, e)
repeat-IsWithin element within size (suc left) struct room bytes e =
    let (first, writes, later) = >>=-eq-ok (element struct room) _ e in
    continue-IsWithin (repeat element size left) (repeat-IsWithin element within size left) first
      (drop size struct) room bytes (within struct room first writes) later

length-read_bytes :
    (s : List ℕ) (n : ℕ) (bytes : List ℕ) → read_bytes s n ≡ ok bytes → length bytes ≤ n
unfolding read_bytes
length-read_bytes s n bytes e = ground (arith, e, length-take n s)

length-encode_count :
    (f : MsgField) (n : ℕ) (prefix : List ℕ)
    → (get_prefix_size f.type == 0) ≡ false
    → encode_count f n ≡ ok prefix
    → length prefix ≤ get_prefix_size f.type
unfolding encode_count le16enc get_prefix_size
length-encode_count f n prefix counted e = ground (arith, e, counted)

pack_prefix-IsWithin :
    (f : MsgField) (struct : List ℕ) (room : ℕ) (h : Head)
    → pack_prefix f struct room ≡ ok h
    → length h.prefix ≤ room
unfolding pack_prefix pack_counted
pack_prefix-IsWithin f struct room h e = elim (Bool-cases (get_prefix_size f.type == 0)) [
  | inl plain ↦ ground (arith, rw plain at e)
  | inr counted ↦ elim (Bool-cases (ltb room (get_prefix_size f.type))) [
    | inl short ↦ absurd (ground (arith, rw (counted, short) at e))
    | inr wide ↦
        (let (r, reads, encodes) = >>=-eq-ok (read_length f struct) _ (rw (counted, wide) at e) in
          let (prefix, encoded, ends) = >>=-eq-ok (encode_count f r.0) _ encodes in
          let small = length-encode_count f r.0 prefix counted encoded in
          ground (arith, ends, wide))
  ]
]

module _ (next : Encoder) (within : IsWithin next) where
  pack_elements-IsWithin :
      (f : MsgField) (h : Head) (struct : List ℕ) (room : ℕ) (bytes : List ℕ)
      → length h.prefix ≤ room
      → pack_elements next f h struct room ≡ ok bytes
      → length bytes ≤ room
  unfolding pack_elements
  pack_elements-IsWithin f h struct room bytes fits e =
      let size = get_element_size f * h.packed in
      elim (Bool-cases (ltb (room - length h.prefix) size)) [
        | inl short ↦ absurd (ground (arith, rw short at e))
        | inr wide ↦
            (let (copied, reads, later) =
                >>=-eq-ok (read_bytes (drop h.readed struct) size) _ (rw wide at e) in
              let small = length-read_bytes (drop h.readed struct) size copied reads in
              continue-IsWithin next within (h.prefix ++ copied) _ room bytes
                (ground (arith, wide, length-append h.prefix copied)) later)
      ]

  pack_structs-IsWithin :
      (f : MsgField) (fields : List MsgField) (h : Head) (struct : List ℕ) (room : ℕ)
      (bytes : List ℕ)
      → length h.prefix ≤ room
      → pack_structs f fields next h struct room ≡ ok bytes
      → length bytes ≤ room
  unfolding pack_structs
  pack_structs-IsWithin f [] h struct room bytes fits e = absurd (ground (arith, e))
  pack_structs-IsWithin f (g ∷ fields) h struct room bytes fits e =
      continue-IsWithin (repeat next f.size h.packed) (repeat-IsWithin next within f.size h.packed)
        h.prefix (drop h.readed struct) room bytes fits e

  pack_field-IsWithin : (f : MsgField) (rest : List MsgField) → IsWithin (pack_field f rest next)
  unfolding pack_field
  pack_field-IsWithin f rest struct room bytes e =
      let (h, prefixed, then_fields) = >>=-eq-ok (pack_prefix f struct room) _ e in
      let fits = pack_prefix-IsWithin f struct room h prefixed in
      elim (Bool-cases (is_nested f.type)) [
        | inl nested ↦
            pack_structs-IsWithin f rest h struct room bytes fits (rw nested at then_fields)
        | inr flat ↦ pack_elements-IsWithin f h struct room bytes fits (rw flat at then_fields)
      ]

pub pack-IsWithin : (fields : List MsgField) → IsWithin (pack fields)
unfolding pack
pack-IsWithin [] struct room bytes e = ground (arith, e)
pack-IsWithin (f ∷ rest) struct room bytes e =
    pack_field-IsWithin (pack rest) (pack-IsWithin rest) f rest struct room bytes e

-- With any fields, on any struct: when `pack` succeeds, the bytes that it writes fit in the room it
-- was given.
pub pack-within :
    (fields : List MsgField) (struct : List ℕ) (room : ℕ) (bytes : List ℕ)
    → pack fields struct room ≡ ok bytes
    → length bytes ≤ room
pack-within fields struct room bytes e = pack-IsWithin fields struct room bytes e
