-- ===== src/Client/Network/Pack/Correct.antt =====
-- `pack` writes the message that the struct holds.
use headquarter.Base.{ℕ, ◌≤◌, ◌≡◌, ◌≢◌, refl, sym, arith}
use headquarter.Base.{List, [], ◌∷◌, ◌++◌, length, drop, All, Bool, true, false, ltb, if◌then◌else◌}
use headquarter.Base.{ok, refused, drop-append, Bool-cases, inl, inr}
use headquarter.Common.Endian.{le32enc}
use headquarter.Common.Endian.RoundTrip.{le32dec-le32enc}
use headquarter.Client.Network.Fields.{FieldType, MsgField, get_prefix_size, is_nested, is_string}
use headquarter.Client.Network.Message.{
  Message, wire, wire_body, IsMessage, IsBody, Holds, HoldsBody, Body,
}
use headquarter.Client.Network.Message.{wire_count, join_map, Elements}
use headquarter.Client.Network.Pack.{Encoder, pack, pack_field, pack_prefix, pack_structs, repeat}
use headquarter.Client.Network.Pack.{read_length, encode_count, pack_counted}
use headquarter.Client.Network.Pack.Encodes.{if_room, Encodes, continue-Encodes, repeat-Encodes}
use headquarter.Client.Network.Pack.Field.{flat_field, length-le32enc, too_long}

nested_kind : (t : FieldType) → is_nested t ≡ true → (get_prefix_size t ≡ 1) × (is_string t ≡ false)
unfolding get_prefix_size
nested_kind t h = ground arith

-- The elements of `ms` hold, and are valid.
both :
    {M : Type 0} (P : M → Type 0) (H : M → List ℕ → Type 0) (size : ℕ) (ms : List M) (s : List ℕ)
    → All P ms
    → Elements H size ms s
    → Elements (λ m t. P m × H m t) size ms s
both P H size [] s ps hs = tt
both P H size (m ∷ ms) s ps hs = ((ps.0, hs.0), both P H size ms (drop size s) ps.1 hs.1)

nested_head :
    (f : MsgField) (n : ℕ) (rest : List ℕ) (room : ℕ)
    → is_nested f.type ≡ true
    → n ≤ f.param
    → n ≤ 255
    → pack_prefix f (le32enc n ++ rest) room ≡ (
        if ltb room 1
        then refused
        else ok (record { packed = n; static = f.param; readed = 4; prefix = wire_count 1 n }))
unfolding pack_prefix pack_counted read_length encode_count wire_count
nested_head f n rest room nested fits small =
    let (one, array) = nested_kind f.type nested in
    ground (arith, one, array, le32dec-le32enc n rest)

nested_field :
    {M : Type 0} (f : MsgField) (fields : List MsgField) (element : Encoder) (enc : M → List ℕ)
    (P : M → List ℕ → Type 0) (ms : List M) (rest : List ℕ)
    → is_nested f.type ≡ true
    → fields ≢ []
    → length ms ≤ f.param
    → length ms ≤ 255
    → ((m : M) (s : List ℕ) → P m s → Encodes element s (enc m))
    → Elements P f.size ms rest
    → Encodes
        (pack_field f fields element)
        (le32enc (length ms) ++ rest)
        (wire_count 1 (length ms) ++ join_map enc ms)
unfolding pack_field pack_structs
nested_field f [] element enc P ms rest nested some_fields fits small each holds room =
    absurd (some_fields refl)
nested_field f (g ∷ fields) element enc P ms rest nested some_fields fits small each holds room =
    let n = length ms in
    let count = wire_count 1 n in
    let one : length count ≡ 1 = unfold wire_count in refl in
    let skip : drop 4 (le32enc n ++ rest) ≡ rest =
      drop-append 4 (le32enc n) rest (sym (length-le32enc n)) in
    elim (Bool-cases (ltb room 1)) [
      | inl short ↦
          rw (nested_head f n rest room nested fits small, short)
            (sym (too_long count (join_map enc ms) room (ground (arith, one))))
      | inr wide ↦
          rw (nested_head f n rest room nested fits small, wide, nested, skip)
            (continue-Encodes (repeat element f.size n) count (join_map enc ms) rest room
              (ground (arith, one)) (repeat-Encodes element enc P f.size each ms rest holds))
    ]

body_Encodes :
    {M : Type 0} (b : Bool) (f : MsgField) (rest : List MsgField) (element : Encoder)
    (enc : M → List ℕ) (P : M → Type 0) (H : M → List ℕ → Type 0)
    → is_nested f.type ≡ b
    → ((m : M) (s : List ℕ) → P m → H m s → Encodes element s (enc m))
    → (m : Body b M) (s : List ℕ) → IsBody b f rest P m
    → HoldsBody b f H m s
    → Encodes (pack_field f rest element) s (wire_body b f enc m)
body_Encodes true f rest element enc P H kind each ms s (fits, small, some_fields, ps)
      (tail, layout, hs) room =
    rw (layout, (nested_kind f.type kind).0)
      (nested_field f rest element enc (λ m t. P m × H m t) ms tail kind some_fields fits small
        (λ m s' h. each m s' h.0 h.1) (both P H f.size ms tail ps hs) room)
body_Encodes false f rest element enc P H kind each (v, m) s (val, p) (tail, st, h) room =
    flat_field f v s tail (enc m) element rest kind val st (each m tail p h) room

-- A struct that holds a valid message is packed into the bytes of that message if they fit in the
-- room that is left, and is refused otherwise; no assertion fails and nothing is read out of range.
pub pack-wire :
    (fields : List MsgField) (m : Message fields) (s : List ℕ) (room : ℕ)
    → IsMessage fields m
    → Holds fields m s
    → pack fields s room ≡ if_room (wire fields m) room
unfolding pack
pack-wire [] m s room valid holds = ground arith
pack-wire (f ∷ rest) m s room valid holds =
    body_Encodes (is_nested f.type) f rest (pack rest) (wire rest) (IsMessage rest) (Holds rest)
      refl (λ m' s' v h room'. pack-wire rest m' s' room' v h) m s valid holds room
