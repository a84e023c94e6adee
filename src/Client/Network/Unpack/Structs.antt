-- ===== src/Client/Network/Unpack/Structs.antt =====
-- Messages whose fields are all scalars, the elements of a nested struct: the struct that holds one
-- starts with its bytes on the wire. The loop over such elements.
use headquarter.Base.{ℕ, ◌+◌, ◌-◌, ◌*◌, ◌^◌, ◌<◌, ◌≡◌, refl, ap, ◌∙◌, sym, arith}
use headquarter.Base.{List, [], ◌∷◌, ◌++◌, append_assoc, length, All, Bool, true, false}
use headquarter.Base.{if◌then◌else◌, length-append}
use headquarter.Client.Network.Fields.{MsgField, get_element_size, get_prefix_size}
use headquarter.Client.Network.Fields.{is_string, is_nested}
use headquarter.Client.Network.Message.{Value, join, Message, Body, wire, wire_body}
use headquarter.Client.Network.Message.{IsMessage, IsBody, IsValue, IsStored, Holds, HoldsBody}
use headquarter.Client.Network.Message.{wire_count, struct_count, static_count}
use headquarter.Client.Network.Pack.Field.{length-join}
use headquarter.Client.Network.Unpack.Field.{room_of}

-- The bytes that a struct of the given fields takes.
abbrev pub struct_size : List MsgField → ℕ
struct_size [] = 0
struct_size (f ∷ rest) =
    let flat = room_of f + struct_size rest in
    if is_nested f.type then 4 + f.param * f.size else flat

abbrev pub IsScalar : MsgField → Type 0
IsScalar f = (get_prefix_size f.type ≡ 0) × (f.param < 2 ^ 32)

pub scalar_flat : (f : MsgField) → IsScalar f → is_nested f.type ≡ false
unfolding get_prefix_size
scalar_flat f h = ground arith

scalar_plain : (f : MsgField) → IsScalar f → is_string f.type ≡ false
unfolding get_prefix_size
scalar_plain f h = ground arith

pub scalar_room : (f : MsgField) → IsScalar f → room_of f ≡ get_element_size f
unfolding room_of struct_count static_count
scalar_room f h = rw (h.0) (omega arith)

no_room :
    (f : MsgField) (v : Value)
    → IsScalar f
    → IsValue f v
    → (static_count f - length v) * get_element_size f ≡ 0
unfolding static_count
no_room f v sc val = rw (sc.0) (
    let none_left : 1 - length v ≡ 0 = omega (arith, val.scalar sc.0) in
    omega (arith, ap (λ (t : ℕ). t * get_element_size f) none_left))

nil_of_length : (l : List ℕ) → length l ≡ 0 → l ≡ []
nil_of_length [] h = refl
nil_of_length (x ∷ l) h = absurd (omega arith)

no_pad :
    (f : MsgField) (v : Value) (pad : List ℕ)
    → IsScalar f
    → IsValue f v
    → length pad ≡ (static_count f - length v) * get_element_size f
    → pad ≡ []
no_pad f v pad sc val h = nil_of_length pad (h ∙ no_room f v sc val)

-- A scalar in a struct is its bytes.
scalar_stored :
    (f : MsgField) (v : Value) (s tail : List ℕ)
    → IsScalar f
    → IsValue f v
    → IsStored f v s tail
    → s ≡ join v ++ tail
scalar_stored f v s tail sc val st =
    let no_count : struct_count f (length v) ≡ [] = unfold struct_count in rw (sc.0) refl in
    st.layout
    ∙ ap (λ c. c ++ (join v ++ (st.pad ++ tail))) no_count
    ∙ ap (λ l. join v ++ (l ++ tail)) (no_pad f v st.pad sc val st.room)

IsStored-scalar :
    (f : MsgField) (v : Value) (tail : List ℕ)
    → IsScalar f
    → IsValue f v
    → IsStored f v (join v ++ tail) tail
IsStored-scalar f v tail sc val = record {
  pad = [];
  layout = unfold struct_count in rw (sc.0) refl;
  room = sym (no_room f v sc val);
  terminated = λ text short. absurd (ground (arith, text, scalar_plain f sc));
}

no_wire_count : (f : MsgField) (n : ℕ) → IsScalar f → wire_count (get_prefix_size f.type) n ≡ []
unfolding wire_count
no_wire_count f n sc = rw (sc.0) refl

-- The first field of a message of scalars, given what holds of the others.
module _ {M : Type 0} (f : MsgField) (fields : List MsgField) (enc : M → List ℕ) (P : M → Type 0)
    (H : M → List ℕ → Type 0) (sc : IsScalar f) where
  body_starts :
      (b : Bool)
      → b ≡ false
      → ((m : M) (s : List ℕ) → P m → H m s → (rest : List ℕ) × (s ≡ enc m ++ rest))
      → (m : Body b M) (s : List ℕ) → IsBody b f fields P m
      → HoldsBody b f H m s
      → (rest : List ℕ) × (s ≡ wire_body b f enc m ++ rest)
  body_starts true e each m s valid holds = absurd (ground (arith, e))
  body_starts false e each (v, m) s (val, p) (tail, st, h) =
      let (rest, starts) = each m tail p h in
      (
        rest,
        scalar_stored f v s tail sc val st
            ∙ ap (λ t. join v ++ t) starts
            ∙ sym (append_assoc (join v) (enc m) rest)
            ∙ ap (λ c. (c ++ (join v ++ enc m)) ++ rest) (sym (no_wire_count f (length v) sc)),
      )

  body_holds :
      (b : Bool)
      → b ≡ false
      → ((m : M) (rest : List ℕ) → P m → H m (enc m ++ rest))
      → (m : Body b M) (rest : List ℕ) → IsBody b f fields P m
      → HoldsBody b f H m (wire_body b f enc m ++ rest)
  body_holds true e each m rest valid = absurd (ground (arith, e))
  body_holds false e each (v, m) rest (val, p) = (
    enc m ++ rest,
    rw (no_wire_count f (length v) sc, append_assoc (join v) (enc m) rest)
        (IsStored-scalar f v (enc m ++ rest) sc val),
    each m rest p,
  )

  body_size :
      (b : Bool)
      → b ≡ false
      → (n : ℕ) → ((m : M) → P m → length (enc m) ≡ n)
      → (m : Body b M) → IsBody b f fields P m
      → length (wire_body b f enc m) ≡ room_of f + n
  body_size true e n each m valid = absurd (ground (arith, e))
  body_size false e n each (v, m) (val, p) =
      rw (no_wire_count f (length v) sc, scalar_room f sc)
        (omega (
          arith,
          length-append (join v) (enc m),
          length-join (get_element_size f) v val.sized,
          each m p,
          ap (λ (t : ℕ). get_element_size f * t) (val.scalar sc.0),
        ))

-- A struct of scalars starts with the bytes of the message.
pub scalars_start :
    (fields : List MsgField)
    → All IsScalar fields
    → (m : Message fields) (s : List ℕ) → IsMessage fields m
    → Holds fields m s
    → (rest : List ℕ) × (s ≡ wire fields m ++ rest)
scalars_start [] sc m s valid holds = (s, refl)
scalars_start (f ∷ fields) sc m s valid holds =
    body_starts f fields (wire fields) (IsMessage fields) (Holds fields) sc.0 (is_nested f.type)
      (scalar_flat f sc.0) (scalars_start fields sc.1) m s valid holds

-- The bytes of the message are a struct that holds it, whatever follows.
pub scalars_hold :
    (fields : List MsgField)
    → All IsScalar fields
    → (m : Message fields) (rest : List ℕ) → IsMessage fields m
    → Holds fields m (wire fields m ++ rest)
scalars_hold [] sc m rest valid = tt
scalars_hold (f ∷ fields) sc m rest valid =
    body_holds f fields (wire fields) (IsMessage fields) (Holds fields) sc.0 (is_nested f.type)
      (scalar_flat f sc.0) (scalars_hold fields sc.1) m rest valid

pub scalars_size :
    (fields : List MsgField)
    → All IsScalar fields
    → (m : Message fields) → IsMessage fields m
    → length (wire fields m) ≡ struct_size fields
scalars_size [] sc m valid = refl
scalars_size (f ∷ fields) sc m valid =
    body_size f fields (wire fields) (IsMessage fields) (Holds fields) sc.0 (is_nested f.type)
      (scalar_flat f sc.0) (struct_size fields) (scalars_size fields sc.1) m valid
    ∙ rw (scalar_flat f sc.0) refl
