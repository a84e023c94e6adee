-- ===== src/Client/Network/Unpack/Correct.antt =====
-- `unpack` reads a message back from its bytes into a struct that holds it.
use headquarter.Base.{ℕ, suc, ◌+◌, ◌*◌, ◌^◌, ◌≤◌, ◌<◌, ◌≡◌, refl, ap, ◌∙◌, sym, arith}
use headquarter.Base.{
  List, [], ◌∷◌, ◌++◌, append_assoc, length, drop, take, All, Bool, true, false, u8,
}
use headquarter.Base.{ok, length-append, length-drop}
use headquarter.Base.{drop-append, take-append, le→leb}
use headquarter.Common.Endian.{le32enc}
use headquarter.Client.Network.Fields.{FieldType, MsgField, get_prefix_size}
use headquarter.Client.Network.Fields.{is_string, is_nested}
use headquarter.Client.Network.Message.{join, join_map, Message, Body, wire, wire_body}
use headquarter.Client.Network.Message.{IsMessage, IsBody, Holds, HoldsBody, Elements, wire_count}
use headquarter.Client.Network.Pack.Field.{length-le32enc}
use headquarter.Client.Network.Unpack.{Decoder, unpack, repeat, continue, read_prefix, read_counted}
use headquarter.Client.Network.Unpack.{read_count, write_count, read_structs, read_field}
use headquarter.Client.Network.Unpack.Field.{room_of, IsField, write_at-eq}
use headquarter.Client.Network.Unpack.Stable.{IsStable, unpack-IsStable}
use headquarter.Client.Network.Unpack.Elements.{flat_decoded}
use headquarter.Client.Network.Unpack.Structs.{struct_size, IsScalar}
use headquarter.Client.Network.Unpack.Structs.{scalars_start, scalars_hold, scalars_size}

abbrev pub LayoutBody : Bool → MsgField → List MsgField → Type 0 → Type 0
LayoutBody true f rest next =
    (f.param < 2 ^ 32) × (f.size ≡ struct_size rest) × All IsScalar rest × next
LayoutBody false f rest next = IsField f × next

-- A format whose parameters are words, whose texts have room for a terminator, and whose nested
-- structs have scalars only and say their size.
abbrev pub IsLayout : List MsgField → Type 0
IsLayout [] = Unit
IsLayout (f ∷ rest) = LayoutBody (is_nested f.type) f rest (IsLayout rest)

abbrev StartsWith : List ℕ → List ℕ → Type 0
StartsWith bytes s = (rest : List ℕ) × (s ≡ bytes ++ rest)

zero_times : (n : ℕ) → 0 ≡ 0 * n
zero_times n = omega arith

suc_times : (k n : ℕ) → suc k * n ≡ n + k * n
suc_times k n = omega arith

-- The loop over the elements of a nested struct.
repeat_decodes :
    {M : Type 0} (element : Decoder) (enc : M → List ℕ) (P : M → Type 0) (size : ℕ)
    → ((m : M) → P m → length (enc m) ≡ size)
    → ((m : M) (more struct : List ℕ)
        → P m
        → size ≤ length struct
        → (out : List ℕ) × (element (enc m ++ more) struct ≡ ok (size, out))
          × StartsWith (enc m) out
          × (length out ≡ length struct))
    → (ms : List M) (more struct : List ℕ) → All P ms
    → length ms * size ≤ length struct
    → (out : List ℕ) × (repeat element (length ms) (join_map enc ms ++ more) struct
        ≡ ok (length ms * size, out))
      × StartsWith (join_map enc ms) out
unfolding repeat continue
repeat_decodes element enc P size sized each [] more struct valid room =
    (struct, ap (λ k. ok (k, struct)) (zero_times size), (struct, refl))
repeat_decodes element enc P size sized each (m ∷ ms) more struct valid room =
    let bytes = enc m in
    let later = join_map enc ms in
    let wide : length bytes ≡ size = sized m valid.0 in
    let (out, ran, (rest, starts), same) =
      each m (later ++ more) struct valid.0 (omega (arith, suc_times (length ms) size)) in
    let fits : length ms * size ≤ length (drop size out) =
      omega (arith, suc_times (length ms) size, length-drop size out) in
    let (out', ran', (rest', starts')) =
      repeat_decodes element enc P size sized each ms more (drop size out) valid.1 fits in
    let front : take size out ≡ bytes = rw starts (take-append size bytes rest (sym wide)) in
    (
      take size out ++ out',
      rw
          (
            append_assoc bytes later more,
            ran,
            drop-append size bytes (later ++ more) (sym wide),
            ran',
          )
          (ap (λ k. ok (k, take size out ++ out')) (sym (suc_times (length ms) size))),
      (
        rest',
        ap (λ l. l ++ out') front
            ∙ ap (λ l. bytes ++ l) starts'
            ∙ sym (append_assoc bytes later rest'),
      ),
    )

-- The elements that start with their bytes hold their messages.
Elements-hold :
    {M : Type 0} (enc : M → List ℕ) (P : M → Type 0) (H : M → List ℕ → Type 0) (size : ℕ)
    → ((m : M) → P m → length (enc m) ≡ size)
    → ((m : M) (rest : List ℕ) → P m → H m (enc m ++ rest))
    → (ms : List M) (rest : List ℕ) → All P ms
    → Elements H size ms (join_map enc ms ++ rest)
Elements-hold enc P H size sized each [] rest valid = tt
Elements-hold enc P H size sized each (m ∷ ms) rest valid =
    rw
      (
        append_assoc (enc m) (join_map enc ms) rest,
        drop-append size (enc m) (join_map enc ms ++ rest) (sym (sized m valid.0)),
      )
      (
        each m (join_map enc ms ++ rest) valid.0,
        Elements-hold enc P H size sized each ms rest valid.1,
      )

mul_mono : (n p s : ℕ) → n ≤ p → n * s ≤ p * s
mul_mono n p s h = grind arith

length-join_map :
    {M : Type 0} (enc : M → List ℕ) (P : M → Type 0) (size : ℕ)
    → ((m : M) → P m → length (enc m) ≡ size)
    → (ms : List M) → All P ms
    → length (join_map enc ms) ≡ length ms * size
length-join_map enc P size sized [] valid = zero_times size
length-join_map enc P size sized (m ∷ ms) valid = omega (
  arith,
  length-append (enc m) (join_map enc ms),
  sized m valid.0,
  length-join_map enc P size sized ms valid.1,
  suc_times (length ms) size,
)

nested_kind : (t : FieldType) → is_nested t ≡ true → (get_prefix_size t ≡ 1) × (is_string t ≡ false)
unfolding get_prefix_size
nested_kind t h = ground arith

nested_head :
    (f : MsgField) (n : ℕ) (behind struct : List ℕ)
    → is_nested f.type ≡ true
    → n ≤ f.param
    → n ≤ 255
    → 4 ≤ length struct
    → read_prefix f (wire_count 1 n ++ behind) struct
      ≡ ok (record {
        packed = n;
        static = f.param;
        readed = 1;
        written = 4;
        struct = le32enc n ++ drop 4 struct;
      })
unfolding read_prefix read_counted read_count write_count wire_count
nested_head f n behind struct nested fits small room =
    let (one, array) = nested_kind f.type nested in
    let word : u8 n ≡ n = omega arith in
    let inside : 0 + length (le32enc n) ≤ length struct = omega (arith, length-le32enc n) in
    rw
      (
        one,
        array,
        word,
        le→leb n f.param fits,
        write_at-eq struct 0 (le32enc n) inside,
        length-le32enc n,
      )
      (ground arith)

-- A nested struct.
nested_decodes :
    {M : Type 0} (f : MsgField) (fields : List MsgField) (element : Decoder) (enc : M → List ℕ)
    (P : M → Type 0) (H : M → List ℕ → Type 0)
    → is_nested f.type ≡ true
    → ((m : M) → P m → length (enc m) ≡ f.size)
    → ((m : M) (more struct : List ℕ)
        → P m
        → f.size ≤ length struct
        → (out : List ℕ) × (element (enc m ++ more) struct ≡ ok (f.size, out))
          × StartsWith (enc m) out
          × (length out ≡ length struct))
    → ((m : M) (rest : List ℕ) → P m → H m (enc m ++ rest))
    → (ms : List M) (more struct : List ℕ) → IsBody true f fields P ms
    → 4 + f.param * f.size ≤ length struct
    → (out : List ℕ) × (read_field f fields element
          ((wire_count 1 (length ms) ++ join_map enc ms) ++ more)
          struct
        ≡ ok (length (wire_count 1 (length ms) ++ join_map enc ms), out))
      × HoldsBody true f H ms out
unfolding read_field read_structs continue
nested_decodes f [] element enc P H nested sized each hold ms more struct
      (fits, small, some_fields, ps) room =
    absurd (some_fields refl)
nested_decodes f (g ∷ fields) element enc P H nested sized each hold ms more struct
      (fits, small, some_fields, ps) room =
    let n = length ms in
    let wc = wire_count 1 n in
    let jm = join_map enc ms in
    let one : length wc ≡ 1 = unfold wire_count in refl in
    let fits_all : n * f.size ≤ length (drop 4 struct) =
      omega (arith, mul_mono n f.param f.size fits, length-drop 4 struct) in
    let (out, ran, (rest, starts)) =
      repeat_decodes element enc P f.size sized each ms more (drop 4 struct) ps fits_all in
    let total : 1 + n * f.size ≡ length (wc ++ jm) =
      omega (arith, length-append wc jm, one, length-join_map enc P f.size sized ms ps) in
    let count : take 4 (le32enc n ++ drop 4 struct) ≡ le32enc n =
      take-append 4 (le32enc n) (drop 4 struct) (sym (length-le32enc n)) in
    (
      take 4 (le32enc n ++ drop 4 struct) ++ out,
      rw
          (
            append_assoc wc jm more,
            nested_head f n (jm ++ more) struct nested fits small (omega arith),
            nested,
            drop-append 1 wc (jm ++ more) (sym one),
            drop-append 4 (le32enc n) (drop 4 struct) (sym (length-le32enc n)),
            ran,
          )
          (ap (λ k. ok (k, take 4 (le32enc n ++ drop 4 struct) ++ out)) total),
      (
        out,
        ap (λ c. c ++ out) count,
        rw starts (Elements-hold enc P H f.size sized hold ms rest ps),
      ),
    )

rest_layout :
    (b : Bool) (f : MsgField) (rest : List MsgField) (next : Type 0)
    → LayoutBody b f rest next
    → next
rest_layout true f rest next h = h.3
rest_layout false f rest next h = h.1

-- The first field, given what the decoder of the others does.
body_decodes :
    {M : Type 0} (b : Bool) (f : MsgField) (fields : List MsgField) (next : Decoder)
    (enc : M → List ℕ) (P : M → Type 0) (H : M → List ℕ → Type 0)
    → is_nested f.type ≡ b
    → LayoutBody b f fields (IsLayout fields)
    → ((m : M) (more struct : List ℕ)
        → P m
        → struct_size fields ≤ length struct
        → (out : List ℕ) × (next (enc m ++ more) struct ≡ ok (length (enc m), out)) × H m out)
    → IsStable next
    → (All IsScalar fields
        → (m : M) → P m
        → (length (enc m) ≡ struct_size fields)
          × ((s : List ℕ) → H m s → StartsWith (enc m) s)
          × ((rest : List ℕ) → H m (enc m ++ rest)))
    → (m : Body b M) (more struct : List ℕ) → IsBody b f fields P m
    → struct_size (f ∷ fields) ≤ length struct
    → (out : List ℕ) × (read_field f fields next (wire_body b f enc m ++ more) struct
        ≡ ok (length (wire_body b f enc m), out))
      × HoldsBody b f H m out
body_decodes {M = M} true f fields next enc P H kind layout each stable scalars ms more struct valid
      room =
    let (word, size_eq, sc, rest_layout) = layout in
    let sized : (m : M) → P m → length (enc m) ≡ f.size = λ m p. (scalars sc m p).0 ∙ sym size_eq in
    let room' : 4 + f.param * f.size ≤ length struct = rw kind at room in
    rw ((nested_kind f.type kind).0) (
      nested_decodes f fields next enc P H kind sized
        (λ m tail s p h.
          let (out, ran, holds) = each m tail s p (omega (arith, size_eq)) in
          (
            out,
            ran ∙ ap (λ k. ok (k, out)) (sized m p),
            (scalars sc m p).1 out holds,
            (stable (enc m ++ tail) s (length (enc m)) out ran).same_length,
          ))
        (λ m rest p. (scalars sc m p).2 rest) ms more struct valid room')
body_decodes false f fields next enc P H kind layout each stable scalars (v, m) more struct (val, p)
      room =
    let (fld, rest_layout) = layout in
    let wc = wire_count (get_prefix_size f.type) (length v) in
    let room' : room_of f + struct_size fields ≤ length struct = rw kind at room in
    let (out, ran, holds) =
      flat_decoded f v (enc m ++ more) struct next fields (length (enc m)) (H m) kind fld val
        (omega arith) (λ tail same. each m more tail p (omega arith)) in
    let total : length wc + length (join v) + length (enc m) ≡ length (wc ++ (join v ++ enc m)) =
      omega (arith, length-append wc (join v ++ enc m), length-append (join v) (enc m)) in
    (
      out,
      rw (append_assoc wc (join v ++ enc m) more, append_assoc (join v) (enc m) more, ran)
          (ap (λ k. ok (k, out)) total),
      holds,
    )

-- For a format that satisfies `IsLayout`, the bytes of a valid message, with anything behind them, are
-- read into any struct that is large enough. The number of bytes read is the message's length, and
-- the struct holds the message; no assertion fails and nothing is written out of range.
pub unpack-wire :
    (fields : List MsgField) (m : Message fields) (more struct : List ℕ)
    → IsLayout fields
    → IsMessage fields m
    → struct_size fields ≤ length struct
    → (out : List ℕ) × (unpack fields (wire fields m ++ more) struct
        ≡ ok (length (wire fields m), out))
      × Holds fields m out
unfolding unpack
unpack-wire [] m more struct layout valid room = (struct, refl, tt)
unpack-wire (f ∷ fields) m more struct layout valid room =
    body_decodes (is_nested f.type) f fields (unpack fields) (wire fields) (IsMessage fields)
      (Holds fields) refl layout
      (λ m' more' struct' v h.
        unpack-wire fields m' more' struct'
          (rest_layout (is_nested f.type) f fields (IsLayout fields) layout) v h)
      (unpack-IsStable fields)
      (λ sc m' v. (
        scalars_size fields sc m' v,
        λ s h. scalars_start fields sc m' s v h,
        λ rest. scalars_hold fields sc m' rest v,
      ))
      m more struct valid room
