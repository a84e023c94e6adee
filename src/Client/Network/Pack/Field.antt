-- ===== src/Client/Network/Pack/Field.antt =====
-- The counts that `pack` reads from a struct that holds a value.
use headquarter.Base.{ℕ, zero, suc, ◌+◌, ◌-◌, ◌*◌, ◌≤◌, ◌<◌, ◌≡◌, ◌⊎◌, refl, ap, ◌∙◌, sym, arith}
use headquarter.Base.{List, [], ◌∷◌, ◌++◌, append_assoc, length, drop, take, All, true, false, some}
use headquarter.Base.{leb, ltb, ◌==◌, if◌then◌else◌, ok, refused, Bool-cases, inl, inr}
use headquarter.Base.{length-append, le→leb, drop-append, take-append, u16}
use headquarter.Common.Endian.{le16enc, le32enc, le32dec}
use headquarter.Common.Endian.RoundTrip.{le32dec-le32enc}
use headquarter.Client.Network.Fields.{
  FieldType, MsgField, get_element_size, get_prefix_size, is_string,
}
use headquarter.Client.Network.Fields.{is_nested}
use headquarter.Client.Network.Buffer.{read_bytes}
use headquarter.Client.Network.Message.{Value, join, IsUnit, IsValue, StartsWithZero, IsStored}
use headquarter.Client.Network.Message.{wire_count, struct_count, static_count}
use headquarter.Client.Network.Pack.{Head, Encoder, unicode16_len, read_length, encode_count}
use headquarter.Client.Network.Pack.{pack_counted, pack_prefix, pack_elements, pack_field}
use headquarter.Client.Network.Pack.Encodes.{if_room, Encodes, continue-Encodes}

-- The bytes of elements of one size.
pub length-join :
    (size : ℕ) (v : Value) → All (λ e. length e ≡ size) v → length (join v) ≡ size * length v
length-join size [] h = omega arith
length-join size (e ∷ es) h = grind (arith, length-append e (join es), length-join size es h.1)

-- What stands behind a text that does not fill its room ends it.
unicode16_len-join :
    (v : Value) (more : List ℕ) (n : ℕ)
    → All (λ e. length e ≡ 2) v
    → All IsUnit v
    → length v ≤ n
    → (length v < n → StartsWithZero more)
    → unicode16_len (join v ++ more) n ≡ ok (length v)
unfolding unicode16_len
unicode16_len-join [] more zero two units fits ends = refl
unicode16_len-join [] [] (suc n) two units fits ends = absurd (ends (omega arith))
unicode16_len-join [] (lo ∷ []) (suc n) two units fits ends = absurd (ends (omega arith))
unicode16_len-join [] (lo ∷ hi ∷ more) (suc n) two units fits ends =
    let z = ends (omega arith) in rw (z.0, z.1)
unicode16_len-join (e ∷ v) more zero two units fits ends = absurd (omega arith)
unicode16_len-join ([] ∷ v) more (suc n) two units fits ends = absurd (omega arith)
unicode16_len-join ((lo ∷ []) ∷ v) more (suc n) two units fits ends = absurd (omega arith)
unicode16_len-join ((lo ∷ hi ∷ x ∷ e) ∷ v) more (suc n) two units fits ends = absurd (omega arith)
unicode16_len-join ((lo ∷ hi ∷ []) ∷ v) more (suc n) two units fits ends = ground (
  arith,
  units.0,
  unicode16_len-join v more n two.1 units.1 (omega arith) (λ h. ends (omega arith)),
)

-- A field that is no struct is a scalar, or has a count of two bytes.
pub prefix_cases :
    (t : FieldType)
    → is_nested t ≡ false
    → ((get_prefix_size t ≡ 0) × (is_string t ≡ false)) ⊎ (get_prefix_size t ≡ 2)
unfolding get_prefix_size
prefix_cases t h = ground arith

pub string_size : (f : MsgField) → is_string f.type ≡ true → get_element_size f ≡ 2
unfolding get_element_size
string_size f h = ground arith

pub count_of_string : (f : MsgField) (n : ℕ) → is_string f.type ≡ true → struct_count f n ≡ []
unfolding struct_count
count_of_string f n h = ground arith

pub count_of_array :
    (f : MsgField) (n : ℕ)
    → is_string f.type ≡ false
    → get_prefix_size f.type ≡ 2
    → struct_count f n ≡ le32enc n
unfolding struct_count
count_of_array f n h two = rw (h, two)

pub length-le32enc : (n : ℕ) → length (le32enc n) ≡ 4
unfolding le32enc
length-le32enc n = refl

stored_length :
    (f : MsgField) (v : Value) (s tail : List ℕ)
    → IsValue f v
    → IsStored f v s tail
    → get_prefix_size f.type ≡ 2
    → (length v ≤ f.param)
    → length v ≤ 0xffff
    → read_length f s ≡ ok (length v, length (struct_count f (length v)))
unfolding read_length
stored_length f v s tail val st two fits small = elim (Bool-cases (is_string f.type)) [
  | inl text ↦
      (let layout : s ≡ join v ++ (st.pad ++ tail) =
          st.layout
          ∙ ap (λ c. c ++ (join v ++ (st.pad ++ tail))) (count_of_string f (length v) text) in
        let two_bytes : All (λ e. length e ≡ 2) v = rw (string_size f text) at val.sized in
        let read : unicode16_len s f.param ≡ ok (length v) = rw layout (
          unicode16_len-join v (st.pad ++ tail) f.param two_bytes (val.text text) fits
            (st.terminated text)) in
        rw (text, read)
          (ap (λ c. ok (length v, length c)) (sym (count_of_string f (length v) text))))
  | inr array ↦
      (let layout : s ≡ le32enc (length v) ++ (join v ++ (st.pad ++ tail)) =
          st.layout
          ∙ ap (λ c. c ++ (join v ++ (st.pad ++ tail))) (count_of_array f (length v) array two) in
        let read : le32dec s ≡ some (length v) =
          rw layout (le32dec-le32enc (length v) (join v ++ (st.pad ++ tail)) (omega arith)) in
        rw (array, read)
          (ap (λ k. ok (length v, k))
            (sym (ap length (count_of_array f (length v) array two) ∙ length-le32enc (length v)))))
]

encoded_count :
    (f : MsgField) (n : ℕ)
    → get_prefix_size f.type ≡ 2
    → n ≤ f.param
    → n ≤ 0xffff
    → encode_count f n ≡ ok (wire_count (get_prefix_size f.type) n)
unfolding encode_count wire_count
encoded_count f n two fits small =
    let word : u16 n ≡ n = omega arith in ground (arith, ap le16enc word)

abbrev pub head_of : MsgField → Value → Head
head_of f v = record {
  packed = length v;
  static = static_count f;
  readed = length (struct_count f (length v));
  prefix = wire_count (get_prefix_size f.type) (length v);
}

pub fill_room : (size n k : ℕ) → n ≤ k → size * n + (k - n) * size ≡ k * size
fill_room size n k h =
    let split : k ≡ n + (k - n) = omega arith in omega (arith, ap (λ (t : ℕ). t * size) split)

stored_elements :
    (f : MsgField) (v : Value) (s tail w : List ℕ) (next : Encoder) (room : ℕ)
    → IsValue f v
    → IsStored f v s tail
    → length v ≤ static_count f
    → Encodes next tail w
    → length (wire_count (get_prefix_size f.type) (length v)) ≤ room
    → pack_elements next f (head_of f v) s room
      ≡ if_room (wire_count (get_prefix_size f.type) (length v) ++ (join v ++ w)) room
unfolding pack_elements read_bytes
stored_elements f v s tail w next room val st fits enc there =
    let size = get_element_size f in
    let count = struct_count f (length v) in
    let prefix = wire_count (get_prefix_size f.type) (length v) in
    let rpos : drop (length count) s ≡ join v ++ (st.pad ++ tail) =
      rw st.layout (drop-append (length count) count (join v ++ (st.pad ++ tail)) refl) in
    let bytes : length (join v) ≡ size * length v = length-join size v val.sized in
    let taken : take (size * length v) (join v ++ (st.pad ++ tail)) ≡ join v =
      take-append (size * length v) (join v) (st.pad ++ tail) (sym bytes) in
    let sum : length (prefix ++ (join v ++ w)) ≡ length prefix + (size * length v + length w) =
      omega (arith, length-append prefix (join v ++ w), length-append (join v) w, bytes) in
    elim (Bool-cases (ltb (room - length prefix) (size * length v))) [
      | inl short ↦ rw short (ground (arith, sum))
      | inr wide ↦
          (let inside : leb (size * length v) (length (join v ++ (st.pad ++ tail))) ≡ true =
              le→leb _ _ (omega (arith, length-append (join v) (st.pad ++ tail), bytes)) in
            let padded : length (join v ++ st.pad) ≡ static_count f * size = omega (
              arith,
              length-append (join v) st.pad,
              bytes,
              st.room,
              fill_room size (length v) (static_count f) fits,
            ) in
            let skip : drop (static_count f * size) (join v ++ (st.pad ++ tail)) ≡ tail =
              rw (← append_assoc (join v) st.pad tail)
                (drop-append (static_count f * size) (join v ++ st.pad) tail (sym padded)) in
            let room_left : length (prefix ++ join v) ≤ room =
              ground (arith, length-append prefix (join v), bytes) in
            rw (wide, rpos, inside, taken, skip)
              (continue-Encodes next (prefix ++ join v) w tail room room_left enc
                ∙ ap (λ x. if_room x room) (append_assoc prefix (join v) w)))
    ]

-- The count of a scalar, and of the other fields.
scalar_head :
    (f : MsgField) (v : Value)
    → get_prefix_size f.type ≡ 0
    → length v ≡ 1
    → head_of f v ≡ record { packed = 1; static = 1; readed = 0; prefix = [] }
unfolding struct_count static_count wire_count
scalar_head f v zero_size one = rw (zero_size, one)

counted_head :
    (f : MsgField) (v : Value) (s tail : List ℕ)
    → IsValue f v
    → IsStored f v s tail
    → get_prefix_size f.type ≡ 2
    → pack_counted f s ≡ ok (head_of f v)
unfolding pack_counted
counted_head f v s tail val st two =
    let (fits, small) = val.fits (λ e. absurd (omega arith)) in
    let static : f.param ≡ static_count f = unfold static_count in rw two refl in
    rw (stored_length f v s tail val st two fits small, encoded_count f (length v) two fits small)
      (ap
        (λ k. ok (record {
          packed = length v;
          static = k;
          readed = length (struct_count f (length v));
          prefix = wire_count (get_prefix_size f.type) (length v);
        }))
        static)

pub static_fits : (f : MsgField) (v : Value) → IsValue f v → length v ≤ static_count f
unfolding static_count
static_fits f v val = elim (Bool-cases (get_prefix_size f.type == 0)) [
  | inl plain ↦ rw plain (omega (arith, val.scalar (ground (arith, plain))))
  | inr counted ↦ rw counted (val.fits (λ e. ground (arith, counted))).0
]

prefix_head :
    (f : MsgField) (v : Value) (s tail : List ℕ) (room : ℕ)
    → is_nested f.type ≡ false
    → IsValue f v
    → IsStored f v s tail
    → pack_prefix f s room ≡ (
        if ltb room (length (wire_count (get_prefix_size f.type) (length v)))
        then refused
        else ok (head_of f v))
unfolding pack_prefix
prefix_head f v s tail room flat val st = elim (prefix_cases f.type flat) [
  | inl (zero_size, plain) ↦
      (let none_written : length (wire_count (get_prefix_size f.type) (length v)) ≡ 0 =
          unfold wire_count in rw zero_size refl in
        rw (none_written, scalar_head f v zero_size (val.scalar zero_size), zero_size)
          (ground arith))
  | inr two ↦
      (let two_written : length (wire_count (get_prefix_size f.type) (length v)) ≡ 2 =
          unfold wire_count le16enc in rw two refl in
        rw (two_written, counted_head f v s tail val st two, two) refl)
]

-- A prefix that does not fit.
pub too_long :
    (bytes more : List ℕ) (room : ℕ) → room < length bytes → if_room (bytes ++ more) room ≡ refused
too_long bytes more room h = ground (arith, length-append bytes more)

-- A field that is no struct, in front of what `next` writes.
pub flat_field :
    (f : MsgField) (v : Value) (s tail w : List ℕ) (next : Encoder) (rest : List MsgField)
    → is_nested f.type ≡ false
    → IsValue f v
    → IsStored f v s tail
    → Encodes next tail w
    → Encodes
        (pack_field f rest next)
        s
        (wire_count (get_prefix_size f.type) (length v) ++ (join v ++ w))
unfolding pack_field
flat_field f v s tail w next rest flat val st enc room =
    let count = wire_count (get_prefix_size f.type) (length v) in
    elim (Bool-cases (ltb room (length count))) [
      | inl short ↦
          rw (prefix_head f v s tail room flat val st, short)
            (sym (too_long count (join v ++ w) room (ground arith)))
      | inr wide ↦
          rw (prefix_head f v s tail room flat val st, wide, flat)
            (stored_elements f v s tail w next room val st (static_fits f v val) enc (ground arith))
    ]
