-- ===== src/Client/Network/Unpack/Field.antt =====
-- What `unpack` makes of a field that is no struct: its count, its elements, and the terminator of
-- a text.
use headquarter.Base.{ℕ, ◌+◌, ◌*◌, ◌^◌, ◌≤◌, ◌<◌, ◌≡◌, refl, ap, arith}
use headquarter.Base.{List, [], ◌∷◌, ◌++◌, length, drop, take}
use headquarter.Base.{true, false, ltb, ok, Bool-cases, inl, inr}
use headquarter.Base.{length-append, length-take, length-drop, le→leb, drop-append}
use headquarter.Common.Endian.{le16enc, le32enc}
use headquarter.Common.Endian.RoundTrip.{le16dec-le16enc}
use headquarter.Client.Network.Fields.{MsgField, get_element_size, get_prefix_size, is_string}
use headquarter.Client.Network.Fields.{is_nested}
use headquarter.Client.Network.Buffer.{write_at}
use headquarter.Client.Network.Message.{Value, IsValue, StartsWithZero}
use headquarter.Client.Network.Message.{wire_count, struct_count, static_count}
use headquarter.Client.Network.Pack.Field.{prefix_cases, count_of_string, count_of_array}
use headquarter.Client.Network.Pack.Field.{length-le32enc, string_size}
use headquarter.Client.Network.Unpack.{Head, string_end, read_count, write_count, read_counted}
use headquarter.Client.Network.Unpack.{read_prefix}

-- The room of a field in a struct.
unfoldable pub room_of : MsgField → ℕ
unfolding struct_count
room_of f = length (struct_count f 0) + static_count f * get_element_size f

-- What the tables of packets.c have to respect: a `uint32_t` parameter, and room for the terminator
-- of a text.
pub record IsField (f : MsgField) : Type 0 where
  pub word : f.param < 2 ^ 32
  pub terminator : is_string f.type ≡ true → 0 < f.param

-- The struct after the count of a field has been stored in it.
pub record IsPrepared (f : MsgField) (n : ℕ) (struct prepared : List ℕ) : Type 0 where
  pub same_length : length prepared ≡ length struct
  pub counted : (rest : List ℕ) × (prepared ≡ struct_count f n ++ rest)
  pub ended : is_string f.type ≡ true → n < f.param → StartsWithZero (drop (2 * n) prepared)

pub write_at-eq :
    (buf : List ℕ) (offset : ℕ) (bytes : List ℕ)
    → offset + length bytes ≤ length buf
    → write_at buf offset bytes
      ≡ ok (take offset buf ++ (bytes ++ drop (offset + length bytes) buf))
unfolding write_at
write_at-eq buf offset bytes h = rw (le→leb (offset + length bytes) (length buf) h)

pub length_written :
    (buf : List ℕ) (offset : ℕ) (bytes : List ℕ)
    → offset + length bytes ≤ length buf
    → length (take offset buf ++ (bytes ++ drop (offset + length bytes) buf)) ≡ length buf
length_written buf offset bytes h = omega (
  arith,
  length-append (take offset buf) (bytes ++ drop (offset + length bytes) buf),
  length-append bytes (drop (offset + length bytes) buf),
  length-take offset buf,
  length-drop (offset + length bytes) buf,
)

string_end-eq : (f : MsgField) (n : ℕ) → IsField f → n < f.param → string_end f n ≡ n
unfolding string_end
string_end-eq f n fld h = omega (arith, fld.word)

text_room :
    (f : MsgField) → is_string f.type ≡ true → get_prefix_size f.type ≡ 2 → room_of f ≡ f.param * 2
unfolding room_of static_count
text_room f text two = rw (count_of_string f 0 text, two, string_size f text) (omega arith)

array_room :
    (f : MsgField)
    → is_string f.type ≡ false
    → get_prefix_size f.type ≡ 2
    → room_of f ≡ 4 + f.param * get_element_size f
unfolding room_of static_count
array_room f array two = rw (count_of_array f 0 array two, two, length-le32enc 0) refl

-- The terminator of a text that leaves room stands right behind it.
text_ended :
    (f : MsgField) (n : ℕ) (struct : List ℕ)
    → IsField f
    → n < f.param
    → 2 * n + 2 ≤ length struct
    → StartsWithZero (
        drop
          (2 * n)
          (take (2 * string_end f n) struct ++ (0 ∷ 0 ∷ drop (2 * string_end f n + 2) struct)))
text_ended f n struct fld h room =
    rw
      (
        string_end-eq f n fld h,
        drop-append (2 * n) (take (2 * n) struct) (0 ∷ 0 ∷ drop (2 * n + 2) struct)
            (omega (arith, length-take (2 * n) struct)),
      )
      (refl, refl)

IsStoredCount : MsgField → ℕ → List ℕ → Type 0
IsStoredCount f n struct =
    (prepared : List ℕ) × (write_count f n struct ≡ ok (length (struct_count f n), prepared))
    × IsPrepared f n struct prepared

text_stored :
    (f : MsgField) (n : ℕ) (struct : List ℕ)
    → IsField f
    → is_string f.type ≡ true
    → n ≤ f.param
    → f.param * 2 ≤ length struct
    → IsStoredCount f n struct
unfolding IsStoredCount write_count
text_stored f n struct fld text fits room =
    let at = 2 * string_end f n in
    let inside : at + 2 ≤ length struct =
      unfold string_end in omega (arith, fld.word, fld.terminator text) in
    let none_written = count_of_string f n text in
    (
      take at struct ++ (0 ∷ 0 ∷ drop (at + 2) struct),
      rw (text, write_at-eq struct at (0 ∷ 0 ∷ []) inside, none_written) refl,
      record {
        same_length = length_written struct at (0 ∷ 0 ∷ []) inside;
        counted = (take at struct ++ (0 ∷ 0 ∷ drop (at + 2) struct), rw none_written refl);
        ended = λ t h. text_ended f n struct fld h (omega arith);
      },
    )

array_stored :
    (f : MsgField) (n : ℕ) (struct : List ℕ)
    → is_string f.type ≡ false
    → get_prefix_size f.type ≡ 2
    → 4 ≤ length struct
    → IsStoredCount f n struct
unfolding IsStoredCount write_count
array_stored f n struct array two room =
    let inside : 0 + length (le32enc n) ≤ length struct = omega (arith, length-le32enc n) in
    let count = count_of_array f n array two in
    (
      take 0 struct ++ (le32enc n ++ drop (0 + length (le32enc n)) struct),
      rw (array, write_at-eq struct 0 (le32enc n) inside, count, length-le32enc n) refl,
      record {
        same_length = length_written struct 0 (le32enc n) inside;
        counted = (drop (0 + length (le32enc n)) struct, rw count refl);
        ended = λ t h. absurd (ground (arith, t, array));
      },
    )

-- The bytes of the count read back, and the struct prepared.
counted_head :
    (f : MsgField) (n : ℕ) (behind struct : List ℕ)
    → IsField f
    → get_prefix_size f.type ≡ 2
    → n ≤ f.param
    → n ≤ 0xffff
    → room_of f ≤ length struct
    → (prepared : List ℕ) × (read_counted f (wire_count 2 n ++ behind) struct
        ≡ ok (record {
          packed = n;
          static = f.param;
          readed = 2;
          written = length (struct_count f n);
          struct = prepared;
        }))
      × IsPrepared f n struct prepared
unfolding read_counted IsStoredCount
counted_head f n behind struct fld two fits small room =
    let (prepared, stored, ok_prepared) = stored_count in
    (prepared, rw (two, read, le→leb n f.param fits, stored) refl, ok_prepared)
  where
    read : read_count 2 (wire_count 2 n ++ behind) ≡ ok n
    read = unfold read_count wire_count in rw (le16dec-le16enc n behind (omega arith)) refl

    stored_count : IsStoredCount f n struct
    stored_count = elim (Bool-cases (is_string f.type)) [
      | inl text ↦ text_stored f n struct fld text fits (omega (arith, text_room f text two))
      | inr array ↦ array_stored f n struct array two (omega (arith, array_room f array two))
    ]

-- Every field that is no struct: where it stands after its count.
abbrev pub head_at : MsgField → ℕ → List ℕ → Head
head_at f n prepared = record {
  packed = n;
  static = static_count f;
  readed = length (wire_count (get_prefix_size f.type) n);
  written = length (struct_count f n);
  struct = prepared;
}

pub decoded_head :
    (f : MsgField) (v : Value) (behind struct : List ℕ)
    → is_nested f.type ≡ false
    → IsField f
    → IsValue f v
    → room_of f ≤ length struct
    → (prepared : List ℕ) × (read_prefix f
          (wire_count (get_prefix_size f.type) (length v) ++ behind)
          struct
        ≡ ok (head_at f (length v) prepared))
      × IsPrepared f (length v) struct prepared
unfolding read_prefix
decoded_head f v behind struct flat fld val room = elim (prefix_cases f.type flat) [
  | inl (zero_size, plain) ↦
      (let one = val.scalar zero_size in
        let no_count : struct_count f 1 ≡ [] = unfold struct_count in rw zero_size refl in
        (
          struct,
          unfold static_count wire_count in rw (zero_size, one, no_count) refl,
          record {
            same_length = refl;
            counted = (struct, rw (one, no_count) refl);
            ended = λ t h. absurd (ground (arith, t, plain));
          },
        ))
  | inr two ↦
      (let (fits, small) = val.fits (λ e. absurd (omega arith)) in
        let (prepared, runs, ok_prepared) =
          counted_head f (length v) behind struct fld two fits small room in
        (
          prepared,
          unfold static_count in
              rw (two, longer behind (length v), runs)
                (ap
                  (λ k. ok (record {
                    packed = length v;
                    static = f.param;
                    readed = k;
                    written = length (struct_count f (length v));
                    struct = prepared;
                  }))
                  (two_bytes (length v))),
          ok_prepared,
        ))
]
  where
    two_bytes : (n : ℕ) → 2 ≡ length (wire_count 2 n)
    two_bytes n = unfold wire_count le16enc in refl

    longer : (more : List ℕ) (n : ℕ) → ltb (length (wire_count 2 n ++ more)) 2 ≡ false
    longer more n = ground (arith, length-append (wire_count 2 n) more, two_bytes n)
