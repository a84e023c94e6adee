-- ===== src/Client/Network/Tests.antt =====
-- Sample messages.
use headquarter.Base.{ℕ, List, [], ◌∷◌, ◌++◌, ◌≡◌, ◌≤◌, refl, ok, replicate, length, drop, arith}
use headquarter.Client.Network.Fields.{FieldType, MsgField, get_prefix_size, get_element_size}
use headquarter.Client.Network.Message.{Message, wire, IsMessage, Holds, IsValue, IsStored}
use headquarter.Client.Network.Message.{wire_count, struct_count, has_count, static_count}
use headquarter.Client.Network.Unpack.{
  unpack, read_prefix, repeat, read_structs, read_elements, continue, read_counted, read_count,
  write_count, string_end,
}
use headquarter.Client.Network.Unpack.Structs.{struct_size}
use headquarter.Client.Network.Unpack.Stable.{IsKept, unpack-IsKept}
use headquarter.Client.Network.Unpack.Correct.{IsLayout, unpack-wire}
use headquarter.Client.Network.Unpack.Field.{room_of}
use headquarter.Client.Network.Pack.{pack}
use headquarter.Client.Network.Pack.Encodes.{if_room}
use headquarter.Client.Network.Pack.Correct.{pack-wire}
use headquarter.Client.Network.Pack.Within.{pack-within}
use headquarter.Client.Network.RoundTrip.{unpack-pack}
use headquarter.Client.Network.Buffer.{write_at}
use headquarter.Common.Endian.{le16dec, le32enc, le16enc}

abbrev header_field : MsgField
header_field = record { type = FieldType.msg_header; param = 5; size = 0 }

abbrev words_field : MsgField
words_field = record { type = FieldType.array_16; param = 3; size = 0 }

abbrev nested_field : MsgField
nested_field = record { type = FieldType.nested_struct; param = 2; size = 1 }

abbrev byte_field : MsgField
byte_field = record { type = FieldType.byte; param = 0; size = 0 }

abbrev fields : List MsgField
fields = header_field ∷ words_field ∷ nested_field ∷ byte_field ∷ []

abbrev bytes : List ℕ
bytes = 5 ∷ 0 ∷ 1 ∷ 0 ∷ 7 ∷ 8 ∷ 2 ∷ 21 ∷ 22 ∷ []

abbrev held : List ℕ
held = 5 ∷ 0 ∷ 1 ∷ 0 ∷ 0 ∷ 0 ∷ 7 ∷ 8 ∷ 0 ∷ 0 ∷ 0 ∷ 0 ∷ 2 ∷ 0 ∷ 0 ∷ 0 ∷ 21 ∷ 22 ∷ []

abbrev message : Message fields
message = ((5 ∷ 0 ∷ []) ∷ [], ((7 ∷ 8 ∷ []) ∷ [], ((21 ∷ []) ∷ [], tt) ∷ ((22 ∷ []) ∷ [], tt) ∷ []))

unpack_sample : unpack fields (bytes ++ 99 ∷ []) (replicate 18 0) ≡ ok (9, held)
unfolding unpack read_prefix repeat read_structs read_elements continue write_at get_prefix_size
    get_element_size le16dec le32enc read_counted read_count write_count string_end
unpack_sample = refl

wire_sample : wire fields message ≡ bytes
unfolding wire_count get_prefix_size le16enc
wire_sample = refl

fields-IsLayout : IsLayout fields
unfolding get_prefix_size room_of struct_count has_count static_count get_element_size le32enc
fields-IsLayout = (
  record { word = ground arith; terminator = λ e. ground (arith, e) },
  (
    record { word = ground arith; terminator = λ e. ground (arith, e) },
    (
      ground arith,
      refl,
      ((refl, ground arith), tt),
      (record { word = ground arith; terminator = λ e. ground (arith, e) }, tt),
    ),
  ),
)

byte-IsValue : (b : ℕ) → IsValue byte_field ((b ∷ []) ∷ [])
unfolding get_prefix_size get_element_size
byte-IsValue b = record {
  sized = (refl, tt);
  scalar = λ e. refl;
  fits = λ n. absurd (n refl);
  text = λ e. ground (arith, e);
}

message-IsMessage : IsMessage fields message
unfolding get_prefix_size get_element_size
message-IsMessage = (
  record {
    sized = (refl, tt);
    scalar = λ e. refl;
    fits = λ n. absurd (n refl);
    text = λ e. ground (arith, e);
  },
  (
    record {
      sized = (refl, tt);
      scalar = λ e. absurd (ground (arith, e));
      fits = λ n. (ground arith, ground arith);
      text = λ e. ground (arith, e);
    },
    (
      ground arith,
      ground arith,
      (λ e. ground (arith, e)),
      ((byte-IsValue 21, tt), ((byte-IsValue 22, tt), tt)),
    ),
  ),
)

byte-IsStored :
    (b : ℕ) (rest : List ℕ)
    → (tail : List ℕ) × IsStored byte_field ((b ∷ []) ∷ []) (b ∷ rest) tail × Unit {0}
unfolding get_prefix_size get_element_size struct_count has_count static_count
byte-IsStored b rest =
    (rest, record { pad = []; layout = refl; room = refl; terminated = λ e. ground (arith, e) }, tt)

message-Holds : Holds fields message held
unfolding get_prefix_size get_element_size struct_count has_count static_count le32enc
message-Holds = (
  drop 2 held,
  record { pad = []; layout = refl; room = refl; terminated = λ e. ground (arith, e) },
  (
    drop 12 held,
    record {
      pad = 0 ∷ 0 ∷ 0 ∷ 0 ∷ [];
      layout = refl;
      room = refl;
      terminated = λ e. ground (arith, e);
    },
    (drop 16 held, refl, ((byte-IsStored 21 (22 ∷ []), (byte-IsStored 22 [], tt)))),
  ),
)

unpack-IsKept_example : IsKept (unpack fields) bytes (replicate 18 0) 9 held
unfolding unpack read_prefix repeat read_structs read_elements continue write_at get_prefix_size
    get_element_size le16dec le32enc read_counted read_count write_count string_end
unpack-IsKept_example = unpack-IsKept fields bytes (replicate 18 0) 9 held refl

packed : pack fields held 20 ≡ ok bytes
unfolding wire_count get_prefix_size le16enc
packed = pack-wire fields message held 20 message-IsMessage message-Holds

large : struct_size fields ≤ length (replicate {A = ℕ} 18 0)
unfolding get_prefix_size room_of struct_count has_count static_count get_element_size le32enc
large = ground arith

fits : length (wire fields message) ≤ 20
unfolding wire_count get_prefix_size le16enc
fits = ground arith

pack-within_example : length bytes ≤ 20
pack-within_example = pack-within fields held 20 bytes packed

pack-wire_example : pack fields held 20 ≡ if_room (wire fields message) 20
pack-wire_example = pack-wire fields message held 20 message-IsMessage message-Holds

unpack-wire_example :
    (out : List ℕ) × (unpack fields (wire fields message ++ 99 ∷ []) (replicate 18 0)
      ≡ ok (length (wire fields message), out))
    × Holds fields message out
unpack-wire_example =
    unpack-wire fields message (99 ∷ []) (replicate 18 0) fields-IsLayout message-IsMessage large

unpack-pack_example :
    (packed : List ℕ) × (pack fields held 20 ≡ ok packed)
    × ((out : List ℕ) × (unpack fields (packed ++ 99 ∷ []) (replicate 18 0)
          ≡ ok (length packed, out))
        × Holds fields message out
        × (pack fields out 20 ≡ ok packed))
unpack-pack_example =
    unpack-pack fields message held (99 ∷ []) (replicate 18 0) 20 fields-IsLayout message-IsMessage
      message-Holds fits large
