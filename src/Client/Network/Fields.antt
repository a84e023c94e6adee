-- ===== src/Client/Network/Fields.antt =====
-- code/client/packets.h and the size tables of code/client/network.c: what a message is made of.
use headquarter.Base.{Bool, true, false, ℕ, ◌+◌, ◌*◌, List}

-- `Type`, the field types of a message.
pub data FieldType : Type 0 where
  msg_header agent_id float vect2 vect3 byte word dword blob : FieldType
  string_16 array_8 array_16 array_32 nested_struct : FieldType

-- `size` is given for structs only, and is 0 where the tables of packets.c leave it out.
pub record MsgField : Type 0 where
  pub type : FieldType
  pub param : ℕ
  pub size : ℕ

-- `count` of the source is the length of `fields`.
pub record MsgFormat : Type 0 where
  pub header : ℕ
  pub fields : List MsgField
  pub unpack_size : ℕ

-- The size of a struct member, with 8 for `sizeof(size_t)`.
unfoldable pub get_static_size : MsgField → ℕ
get_static_size f = elim f.type [
  | FieldType.msg_header ↦ 2
  | FieldType.agent_id ↦ 4
  | FieldType.float ↦ 4
  | FieldType.vect2 ↦ 8
  | FieldType.vect3 ↦ 12
  | FieldType.byte ↦ 1
  | FieldType.word ↦ 2
  | FieldType.dword ↦ 4
  | FieldType.blob ↦ f.param
  | FieldType.string_16 ↦ 2 * f.param + 8
  | FieldType.array_8 ↦ f.param + 8
  | FieldType.array_16 ↦ 2 * f.param + 8
  | FieldType.array_32 ↦ 4 * f.param + 8
  | FieldType.nested_struct ↦ 0
]

unfoldable pub get_element_size : MsgField → ℕ
get_element_size f = elim f.type [
  | FieldType.msg_header ↦ 2
  | FieldType.agent_id ↦ 4
  | FieldType.float ↦ 4
  | FieldType.vect2 ↦ 8
  | FieldType.vect3 ↦ 12
  | FieldType.byte ↦ 1
  | FieldType.word ↦ 2
  | FieldType.dword ↦ 4
  | FieldType.blob ↦ f.param
  | FieldType.string_16 ↦ 2
  | FieldType.array_8 ↦ 1
  | FieldType.array_16 ↦ 2
  | FieldType.array_32 ↦ 4
  | FieldType.nested_struct ↦ 0
]

-- How many bytes of a message hold the element count of such a field.
unfoldable pub get_prefix_size : FieldType → ℕ
get_prefix_size FieldType.string_16 = 2
get_prefix_size FieldType.array_8 = 2
get_prefix_size FieldType.array_16 = 2
get_prefix_size FieldType.array_32 = 2
get_prefix_size FieldType.nested_struct = 1
get_prefix_size _ = 0

-- `field.type == TYPE_NESTED_STRUCT` and `field.type == TYPE_STRING_16`.
abbrev pub is_nested : FieldType → Bool
is_nested FieldType.nested_struct = true
is_nested _ = false

abbrev pub is_string : FieldType → Bool
is_string FieldType.string_16 = true
is_string _ = false
