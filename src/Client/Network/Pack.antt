-- ===== src/Client/Network/Pack.antt =====
-- `pack` of code/client/network.c: from the packed struct of a request to the bytes of a message.
-- The struct is the list of its bytes from `data + readed` on, `room` is `buff_size - written`,
-- which the checks keep from wrapping, and the result is what was written. A read past the end of
-- the struct is a fault.
pub mod Encodes
pub mod Field
pub mod Correct
pub mod Within
use headquarter.Base.{ℕ, zero, suc, ◌+◌, ◌-◌, ◌*◌, List, [], ◌∷◌, ◌++◌, none, some, map, u8, u16}
use headquarter.Base.{length, take, drop, ltb, leb, ◌==◌, if◌then◌else◌, ◌&&◌}
use headquarter.Base.{Outcome, ok, refused, aborted, fault, or_fault, ◌>>=◌}
use headquarter.Common.Endian.{le16enc, le32dec}
use headquarter.Client.Network.Fields.{FieldType, MsgField, get_element_size, get_prefix_size}
use headquarter.Client.Network.Fields.{is_nested, is_string}
use headquarter.Client.Network.Buffer.{read_bytes}

-- How many UTF-16 units, two bytes each, come before a zero one, `n` at most.
unfoldable pub unicode16_len : List ℕ → ℕ → Outcome ℕ
unicode16_len s zero = ok 0
unicode16_len [] (suc n) = fault
unicode16_len (lo ∷ []) (suc n) = fault
unicode16_len (lo ∷ hi ∷ s) (suc n) =
    let rest = (do i ← unicode16_len s n; ok (suc i)) in
    if (lo == 0) && (hi == 0) then ok 0 else rest

-- `packed_elem_count`, and how far reading it moves `rpos`.
unfoldable pub read_length : MsgField → List ℕ → Outcome (ℕ × ℕ)
read_length f struct = if is_string f.type then text else array
  where
    text : Outcome (ℕ × ℕ)
    text = do n ← unicode16_len struct f.param; ok (n, 0)

    array : Outcome (ℕ × ℕ)
    array = do n ← or_fault (le32dec struct); ok (n, 4)

-- The bytes of the count, once its assertions hold.
unfoldable pub encode_count : MsgField → ℕ → Outcome (List ℕ)
encode_count f n =
    if leb n f.param
    then if get_prefix_size f.type == 1
      then if leb n 255 then ok (u8 n ∷ []) else aborted
      else if leb n 0xffff
      then ok (le16enc (u16 n))
      else aborted
    else aborted

-- The counts of a field, the bytes read and written for them.
pub record Head : Type 0 where
  pub packed : ℕ
  pub static : ℕ
  pub readed : ℕ
  pub prefix : List ℕ

unfoldable pub pack_counted : MsgField → List ℕ → Outcome Head
pack_counted f struct = do
  (n, r) ← read_length f struct
  prefix ← encode_count f n
  ok (record { packed = n; static = f.param; readed = r; prefix = prefix })

unfoldable pub pack_prefix : MsgField → List ℕ → ℕ → Outcome Head
pack_prefix f struct room =
    if get_prefix_size f.type == 0
    then ok (record { packed = 1; static = 1; readed = 0; prefix = [] })
    else if ltb room (get_prefix_size f.type)
    then refused
    else pack_counted f struct

abbrev pub Encoder : Type 0
Encoder = List ℕ → ℕ → Outcome (List ℕ)

-- What `next` writes behind `bytes`.
unfoldable pub continue : List ℕ → Encoder → Encoder
continue bytes next struct room = do rest ← next struct (room - length bytes); ok (bytes ++ rest)

-- The elements of a nested struct, `size` bytes apart.
unfoldable pub repeat : Encoder → ℕ → ℕ → Encoder
repeat element size zero struct room = ok []
repeat element size (suc left) struct room = do
  bytes ← element struct room
  continue bytes (repeat element size left) (drop size struct) room

unfoldable pub pack_elements : Encoder → MsgField → Head → Encoder
pack_elements next f h struct room =
    let elem_size = get_element_size f in
    let rpos = drop h.readed struct in
    let copied = (do
      bytes ← read_bytes rpos (elem_size * h.packed)
      continue (h.prefix ++ bytes) next (drop (h.static * elem_size) rpos) room) in
    if ltb (room - length h.prefix) (elem_size * h.packed) then refused else copied

-- `assert(i + 1 < fields_count)`
unfoldable pub pack_structs : MsgField → List MsgField → Encoder → Head → Encoder
pack_structs f [] element h struct room = aborted
pack_structs f (g ∷ fields) element h struct room =
    continue h.prefix (repeat element f.size h.packed) (drop h.readed struct) room

unfoldable pub pack_field : MsgField → List MsgField → Encoder → Encoder
pack_field f rest next struct room = do
  h ← pack_prefix f struct room
  if is_nested f.type
      then pack_structs f rest next h struct room
      else pack_elements next f h struct room

-- The result stands for `written` and the bytes at `buffer`.
unfoldable pub pack : List MsgField → Encoder
pack [] struct room = ok []
pack (f ∷ rest) struct room = pack_field f rest (pack rest) struct room
