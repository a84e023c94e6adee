-- ===== src/Client/Network/Unpack.antt =====
-- `unpack` of code/client/network.c: from the bytes of a connection to the packed struct of a
-- handler. A pair of a pointer and the size left behind it is the list of the bytes that are
-- still ahead, for the input and for the struct alike; the offsets `readed` and `written` of a
-- field are counted from there. Every `int` and `size_t` involved stays below 2 ^ 31, since both
-- buffers do.
pub mod Stable
pub mod Field
pub mod Elements
pub mod Structs
pub mod Correct
use headquarter.Base.{
  ℕ, zero, suc, ◌+◌, ◌-◌, ◌*◌, ◌%◌, ◌^◌, List, [], ◌∷◌, ◌++◌, Option, none, some,
}
use headquarter.Base.{length, take, drop, min, u32, ltb, leb, ◌==◌, if◌then◌else◌}
use headquarter.Base.{Outcome, ok, refused, aborted, fault, or_fault, ◌>>=◌}
use headquarter.Common.Endian.{le16dec, le32enc}
use headquarter.Client.Network.Fields.{
  FieldType, MsgField, get_element_size, get_prefix_size, is_nested, is_string,
}
use headquarter.Client.Network.Buffer.{write_at}

-- Where a field stands once its count is known: `packed_elem_count`, `static_elem_count`, the bytes
-- read and written for the count, and the struct.
pub record Head : Type 0 where
  pub packed : ℕ
  pub static : ℕ
  pub readed : ℕ
  pub written : ℕ
  pub struct : List ℕ

-- The count in front of an array; the caller has checked that its bytes are there.
unfoldable pub read_count : ℕ → List ℕ → Outcome ℕ
unfolding le16dec
read_count (suc zero) (b ∷ data') = ok b
read_count (suc (suc zero)) data' = or_fault (le16dec data')
read_count _ _ = fault

-- `MIN(field.param - 1, (uint32_t)packed_elem_count)`
unfoldable pub string_end : MsgField → ℕ → ℕ
string_end f n = min (u32 (f.param + 2 ^ 32 - 1)) n

-- The terminator of a string, or the count of an array, and how far this moves `wpos`.
unfoldable pub write_count : MsgField → ℕ → List ℕ → Outcome (ℕ × List ℕ)
write_count f n struct = if is_string f.type then terminated else counted
  where
    terminated : Outcome (ℕ × List ℕ)
    terminated = do struct' ← write_at struct (2 * string_end f n) (0 ∷ 0 ∷ []); ok (0, struct')

    counted : Outcome (ℕ × List ℕ)
    counted = do struct' ← write_at struct 0 (le32enc n); ok (4, struct')

unfoldable pub read_counted : MsgField → List ℕ → List ℕ → Outcome Head
read_counted f bytes struct = do
  n ← read_count (get_prefix_size f.type) bytes
  (w, struct') ← (if leb n f.param then write_count f n struct else aborted)
  ok (record {
    packed = n;
    static = f.param;
    readed = get_prefix_size f.type;
    written = w;
    struct = struct';
  })

-- Scalars have no count: there is one element.
unfoldable pub read_prefix : MsgField → List ℕ → List ℕ → Outcome Head
read_prefix f bytes struct =
    if get_prefix_size f.type == 0
    then ok (record { packed = 1; static = 1; readed = 0; written = 0; struct = struct })
    else if ltb (length bytes) (get_prefix_size f.type)
    then refused
    else read_counted f bytes struct

-- Decoding from `data + readed` into `buffer + written` gives the bytes read and the struct.
abbrev pub Decoder : Type 0
Decoder = List ℕ → List ℕ → Outcome (ℕ × List ℕ)

-- What comes after `r` bytes of the input and `w` bytes of the struct, by `next`.
unfoldable pub continue : Decoder → ℕ → ℕ → Decoder
continue next r w bytes struct = do
  (r', tail) ← next (drop r bytes) (drop w struct)
  ok (r + r', take w struct ++ tail)

-- The loop over the elements of a nested struct: both cursors move by the bytes read.
unfoldable pub repeat : Decoder → ℕ → Decoder
repeat element zero bytes struct = ok (0, struct)
repeat element (suc left) bytes struct = do
  (r, struct') ← element bytes struct
  continue (repeat element left) r r bytes struct'

-- A field that is no nested struct: its elements are copied, and `wpos` moves past the room of
-- `static_elem_count` of them.
unfoldable pub read_elements : Decoder → MsgField → Head → List ℕ → Outcome (ℕ × List ℕ)
read_elements next f h bytes =
    let elem_size = get_element_size f in
    let bytes_to_read = elem_size * h.packed in
    let rpos = drop h.readed bytes in
    let copied = do
      struct ← write_at h.struct h.written (take bytes_to_read rpos)
      continue next (h.readed + bytes_to_read) (h.written + h.static * elem_size) bytes struct
    in if ltb (length rpos) bytes_to_read then refused else copied

-- `assert(i + 1 < fields_count)`
unfoldable pub read_structs : List MsgField → Decoder → Head → List ℕ → Outcome (ℕ × List ℕ)
read_structs [] element h bytes = aborted
read_structs (f ∷ fields) element h bytes =
    continue (repeat element h.packed) h.readed h.written bytes h.struct

-- `next` decodes the fields behind `f`; for a nested struct they are those of its element.
unfoldable pub read_field : MsgField → List MsgField → Decoder → Decoder
read_field f rest next bytes struct = do
  h ← read_prefix f bytes struct
  if is_nested f.type then read_structs rest next h bytes else read_elements next f h bytes

-- The result is the number of bytes read, and the struct. (The closing assertion of the source
-- compares `readed` with the input's length.)
unfoldable pub unpack : List MsgField → Decoder
unfolding read_field
unpack [] bytes struct = ok (0, struct)
unpack (f ∷ rest) bytes struct = read_field f rest (unpack rest) bytes struct
