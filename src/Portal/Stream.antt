-- ===== src/Portal/Stream.antt =====
-- code/portal/stream.c: words read off a byte stream and added to a buffer. A pointer with the length
-- behind it is the list of the bytes from there on; a reader gives the value and what is left, and
-- `none` stands for ERR_SSL_BAD_INPUT_DATA.
pub mod Words
mod Tests
use headquarter.Base.{
  ℕ, List, [], ◌∷◌, Option, none, some, Bool, length, take, drop, ltb, if◌then◌else◌, bit_or, u32,
  ◌<<<◌, Outcome, ok, refused, aborted, fault, or_fault, ◌>>=◌,
}
use headquarter.Common.Array.{Array, push, store}
use headquarter.Common.Endian.{be16dec, be32dec, be16enc}

unfoldable pub be24dec : List ℕ → Option ℕ
be24dec (p0 ∷ p1 ∷ p2 ∷ rest) = some (bit_or (bit_or (u32 (p0 <<< 16)) (p1 <<< 8)) p2)
be24dec _ = none

-- The readers: `size` bytes are checked, decoded and passed over.
unfoldable pub chk_stream_read8 : List ℕ → Outcome (Option (ℕ × List ℕ))
chk_stream_read8 [] = ok none
chk_stream_read8 (b ∷ data') = ok (some (b, data'))

unfoldable pub chk_stream_read16 : List ℕ → Outcome (Option (ℕ × List ℕ))
chk_stream_read16 data' =
    let decoded = (do out ← or_fault (be16dec data'); ok (some (out, drop 2 data'))) in
    if ltb (length data') 2 then ok none else decoded

unfoldable pub chk_stream_read32 : List ℕ → Outcome (Option (ℕ × List ℕ))
chk_stream_read32 data' =
    let decoded = (do out ← or_fault (be32dec data'); ok (some (out, drop 4 data'))) in
    if ltb (length data') 4 then ok none else decoded

unfoldable pub chk_stream_read : List ℕ → ℕ → Outcome (Option (List ℕ × List ℕ))
chk_stream_read data' out_len =
    if ltb (length data') out_len
    then ok none
    else ok (some (take out_len data', drop out_len data'))

-- `array_push` gives a null pointer when it fails, and the word is written through it all the same.
unfoldable pub pushed : Outcome (ℕ × Array ℕ) → Outcome (ℕ × Array ℕ)
pushed (ok room) = ok room
pushed refused = fault
pushed aborted = aborted
pushed fault = fault

unfoldable pub array_add_be_uint16 : Bool → Array ℕ → ℕ → Outcome (Array ℕ)
array_add_be_uint16 allocated buffer value = do
  (at, buffer') ← pushed (push 0 1 allocated buffer 2)
  bytes ← store buffer'.data' at (be16enc value)
  ok (record buffer' { data' = bytes })
