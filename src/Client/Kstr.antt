-- ===== src/Client/Kstr.antt =====
-- code/client/kstr.c and kstr.h: texts of UTF-16 units with a capacity. `buffer` holds the units that
-- lie at the pointer of the text; a read or a write past them is a fault. A function that the source
-- gives a result `bool` and a text to change returns both.
pub mod Units
pub mod Compare
pub mod RoundTrip
pub mod Header
pub mod Ascii
mod Tests
use Prim.Native.Nat.{compare, Ordering}
use headquarter.Base.{
  ℕ, zero, suc, ◌+◌, ◌-◌, ◌^◌, List, [], ◌∷◌, ◌++◌, Bool, true, false, bit_and, u8,
}
use headquarter.Base.{length, take, drop, get_elem?, min, ltb, leb, ◌==◌, if◌then◌else◌, sub_size}
use headquarter.Base.{Outcome, ok, refused, aborted, fault, or_fault, ◌>>=◌}
use headquarter.Common.Endian.{le16enc}
use headquarter.Client.Network.Buffer.{read_bytes, write_at}

pub record Kstr : Type 0 where
  pub length' : ℕ
  pub capacity : ℕ
  pub buffer : List ℕ

-- `(size_t)-1`
abbrev pub npos : ℕ
npos = 2 ^ 64 - 1

-- The first index below `size` at which `stop` stands, from `i` on, or `size`.
unfoldable pub find_from : ℕ → List ℕ → ℕ → ℕ → Outcome ℕ
find_from stop src i zero = ok i
find_from stop [] i (suc left) = fault
find_from stop (u ∷ src) i (suc left) =
    let rest = find_from stop src (i + 1) left in if u == stop then ok i else rest

unfoldable pub u16len : List ℕ → ℕ → Outcome ℕ
unfolding find_from
u16len src size = find_from 0 src 0 size

abbrev pub kstr_init : List ℕ → ℕ → ℕ → Kstr
kstr_init buffer length' capacity = record {
  length' = length';
  capacity = capacity;
  buffer = buffer;
}

unfoldable pub kstr_find_codepoint : Kstr → ℕ → Outcome ℕ
unfolding find_from
kstr_find_codepoint str codepoint = do
  i ← find_from codepoint str.buffer 0 str.length'
  ok (if i == str.length' then npos else i)

unfoldable pub kstr_init_from_null_terminated : List ℕ → ℕ → Outcome Kstr
kstr_init_from_null_terminated buffer capacity = do
  let str = kstr_init buffer capacity capacity
  n ← kstr_find_codepoint str 0
  ok (if ltb n capacity then record str { length' = n } else str)

unfoldable pub kstr_copy : Kstr → Kstr → Outcome (Bool × Kstr)
kstr_copy dest src =
    let copied = (do
      units ← read_bytes src.buffer src.length'
      buffer ← write_at dest.buffer 0 units
      ok (true, record dest { length' = src.length'; buffer = buffer })) in
    if ltb dest.capacity src.length' then ok (false, dest) else copied

-- `memcmp`, of which only the sign counts.
unfoldable pub memcmp : List ℕ → List ℕ → Ordering
memcmp (a ∷ xs) (b ∷ ys) =
    let rest = memcmp xs ys in
    elim (compare a b) [
      | Ordering.lt ↦ Ordering.lt
      | Ordering.eq ↦ rest
      | Ordering.gt ↦ Ordering.gt
    ]
memcmp _ _ = Ordering.eq

-- The bytes of units in memory, least significant first.
unfoldable pub bytes_of : List ℕ → List ℕ
bytes_of [] = []
bytes_of (u ∷ us) = le16enc u ++ bytes_of us

unfoldable pub kstr_compare : Kstr → Kstr → Outcome Ordering
kstr_compare s1 s2 =
    let compared = (do
      a ← read_bytes s1.buffer s1.length'
      b ← read_bytes s2.buffer s1.length'
      ok (memcmp (bytes_of a) (bytes_of b))) in
    if ltb s1.length' s2.length'
    then ok Ordering.lt
    else if ltb s2.length' s1.length'
    then ok Ordering.gt
    else compared

-- The result shares the units of `str` behind `pos`.
unfoldable pub kstr_substr : Kstr → ℕ → ℕ → Kstr
kstr_substr str pos n =
    let pos' = if ltb str.length' pos then str.length' else pos in
    let n' = if ltb (str.length' - pos') n then str.length' - pos' else n in
    record { length' = n'; capacity = sub_size str.capacity pos'; buffer = drop pos' str.buffer }

unfoldable pub kstr_read : Kstr → List ℕ → ℕ → Outcome (Bool × Kstr)
kstr_read str src size = do
  let source = kstr_init src size size
  trim ← kstr_find_codepoint source 0
  kstr_copy str (if trim == npos then source else kstr_substr source 0 trim)

-- The result and the buffer after it; `size` is its length in the source.
unfoldable pub kstr_write : Kstr → List ℕ → ℕ → Outcome (Bool × List ℕ)
kstr_write str buffer size =
    let written = (do
      units ← read_bytes str.buffer str.length'
      buffer' ← write_at buffer 0 units
      buffer'' ← write_at buffer' str.length' (0 ∷ [])
      ok (true, buffer'')) in
    if leb size str.length' then ok (false, buffer) else written

-- The loop of `kstr_read_ascii` at index `i`: `false` at a byte that is not ASCII.
unfoldable pub read_ascii : List ℕ → ℕ → ℕ → List ℕ → Outcome (Bool × List ℕ)
read_ascii src i zero buffer = ok (true, buffer)
read_ascii [] i (suc left) buffer = fault
read_ascii (c ∷ src) i (suc left) buffer =
    let stored = (do buffer' ← write_at buffer i (c ∷ []); read_ascii src (i + 1) left buffer') in
    if bit_and c 0x80 == 0 then stored else ok (false, buffer)

-- `strnlen` is the search for a zero byte. The length is 0 until the whole text has been read.
unfoldable pub kstr_read_ascii : Kstr → List ℕ → ℕ → Outcome (Bool × Kstr)
unfolding find_from read_ascii
kstr_read_ascii str src size = do
  n ← find_from 0 src 0 size
  let reads = (do
    (done, buffer) ← read_ascii src 0 n str.buffer
    ok (done, record str { length' = if done then n else 0; buffer = buffer }))
  if ltb str.capacity n then ok (false, record str { length' = 0 }) else reads

-- The loop of `kstr_write_ascii`; `~0x7F` is the complement among the 16 bits of a unit.
unfoldable pub write_ascii : List ℕ → ℕ → ℕ → List ℕ → Outcome (Bool × List ℕ)
write_ascii units i zero buffer = ok (true, buffer)
write_ascii [] i (suc left) buffer = fault
write_ascii (u ∷ units) i (suc left) buffer =
    let stored = (do
      buffer' ← write_at buffer i (u8 (bit_and u 0x7f) ∷ [])
      write_ascii units (i + 1) left buffer') in
    if bit_and u 0xff80 == 0 then stored else ok (false, buffer)

unfoldable pub kstr_write_ascii : Kstr → List ℕ → ℕ → Outcome (Bool × List ℕ)
unfolding write_ascii
kstr_write_ascii str buffer size =
    let written = (do
      (done, buffer') ← write_ascii str.buffer 0 str.length' buffer
      let stopped : Outcome (Bool × List ℕ) = ok (false, buffer')
      let ended = (do buffer'' ← write_at buffer' str.length' (0 ∷ []); ok (true, buffer''))
      if done then ended else stopped) in
    if leb size str.length' then ok (false, buffer) else written
