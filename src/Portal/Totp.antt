-- ===== src/Portal/Totp.antt =====
-- code/portal/totp.c: base 32, HMAC and one-time passwords. SHA-1 is a library's and a parameter, a
-- function from bytes to bytes; the clock is an argument. The bytes of a decoded text are a list: the
-- array that they are added to is taken to grow.
pub mod Base32
pub mod Spec
pub mod Code
mod Tests
use headquarter.Base.{
  ℕ, ◌+◌, ◌-◌, ◌*◌, ◌/◌, ◌%◌, ◌^◌, List, [], ◌∷◌, ◌++◌, map, replicate, take, length, Bool, true,
  false, ◌&&◌, ◌==◌, ltb, leb, if◌then◌else◌, Option, none, some, get_elem?, bit_and, bit_or,
  bit_xor, u8, u32, ◌<<<◌, ◌>>>◌, Outcome, ok, or_fault, ◌>>=◌,
}
use headquarter.Common.Endian.{be64enc}

-- The five bits that a letter or a digit stands for.
unfoldable pub b32_value : ℕ → Option ℕ
b32_value ch =
    if leb 65 ch && leb ch 90
    then some (ch - 65)
    else if leb 97 ch && leb ch 122
    then some (ch - 97)
    else if leb 50 ch && leb ch 55
    then some (ch - 50 + 26)
    else none

abbrev pub all_padding : List ℕ → Bool
all_padding [] = true
all_padding (ch ∷ input) = let rest = all_padding input in if ch == 61 then rest else false

-- The loop of b32decode: whether the text is one, and the bytes that are added to `result`.
unfoldable pub b32_loop : ℕ → ℕ → List ℕ → Bool × List ℕ
b32_loop tmp left [] = (true, [])
b32_loop tmp left (ch ∷ input) =
    let with_value : ℕ → Bool × List ℕ = λ v.
      (let t = u32 (u32 (tmp <<< 5) + v) in
        let l = left + 5 in
        let full = leb 8 l in
        let rest =
          b32_loop (if full then bit_and t 0xFF else t) (if full then l - 8 else l) input in
        (rest.0, if full then u8 (t >>> (l - 8)) ∷ rest.1 else rest.1)) in
    let value : Bool × List ℕ = elim (b32_value ch) [
      | none ↦ (false, [])
      | some v ↦ with_value v
    ] in
    if ch == 61 then (all_padding input, []) else value

unfoldable pub b32decode : List ℕ → Bool × List ℕ
b32decode input = b32_loop 0 0 input

-- `MOD_TABLE`, whose last entry is UINT32_MAX.
abbrev pub mod_table : List ℕ
mod_table =
    1 ∷ 10 ∷ 100 ∷ 1000 ∷ 10000 ∷ 100000 ∷ 1000000 ∷ 10000000 ∷ 100000000 ∷ 1000000000 ∷ 4294967295
    ∷ []

-- A number of digits that is no index of the table leaves the number as it is.
unfoldable pub shorten : ℕ → ℕ → ℕ
shorten digits number = elim (get_elem? mod_table digits) [ none ↦ number | some m ↦ number % m ]

abbrev pub join_code : ℕ → ℕ → ℕ → ℕ → ℕ
join_code m0 m1 m2 m3 =
    bit_or
      (bit_or (bit_or (bit_and m0 0x7F <<< 24) (bit_and m1 0xFF <<< 16)) (bit_and m2 0xFF <<< 8))
      (bit_and m3 0xFF)

-- The four bytes at the offset that the last byte of the code gives.
unfoldable pub truncate : List ℕ → Outcome ℕ
truncate mac = do
  last ← or_fault (get_elem? mac 19)
  let offset = bit_and last 0xf
  m0 ← or_fault (get_elem? mac offset)
  m1 ← or_fault (get_elem? mac (offset + 1))
  m2 ← or_fault (get_elem? mac (offset + 2))
  m3 ← or_fault (get_elem? mac (offset + 3))
  ok (join_code m0 m1 m2 m3)

module _ (sha1 : List ℕ → List ℕ) where
  unfoldable pub hmac_sha1 : List ℕ → List ℕ → List ℕ
  hmac_sha1 secret data' =
      let short = if leb (length secret) 64 then secret else sha1 secret in
      let key = short ++ replicate (64 - length short) 0 in
      let ipad = map (λ k. bit_xor 0x36 k) key in
      let opad = map (λ k. bit_xor 0x5C k) key in
      let stage1 = sha1 (ipad ++ data') in sha1 (opad ++ stage1)

  -- `none` when the secret is no base 32.
  unfoldable pub totp : ℕ → List ℕ → ℕ → Outcome (Option ℕ)
  unfolding shorten
  totp epoch_secs secret digits =
      let (decoded, bytes) = b32decode secret in
      let code = (do
        number ← truncate (hmac_sha1 bytes (be64enc (epoch_secs / 30)))
        ok (some (shorten digits number))) in
      if decoded then code else ok none
