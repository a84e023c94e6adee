-- ===== src/Client/Arc4.antt =====
-- code/client/arc4.c and arc4.h: the stream cipher of a connection.
pub mod Table
pub mod Stream
pub mod Keystream
pub mod Schedule
mod Tests
use headquarter.Base.{ℕ, zero, suc, ◌+◌, List, [], ◌∷◌, Option, none, some, u8, bit_and, bit_xor}
use headquarter.Base.{length, get_elem?, get_or, set, leb, if◌then◌else◌}

-- `mbedtls_arc4_context`. `m` has 256 entries and every index into it is masked to a byte
-- (`Arc4.Table`), so the default of `get_or` is never read.
pub record Arc4 : Type 0 where
  pub x : ℕ
  pub y : ℕ
  pub m : List ℕ

-- `a = m[i]; m[i] = m[j]; m[j] = a;`
unfoldable pub swap : List ℕ → ℕ → ℕ → List ℕ
swap m i j = set (set m i (get_or m j 0)) j (get_or m i 0)

-- The entries from `i` on that the first loop of `mbedtls_arc4_setup` stores, `left` of them.
unfoldable pub identity : ℕ → ℕ → List ℕ
identity i zero = []
identity i (suc left) = u8 i ∷ identity (i + 1) left

-- The second loop, at index `i`; `none` is a read past the end of `key`.
module _ (key : List ℕ) (keylen : ℕ) where
  unfoldable pub mix : ℕ → ℕ → ℕ → ℕ → List ℕ → Option (List ℕ)
  unfolding swap
  mix zero i j k m = some m
  mix (suc left) i j k m =
      let k' = if leb keylen k then 0 else k in
      elim (get_elem? key k') [
        | none ↦ none
        | some b ↦
            let j' = bit_and (j + get_or m i 0 + b) 0xff in
            mix left (i + 1) j' (k' + 1) (swap m i j')
      ]

unfoldable pub setup : List ℕ → ℕ → Option Arc4
unfolding identity mix
setup key keylen = elim (mix key keylen 256 0 0 0 (identity 0 256)) [
  | none ↦ none
  | some m ↦ some (record { x = 0; y = 0; m = m })
]

-- One round of `mbedtls_arc4_crypt`: the context after it, and `output[i]`.
unfoldable pub crypt_byte : Arc4 → ℕ → Arc4 × ℕ
unfolding swap
crypt_byte ctx input =
    let x = bit_and (ctx.x + 1) 0xff in
    let a = get_or ctx.m x 0 in
    let y = bit_and (ctx.y + a) 0xff in
    let b = get_or ctx.m y 0 in
    let m = swap ctx.m x y in
    (record { x = x; y = y; m = m }, bit_xor input (get_or m (u8 (a + b)) 0))

unfoldable pub crypt : Arc4 → List ℕ → Arc4 × List ℕ
crypt ctx [] = (ctx, [])
crypt ctx (input ∷ rest) =
    let (next, output) = crypt_byte ctx input in
    let (last, outputs) = crypt next rest in (last, output ∷ outputs)
