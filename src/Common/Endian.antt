-- ===== src/Common/Endian.antt =====
-- code/common/endian.h: words as bytes, most or least significant byte first. An encoder gives the
-- bytes that it stores from `p[0]` on; a decoder reads from the start of a buffer, and `none` is a
-- read past its end.
pub mod RoundTrip
mod Tests
use headquarter.Base.{ℕ, ◌+◌, ◌/◌, ◌%◌, ◌^◌, ◌*◌, ◌<<<◌, ◌>>>◌, bit_and, bit_or, u16, u32, u64}
use headquarter.Base.{List, [], ◌∷◌, ◌++◌, Option, none, some, drop}

-- `p[0] << 8 | p[1]`, and so on; the left operand of an outer `|` is the inner `|`.
pub join16 : ℕ → ℕ → ℕ
join16 hi lo = u16 (bit_or (hi <<< 8) lo)

pub join32 : ℕ → ℕ → ℕ → ℕ → ℕ
join32 a b c d = u32 (bit_or (bit_or (bit_or (u32 (a <<< 24)) (b <<< 16)) (c <<< 8)) d)

pub join64 : ℕ → ℕ → ℕ
join64 hi lo = u64 (bit_or (u64 (hi <<< 32)) lo)

unfoldable pub be16dec : List ℕ → Option ℕ
unfolding join16
be16dec (p0 ∷ p1 ∷ rest) = some (join16 p0 p1)
be16dec _ = none

unfoldable pub be32dec : List ℕ → Option ℕ
unfolding join32
be32dec (p0 ∷ p1 ∷ p2 ∷ p3 ∷ rest) = some (join32 p0 p1 p2 p3)
be32dec _ = none

both64 : Option ℕ → Option ℕ → Option ℕ
unfolding join64
both64 (some hi) (some lo) = some (join64 hi lo)
both64 _ _ = none

unfoldable pub be64dec : List ℕ → Option ℕ
unfolding be32dec both64
be64dec p = both64 (be32dec p) (be32dec (drop 4 p))

unfoldable pub le16dec : List ℕ → Option ℕ
unfolding join16
le16dec (p0 ∷ p1 ∷ rest) = some (join16 p1 p0)
le16dec _ = none

unfoldable pub le32dec : List ℕ → Option ℕ
unfolding join32
le32dec (p0 ∷ p1 ∷ p2 ∷ p3 ∷ rest) = some (join32 p3 p2 p1 p0)
le32dec _ = none

unfoldable pub le64dec : List ℕ → Option ℕ
unfolding le32dec both64
le64dec p = both64 (le32dec (drop 4 p)) (le32dec p)

unfoldable pub be16enc : ℕ → List ℕ
be16enc u = bit_and (u >>> 8) 0xff ∷ bit_and u 0xff ∷ []

unfoldable pub be32enc : ℕ → List ℕ
be32enc u =
    bit_and (u >>> 24) 0xff ∷ bit_and (u >>> 16) 0xff ∷ bit_and (u >>> 8) 0xff ∷ bit_and u 0xff ∷ []

unfoldable pub be64enc : ℕ → List ℕ
unfolding be32enc
be64enc u = be32enc (u32 (u >>> 32)) ++ be32enc (u32 (bit_and u 0xffffffff))

unfoldable pub le16enc : ℕ → List ℕ
le16enc u = bit_and u 0xff ∷ bit_and (u >>> 8) 0xff ∷ []

unfoldable pub le32enc : ℕ → List ℕ
le32enc u =
    bit_and u 0xff ∷ bit_and (u >>> 8) 0xff ∷ bit_and (u >>> 16) 0xff ∷ bit_and (u >>> 24) 0xff ∷ []

unfoldable pub le64enc : ℕ → List ℕ
unfolding le32enc
le64enc u = le32enc (u32 (bit_and u 0xffffffff)) ++ le32enc (u32 (u >>> 32))
