-- ===== src/Common/Endian/RoundTrip.antt =====
-- The codecs of code/common/endian.h as arithmetic, and their round trips.
use headquarter.Base.{reverse, ℕ, ◌+◌, ◌*◌, ◌/◌, ◌%◌, ◌^◌, ◌<◌, ◌≡◌, refl, ap, ap₂, ◌∙◌, arith}
use headquarter.Base.{List, [], ◌∷◌, ◌++◌, some, bit_and, bit_or, u32, u64}
use headquarter.Base.{◌<<<◌, ◌>>>◌, bit_or_fields, bit_and_mask}
use headquarter.Common.Endian.{join16, join32, join64}
use headquarter.Common.Endian.{be16dec, be32dec, be64dec, le16dec, le32dec, le64dec}
use headquarter.Common.Endian.{be16enc, be32enc, be64enc, le16enc, le32enc, le64enc}

abbrev pub IsByte : ℕ → Type 0
IsByte b = b < 256

pub byte_of : (x : ℕ) → bit_and x 0xff ≡ x % 256
byte_of x = bit_and_mask 8 x

pub join16_sum : (hi lo : ℕ) → IsByte hi → IsByte lo → join16 hi lo ≡ hi * 256 + lo
unfolding join16
join16_sum hi lo p q = omega (arith, bit_or_fields 8 hi lo q)

-- A field joined below one that is already a sum.
pub or_sum : (k x q r : ℕ) → x ≡ q * 2 ^ k → r < 2 ^ k → bit_or x r ≡ x + r
or_sum k x q r e h = rw e (bit_or_fields k q r h)

pub join32_sum :
    (a b c d : ℕ)
    → IsByte a
    → IsByte b
    → IsByte c
    → IsByte d
    → join32 a b c d ≡ a * 16777216 + b * 65536 + c * 256 + d
unfolding join32
join32_sum a b c d pa pb pc pd =
    rw
      (
        first,
        or_sum 24 (a * 16777216) a (b * 65536) (omega arith) (omega arith),
        or_sum 16 (a * 16777216 + b * 65536) (a * 256 + b) (c * 256) (omega arith) (omega arith),
        or_sum 8 (a * 16777216 + b * 65536 + c * 256) (a * 65536 + b * 256 + c) d (omega arith) pd,
      )
      (omega arith)
  where
    first : u32 (a <<< 24) ≡ a * 16777216
    first = omega arith

pub join64_sum : (hi lo : ℕ) → hi < 2 ^ 32 → lo < 2 ^ 32 → join64 hi lo ≡ hi * 2 ^ 32 + lo
unfolding join64
join64_sum hi lo p q = rw (first, bit_or_fields 32 hi lo q) (omega arith)
  where
    first : u64 (hi <<< 32) ≡ hi * 2 ^ 32
    first = omega arith

-- The bytes of an encoder, without masks.
be16enc_bytes : (u : ℕ) → be16enc u ≡ u / 256 % 256 ∷ u % 256 ∷ []
unfolding be16enc
be16enc_bytes u = simp byte_of

be32enc_bytes :
    (u : ℕ) → be32enc u ≡ u / 16777216 % 256 ∷ u / 65536 % 256 ∷ u / 256 % 256 ∷ u % 256 ∷ []
unfolding be32enc
be32enc_bytes u = simp byte_of

pub le16enc_bytes : (u : ℕ) → le16enc u ≡ u % 256 ∷ u / 256 % 256 ∷ []
unfolding le16enc
le16enc_bytes u = simp byte_of

pub le32enc_bytes :
    (u : ℕ) → le32enc u ≡ u % 256 ∷ u / 256 % 256 ∷ u / 65536 % 256 ∷ u / 16777216 % 256 ∷ []
unfolding le32enc
le32enc_bytes u = simp byte_of

pub be16dec-be16enc : (u : ℕ) (rest : List ℕ) → u < 2 ^ 16 → be16dec (be16enc u ++ rest) ≡ some u
unfolding be16dec
be16dec-be16enc u rest h =
    rw (be16enc_bytes u)
      (ap some (join16_sum (u / 256 % 256) (u % 256) (omega arith) (omega arith) ∙ omega arith))

pub le16dec-le16enc : (u : ℕ) (rest : List ℕ) → u < 2 ^ 16 → le16dec (le16enc u ++ rest) ≡ some u
unfolding le16dec
le16dec-le16enc u rest h =
    rw (le16enc_bytes u)
      (ap some (join16_sum (u / 256 % 256) (u % 256) (omega arith) (omega arith) ∙ omega arith))

word_sum :
    (u : ℕ)
    → u < 2 ^ 32
    → join32 (u / 16777216 % 256) (u / 65536 % 256) (u / 256 % 256) (u % 256) ≡ u
word_sum u h =
    join32_sum (u / 16777216 % 256) (u / 65536 % 256) (u / 256 % 256) (u % 256) (omega arith)
      (omega arith) (omega arith) (omega arith)
    ∙ omega arith

-- A big-endian 32-bit word is read back as it was written, whatever follows it.
pub be32dec-be32enc : (u : ℕ) (rest : List ℕ) → u < 2 ^ 32 → be32dec (be32enc u ++ rest) ≡ some u
unfolding be32dec
be32dec-be32enc u rest h = rw (be32enc_bytes u) (ap some (word_sum u h))

-- A little-endian 32-bit word is read back as it was written, whatever follows it.
pub le32dec-le32enc : (u : ℕ) (rest : List ℕ) → u < 2 ^ 32 → le32dec (le32enc u ++ rest) ≡ some u
unfolding le32dec
le32dec-le32enc u rest h = rw (le32enc_bytes u) (ap some (word_sum u h))

masked_word :
    (w : ℕ)
    → w < 2 ^ 32
    → join32
        (bit_and (w >>> 24) 0xff)
        (bit_and (w >>> 16) 0xff)
        (bit_and (w >>> 8) 0xff)
        (bit_and w 0xff)
      ≡ w
masked_word w h = rw (byte_of, byte_of, byte_of, byte_of) (word_sum w h)

halves :
    (u : ℕ)
    → u < 2 ^ 64
    → join64
        (join32
          (bit_and (u32 (u >>> 32) >>> 24) 0xff)
          (bit_and (u32 (u >>> 32) >>> 16) 0xff)
          (bit_and (u32 (u >>> 32) >>> 8) 0xff)
          (bit_and (u32 (u >>> 32)) 0xff))
        (join32
          (bit_and (u32 (bit_and u 0xffffffff) >>> 24) 0xff)
          (bit_and (u32 (bit_and u 0xffffffff) >>> 16) 0xff)
          (bit_and (u32 (bit_and u 0xffffffff) >>> 8) 0xff)
          (bit_and (u32 (bit_and u 0xffffffff)) 0xff))
      ≡ u
halves u h =
    ap₂ join64 (masked_word (u32 (u >>> 32)) (omega arith))
      (masked_word (u32 (bit_and u 0xffffffff)) (omega arith))
    ∙ join64_sum (u32 (u >>> 32)) (u32 (bit_and u 0xffffffff)) (omega arith) (omega arith)
    ∙ omega (arith, bit_and_mask 32 u)

-- A big-endian 64-bit word is read back as it was written, whatever follows it.
pub be64dec-be64enc : (u : ℕ) (rest : List ℕ) → u < 2 ^ 64 → be64dec (be64enc u ++ rest) ≡ some u
unfolding be64dec be64enc
be64dec-be64enc u rest h = ap some (halves u h)

-- A little-endian 64-bit word is read back as it was written, whatever follows it.
pub le64dec-le64enc : (u : ℕ) (rest : List ℕ) → u < 2 ^ 64 → le64dec (le64enc u ++ rest) ≡ some u
unfolding le64dec le64enc
le64dec-le64enc u rest h = ap some (halves u h)

-- The two byte orders of a 64-bit word are each other's reverse.
pub le64enc-reverse : (u : ℕ) → reverse (be64enc u) ≡ le64enc u
unfolding be64enc le64enc be32enc le32enc
le64enc-reverse u = refl
