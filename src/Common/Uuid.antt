-- ===== src/Common/Uuid.antt =====
-- code/common/uuid.h: the codecs of a UUID in both byte orders. An encoder gives the 16 bytes that it
-- stores; a decoder reads them from the start of a buffer, and `none` is a read past its end.
pub mod RoundTrip
mod Tests
use headquarter.Base.{
  ℕ, List, [], ◌∷◌, ◌++◌, Option, none, some, length, take, drop, get_elem?, leb, if◌then◌else◌,
}
use headquarter.Common.Endian.{
  le16enc, le16dec, le32enc, le32dec, be16enc, be16dec, be32enc, be32dec,
}

-- `UUID_NODE_LEN`
abbrev pub uuid_node_len : ℕ
uuid_node_len = 6

-- `struct uuid`; `node` has `uuid_node_len` bytes.
pub record Uuid : Type 0 where
  pub time_low : ℕ
  pub time_mid : ℕ
  pub time_hi_and_version : ℕ
  pub clock_seq_hi_and_reserved : ℕ
  pub clock_seq_low : ℕ
  pub node : List ℕ

unfoldable pub uuid_enc_le : Uuid → List ℕ
uuid_enc_le u =
    le32enc u.time_low
    ++ (le16enc u.time_mid
        ++ (le16enc u.time_hi_and_version
            ++ (u.clock_seq_hi_and_reserved ∷ u.clock_seq_low ∷ u.node)))

unfoldable pub uuid_enc_be : Uuid → List ℕ
uuid_enc_be u =
    be32enc u.time_low
    ++ (be16enc u.time_mid
        ++ (be16enc u.time_hi_and_version
            ++ (u.clock_seq_hi_and_reserved ∷ u.clock_seq_low ∷ u.node)))

-- What the two decoders share: the words, in the byte order of the decoder, and the bytes.
unfoldable pub uuid_of : Option ℕ → Option ℕ → Option ℕ → List ℕ → Option Uuid
uuid_of (some low) (some mid) (some hi) (reserved ∷ seq ∷ rest) =
    if leb uuid_node_len (length rest)
    then some (record {
      time_low = low;
      time_mid = mid;
      time_hi_and_version = hi;
      clock_seq_hi_and_reserved = reserved;
      clock_seq_low = seq;
      node = take uuid_node_len rest;
    })
    else none
uuid_of _ _ _ _ = none

unfoldable pub uuid_dec_le : List ℕ → Option Uuid
unfolding uuid_of
uuid_dec_le b = uuid_of (le32dec b) (le16dec (drop 4 b)) (le16dec (drop 6 b)) (drop 8 b)

unfoldable pub uuid_dec_be : List ℕ → Option Uuid
unfolding uuid_of
uuid_dec_be b = uuid_of (be32dec b) (be16dec (drop 4 b)) (be16dec (drop 6 b)) (drop 8 b)
