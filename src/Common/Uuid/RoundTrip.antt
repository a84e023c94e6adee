-- ===== src/Common/Uuid/RoundTrip.antt =====
-- Decoding what was encoded.
use headquarter.Base.{true, ℕ, ◌^◌, ◌<◌, ◌≡◌, refl, sym, arith, List, ◌∷◌, ◌++◌, some}
use headquarter.Base.{length, leb, length-append, take-append}
use headquarter.Common.Endian.{le16enc, le32enc, be16enc, be32enc}
use headquarter.Common.Endian.RoundTrip.{
  le32dec-le32enc, le16dec-le16enc, be32dec-be32enc, be16dec-be16enc,
}
use headquarter.Common.Uuid.{
  Uuid, uuid_enc_le, uuid_enc_be, uuid_dec_le, uuid_dec_be, uuid_of, uuid_node_len,
}

-- Words of their widths, and a node of six bytes.
pub record IsUuid (u : Uuid) : Type 0 where
  pub low : u.time_low < 2 ^ 32
  pub mid : u.time_mid < 2 ^ 16
  pub hi : u.time_hi_and_version < 2 ^ 16
  pub six : length u.node ≡ uuid_node_len

uuid_of-fields :
    (u : Uuid) (rest : List ℕ)
    → IsUuid u
    → uuid_of
        (some u.time_low)
        (some u.time_mid)
        (some u.time_hi_and_version)
        (u.clock_seq_hi_and_reserved ∷ u.clock_seq_low ∷ (u.node ++ rest))
      ≡ some u
unfolding uuid_of
uuid_of-fields u rest valid =
    let enough : leb 6 (length (u.node ++ rest)) ≡ true =
      ground (arith, length-append u.node rest, valid.six) in
    rw (enough, take-append 6 u.node rest (sym valid.six)) refl

-- A UUID is read back as it was written, whatever follows it: little-endian.
pub uuid_dec_le-uuid_enc_le :
    (u : Uuid) (rest : List ℕ) → IsUuid u → uuid_dec_le (uuid_enc_le u ++ rest) ≡ some u
unfolding uuid_enc_le le32enc le16enc
uuid_dec_le-uuid_enc_le u rest valid =
    let tail = u.clock_seq_hi_and_reserved ∷ u.clock_seq_low ∷ (u.node ++ rest) in
    let hi = le16enc u.time_hi_and_version ++ tail in
    let mid = le16enc u.time_mid ++ hi in
    unfold uuid_dec_le in
    rw
      (
        le32dec-le32enc u.time_low mid valid.low,
        le16dec-le16enc u.time_mid hi valid.mid,
        le16dec-le16enc u.time_hi_and_version tail valid.hi,
      )
      (uuid_of-fields u rest valid)

-- A UUID is read back as it was written, whatever follows it: big-endian.
pub uuid_dec_be-uuid_enc_be :
    (u : Uuid) (rest : List ℕ) → IsUuid u → uuid_dec_be (uuid_enc_be u ++ rest) ≡ some u
unfolding uuid_enc_be be32enc be16enc
uuid_dec_be-uuid_enc_be u rest valid =
    let tail = u.clock_seq_hi_and_reserved ∷ u.clock_seq_low ∷ (u.node ++ rest) in
    let hi = be16enc u.time_hi_and_version ++ tail in
    let mid = be16enc u.time_mid ++ hi in
    unfold uuid_dec_be in
    rw
      (
        be32dec-be32enc u.time_low mid valid.low,
        be16dec-be16enc u.time_mid hi valid.mid,
        be16dec-be16enc u.time_hi_and_version tail valid.hi,
      )
      (uuid_of-fields u rest valid)
