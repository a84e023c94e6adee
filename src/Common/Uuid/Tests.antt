-- ===== src/Common/Uuid/Tests.antt =====
-- A sample UUID.
use headquarter.Base.{[], ◌∷◌, ◌++◌, ◌≡◌, refl, some, arith}
use headquarter.Common.Uuid.{Uuid, uuid_enc_le, uuid_dec_le}
use headquarter.Common.Uuid.RoundTrip.{IsUuid, uuid_dec_le-uuid_enc_le}

abbrev sample : Uuid
sample = record {
  time_low = 0x12345678;
  time_mid = 0x9abc;
  time_hi_and_version = 0x4def;
  clock_seq_hi_and_reserved = 0x80;
  clock_seq_low = 1;
  node = 2 ∷ 3 ∷ 4 ∷ 5 ∷ 6 ∷ 7 ∷ [];
}

sample-IsUuid : IsUuid sample
sample-IsUuid = record { low = ground arith; mid = ground arith; hi = ground arith; six = refl }

uuid_dec_le-uuid_enc_le_example : uuid_dec_le (uuid_enc_le sample ++ 9 ∷ []) ≡ some sample
uuid_dec_le-uuid_enc_le_example = uuid_dec_le-uuid_enc_le sample (9 ∷ []) sample-IsUuid
