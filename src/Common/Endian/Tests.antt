-- ===== src/Common/Endian/Tests.antt =====
-- Sample words.
use headquarter.Base.{[], ◌∷◌, ◌++◌, some, ◌≡◌, arith}
use headquarter.Common.Endian.{be64enc, be64dec}
use headquarter.Common.Endian.RoundTrip.{be64dec-be64enc}

be64dec-be64enc_example : be64dec (be64enc 0x0123456789abcdef ++ 9 ∷ []) ≡ some 0x0123456789abcdef
be64dec-be64enc_example = be64dec-be64enc 0x0123456789abcdef (9 ∷ []) (ground arith)
