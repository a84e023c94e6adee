-- ===== src/Portal/Stream/Tests.antt =====
-- Two of three bytes in use.
use headquarter.Base.{ℕ, ◌≡◌, refl, arith, [], ◌∷◌, ◌++◌, true, some, ok, drop}
use headquarter.Common.Array.{Array}
use headquarter.Common.Array.Grow.{IsValid, contents}
use headquarter.Common.Endian.{be16enc}
use headquarter.Portal.Stream.{array_add_be_uint16, chk_stream_read16}
use headquarter.Portal.Stream.Words.{chk_stream_read16-array_add_be_uint16}

abbrev buffer : Array ℕ
buffer = record { capacity = 3; size = 2; data' = 5 ∷ 6 ∷ 0 ∷ [] }

buffer-IsValid : IsValid buffer
buffer-IsValid = record { allocated = refl; inside = ground arith }

chk_stream_read16-array_add_be_uint16_example :
    (a' : Array ℕ) × (array_add_be_uint16 true buffer 0x1234 ≡ ok a')
    × IsValid a'
    × (contents a' ≡ contents buffer ++ be16enc 0x1234)
    × (chk_stream_read16 (drop buffer.size (contents a')) ≡ ok (some (0x1234, [])))
chk_stream_read16-array_add_be_uint16_example =
    chk_stream_read16-array_add_be_uint16 buffer 0x1234 buffer-IsValid (ground arith) (ground arith)
