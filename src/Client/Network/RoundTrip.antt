-- ===== src/Client/Network/RoundTrip.antt =====
-- `pack` and `unpack` against each other.
use headquarter.Base.{ℕ, ◌≤◌, ◌≡◌, List, ◌++◌, length, ok}
use headquarter.Client.Network.Fields.{MsgField}
use headquarter.Client.Network.Message.{Message, wire, IsMessage, Holds}
use headquarter.Client.Network.Pack.{pack}
use headquarter.Client.Network.Pack.Encodes.{if_room-within}
use headquarter.Client.Network.Pack.Correct.{pack-wire}
use headquarter.Client.Network.Unpack.{unpack}
use headquarter.Client.Network.Unpack.Structs.{struct_size}
use headquarter.Client.Network.Unpack.Correct.{IsLayout, unpack-wire}

-- For a format that satisfies `IsLayout` and a struct that holds a valid message whose bytes fit in
-- the room: `pack` succeeds; `unpack` reads exactly the bytes it wrote, whatever follows them, into
-- any struct that is large enough; that struct holds the same message; and packing it again gives
-- the same bytes.
pub unpack-pack :
    (fields : List MsgField) (m : Message fields) (s more struct : List ℕ) (room : ℕ)
    → IsLayout fields
    → IsMessage fields m
    → Holds fields m s
    → length (wire fields m) ≤ room
    → struct_size fields ≤ length struct
    → (bytes : List ℕ) × (pack fields s room ≡ ok bytes)
      × ((out : List ℕ) × (unpack fields (bytes ++ more) struct ≡ ok (length bytes, out))
          × Holds fields m out
          × (pack fields out room ≡ ok bytes))
unpack-pack fields m s more struct room layout valid holds fits large =
    let (out, read, same) = unpack-wire fields m more struct layout valid large in
    (wire fields m, packed s holds, (out, read, same, packed out same))
  where
    packed : (t : List ℕ) → Holds fields m t → pack fields t room ≡ ok (wire fields m)
    packed t h = rw (pack-wire fields m t room valid h) (if_room-within (wire fields m) room fits)
