-- ===== src/Client/Network/Pack/Encodes.antt =====
-- An encoder that writes given bytes if they fit and refuses otherwise, and how the loops of
-- `pack` put such encoders together.
use headquarter.Base.{ℕ, ◌-◌, ◌≤◌, ◌≡◌, arith, List, [], ◌∷◌, ◌++◌, length, drop}
use headquarter.Base.{leb, if◌then◌else◌, Outcome, ok, refused, length-append}
use headquarter.Client.Network.Message.{join_map, Elements}
use headquarter.Client.Network.Pack.{Encoder, continue, repeat}

abbrev pub if_room : List ℕ → ℕ → Outcome (List ℕ)
if_room w room = if leb (length w) room then ok w else refused

pub if_room-within : (w : List ℕ) (room : ℕ) → length w ≤ room → if_room w room ≡ ok w
if_room-within w room fits = ground arith

abbrev pub Encodes : Encoder → List ℕ → List ℕ → Type 0
Encodes e struct w = (room : ℕ) → e struct room ≡ if_room w room

pub continue-Encodes :
    (next : Encoder) (bytes w struct : List ℕ) (room : ℕ)
    → length bytes ≤ room
    → Encodes next struct w
    → continue bytes next struct room ≡ if_room (bytes ++ w) room
unfolding continue
continue-Encodes next bytes w struct room fits enc =
    ground (arith, enc (room - length bytes), length-append bytes w)

-- Elements `size` bytes apart.
pub repeat-Encodes :
    {M : Type 0} (element : Encoder) (enc : M → List ℕ) (P : M → List ℕ → Type 0) (size : ℕ)
    → ((m : M) (s : List ℕ) → P m s → Encodes element s (enc m))
    → (ms : List M) (s : List ℕ) → Elements P size ms s
    → Encodes (repeat element size (length ms)) s (join_map enc ms)
unfolding repeat
repeat-Encodes element enc P size each [] s h room = ground arith
repeat-Encodes element enc P size each (m ∷ ms) s h room = ground (
  arith,
  each m s h.0 room,
  length-append (enc m) (join_map enc ms),
  continue-Encodes (repeat element size (length ms)) (enc m) (join_map enc ms) (drop size s) room,
  repeat-Encodes element enc P size each ms (drop size s) h.1,
)
