-- ===== src/Client/Network/Message.antt =====
-- What a message means, apart from the two codecs of code/client/network.c: its values, its bytes
-- on the wire, and the structs of the handlers that hold it.
use headquarter.Base.{ℕ, zero, suc, ◌+◌, ◌-◌, ◌*◌, ◌≤◌, ◌<◌, ◌≡◌, ◌≢◌, Bool, true, false}
use headquarter.Base.{List, [], ◌∷◌, ◌++◌, length, drop, All, ◌==◌, if◌then◌else◌, u8}
use headquarter.Common.Endian.{le16enc, le32enc}
use headquarter.Client.Network.Fields.{MsgField, get_element_size, get_prefix_size}
use headquarter.Client.Network.Fields.{is_nested, is_string}

-- A value is its elements, each the bytes of one; a scalar has a single element.
abbrev pub Value : Type 0
Value = List (List ℕ)

abbrev pub Body : Bool → Type 0 → Type 0
Body true M = List M
Body false M = Value × M

-- A message of the given fields. The fields behind a nested struct are those of its elements.
abbrev pub Message : List MsgField → Type 0
Message [] = Unit
Message (f ∷ rest) = Body (is_nested f.type) (Message rest)

abbrev pub join : Value → List ℕ
join [] = []
join (e ∷ es) = e ++ join es

-- The count in front of a field, on the wire and in a struct.
unfoldable pub wire_count : ℕ → ℕ → List ℕ
wire_count zero n = []
wire_count (suc zero) n = u8 n ∷ []
wire_count (suc (suc p)) n = le16enc n

unfoldable pub has_count : MsgField → Bool
has_count f =
    if get_prefix_size f.type == 0 then false else (if is_string f.type then false else true)

unfoldable pub struct_count : MsgField → ℕ → List ℕ
unfolding has_count
struct_count f n = if has_count f then le32enc n else []

-- How many elements a struct has room for.
unfoldable pub static_count : MsgField → ℕ
static_count f = if get_prefix_size f.type == 0 then 1 else f.param

abbrev pub join_map {ℓ} : {A : Type ℓ} → (A → List ℕ) → List A → List ℕ
join_map w [] = []
join_map w (m ∷ ms) = w m ++ join_map w ms

abbrev pub wire_body : (b : Bool) {M : Type 0} → MsgField → (M → List ℕ) → Body b M → List ℕ
wire_body true f next ms = wire_count (get_prefix_size f.type) (length ms) ++ join_map next ms
wire_body false f next (v, m) = wire_count (get_prefix_size f.type) (length v) ++ (join v ++ next m)

-- The bytes of a message.
abbrev pub wire : (fields : List MsgField) → Message fields → List ℕ
wire [] m = []
wire (f ∷ rest) m = wire_body (is_nested f.type) f (wire rest) m

-- A unit of a UTF-16 text that does not end it.
abbrev pub IsUnit : List ℕ → Type 0
IsUnit [] = Unit
IsUnit (lo ∷ []) = Unit
IsUnit (lo ∷ hi ∷ more) = 0 < lo + hi

-- A value fits its field: elements of the field's size, one for a scalar and at most `param` and
-- 65535 otherwise, with no zero unit in a text.
pub record IsValue (f : MsgField) (v : Value) : Type 0 where
  pub sized : All (λ e. length e ≡ get_element_size f) v
  pub scalar : get_prefix_size f.type ≡ 0 → length v ≡ 1
  pub fits : get_prefix_size f.type ≢ 0 → (length v ≤ f.param) × (length v ≤ 0xffff)
  pub text : is_string f.type ≡ true → All IsUnit v

abbrev pub IsBody :
    (b : Bool) {M : Type 0} → MsgField → List MsgField → (M → Type 0) → Body b M → Type 0
IsBody true f rest P ms = (length ms ≤ f.param) × (length ms ≤ 255) × (rest ≢ []) × All P ms
IsBody false f rest P (v, m) = IsValue f v × P m

abbrev pub IsMessage : (fields : List MsgField) → Message fields → Type 0
IsMessage [] m = Unit
IsMessage (f ∷ rest) m = IsBody (is_nested f.type) f rest (IsMessage rest) m

-- The end of a text that does not fill its room.
abbrev pub StartsWithZero : List ℕ → Type 0
StartsWithZero [] = ⊥
StartsWithZero (lo ∷ []) = ⊥
StartsWithZero (lo ∷ hi ∷ more) = (lo ≡ 0) × (hi ≡ 0)

-- The struct `s` holds the value `v` at its start, and `rest` behind the field's room.
pub record IsStored (f : MsgField) (v : Value) (s rest : List ℕ) : Type 0 where
  pub pad : List ℕ
  pub layout : s ≡ struct_count f (length v) ++ (join v ++ (pad ++ rest))
  pub room : length pad ≡ (static_count f - length v) * get_element_size f
  pub terminated : is_string f.type ≡ true → length v < f.param → StartsWithZero (pad ++ rest)

abbrev pub Elements : {M : Type 0} → (M → List ℕ → Type 0) → ℕ → List M → List ℕ → Type 0
Elements P size [] s = Unit
Elements P size (m ∷ ms) s = P m s × Elements P size ms (drop size s)

abbrev pub HoldsBody :
    (b : Bool) {M : Type 0} → MsgField → (M → List ℕ → Type 0) → Body b M → List ℕ → Type 0
HoldsBody true f P ms s =
    (rest : List ℕ) × (s ≡ le32enc (length ms) ++ rest) × Elements P f.size ms rest
HoldsBody false f P (v, m) s = (rest : List ℕ) × IsStored f v s rest × P m rest

-- The packed struct `s` holds the message, with any bytes in what it leaves unused.
abbrev pub Holds : (fields : List MsgField) → Message fields → List ℕ → Type 0
Holds [] m s = Unit
Holds (f ∷ rest) m s = HoldsBody (is_nested f.type) f (Holds rest) m s
