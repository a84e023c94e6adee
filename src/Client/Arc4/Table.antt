-- ===== src/Client/Arc4/Table.antt =====
-- The permutation table: 256 entries, every byte value once, through key setup and every round.
use headquarter.Base.{get_elem?-lt}
use headquarter.Base.{ℕ, zero, suc, ◌+◌, ◌<◌, ◌≤◌, ◌≡◌, refl, ap, ◌∙◌, arith}
use headquarter.Base.{List, [], ◌∷◌, some, length, get_or, set, ◌==◌, leb, ltb}
use headquarter.Base.{if◌then◌else◌, length-set, bit_and, bit_and_mask}
use headquarter.Client.Arc4.{Arc4, swap, identity, mix, setup, crypt_byte, crypt}

-- How often `v` occurs.
abbrev pub count : ℕ → List ℕ → ℕ
count v [] = 0
count v (x ∷ xs) = (if x == v then 1 else 0) + count v xs

count-set :
    (m : List ℕ) (i w v : ℕ)
    → i < length m
    → count v (set m i w) + (if get_or m i 0 == v then 1 else 0)
      ≡ count v m + (if w == v then 1 else 0)
count-set [] i w v h = absurd (omega arith)
count-set (x ∷ m) zero w v h = ground arith
count-set (x ∷ m) (suc i) w v h = omega (arith, count-set m i w v (omega arith))

-- A table: 256 entries, each byte value in exactly one of them.
pub record IsTable (m : List ℕ) : Type 0 where
  pub full : length m ≡ 256
  pub once : (v : ℕ) → v < 256 → count v m ≡ 1

-- The invariant of a context.
pub record IsValid (ctx : Arc4) : Type 0 where
  pub x_byte : ctx.x < 256
  pub y_byte : ctx.y < 256
  pub table : IsTable ctx.m

pub get_or-set :
    (m : List ℕ) (i j w : ℕ)
    → i < length m
    → get_or (set m i w) j 0 ≡ (if i == j then w else get_or m j 0)
get_or-set [] i j w h = absurd (omega arith)
get_or-set (x ∷ m) zero zero w h = refl
get_or-set (x ∷ m) zero (suc j) w h = ground arith
get_or-set (x ∷ m) (suc i) zero w h = ground arith
get_or-set (x ∷ m) (suc i) (suc j) w h = ground (arith, get_or-set m i j w (omega arith))

pub length-swap : (m : List ℕ) (i j : ℕ) → length (swap m i j) ≡ length m
unfolding swap
length-swap m i j =
    length-set (set m i (get_or m j 0)) j (get_or m i 0) ∙ length-set m i (get_or m j 0)

-- Exchanging two entries keeps the number of times that each value occurs.
count-swap :
    (m : List ℕ) (i j v : ℕ) → i < length m → j < length m → count v (swap m i j) ≡ count v m
unfolding swap
count-swap m i j v hi hj = ground (
  arith,
  count-set m i (get_or m j 0) v,
  count-set (set m i (get_or m j 0)) j (get_or m i 0) v,
  length-set m i (get_or m j 0),
  get_or-set m i j (get_or m j 0),
)

swap-IsTable : {m : List ℕ} (i j : ℕ) → i < 256 → j < 256 → IsTable m → IsTable (swap m i j)
swap-IsTable {m} i j hi hj t = record {
  full = length-swap m i j ∙ t.full;
  once = λ v h. count-swap m i j v (omega (arith, t.full)) (omega (arith, t.full)) ∙ t.once v h;
}

pub length-identity : (i left : ℕ) → length (identity i left) ≡ left
unfolding identity
length-identity i zero = refl
length-identity i (suc left) = ap suc (length-identity (i + 1) left)

count-identity :
    (i left v : ℕ)
    → i + left ≤ 256
    → count v (identity i left) ≡ (if leb i v then (if ltb v (i + left) then 1 else 0) else 0)
unfolding identity
count-identity i zero v h = ground arith
count-identity i (suc left) v h = ground (arith, count-identity (i + 1) left v)

identity-IsTable : IsTable (identity 0 256)
identity-IsTable = record {
  full = length-identity 0 256;
  once = λ v h. ground (arith, count-identity 0 256 v);
}

pub low_byte : (x : ℕ) → bit_and x 0xff < 256
low_byte x = omega (arith, bit_and_mask 8 x)

-- One round keeps the invariant.
pub crypt_byte-IsValid : {ctx : Arc4} (b : ℕ) → IsValid ctx → IsValid (crypt_byte ctx b).0
unfolding crypt_byte
crypt_byte-IsValid {ctx} b v = record {
  x_byte = low_byte _;
  y_byte = low_byte _;
  table = swap-IsTable _ _ (low_byte _) (low_byte _) v.table;
}

-- However many bytes are encrypted, a valid context stays valid: indices below 256, and a table in
-- which each byte value occurs once.
pub crypt-IsValid : (ctx : Arc4) (xs : List ℕ) → IsValid ctx → IsValid (crypt ctx xs).0
unfolding crypt
crypt-IsValid ctx [] v = v
crypt-IsValid ctx (x ∷ xs) v = crypt-IsValid (crypt_byte ctx x).0 xs (crypt_byte-IsValid x v)

-- The second loop of the setup ends with a table.
mix-IsTable :
    (key : List ℕ) (keylen : ℕ)
    → 0 < keylen
    → keylen ≤ length key
    → (left i j k : ℕ) (m : List ℕ) → i + left ≡ 256
    → IsTable m
    → (out : List ℕ) × (mix key keylen left i j k m ≡ some out) × IsTable out
unfolding mix
mix-IsTable key keylen pos fits zero i j k m e t = (m, refl, t)
mix-IsTable key keylen pos fits (suc left) i j k m e t =
    let k' = if leb keylen k then 0 else k in
    let (b, read) = get_elem?-lt key k' (ground arith) in
    let j' = bit_and (j + get_or m i 0 + b) 0xff in
    let (out, runs, valid) =
      mix-IsTable key keylen pos fits left (i + 1) j' (k' + 1) (swap m i j') (omega arith)
        (swap-IsTable i j' (omega arith) (low_byte _) t) in
    (out, rw (read, mix) runs, valid)

-- With a key that is not empty and lies in its buffer, key setup reads nothing out of range and
-- gives a valid context: indices below 256, and a table in which each byte value occurs once.
pub setup-IsValid :
    (key : List ℕ) (keylen : ℕ)
    → 0 < keylen
    → keylen ≤ length key
    → (ctx : Arc4) × (setup key keylen ≡ some ctx) × IsValid ctx
unfolding setup
setup-IsValid key keylen pos fits =
    let (m, runs, t) =
      mix-IsTable key keylen pos fits 256 0 0 0 (identity 0 256) refl identity-IsTable in
    (
      record { x = 0; y = 0; m = m },
      rw (runs, setup),
      record { x_byte = omega arith; y_byte = omega arith; table = t },
    )
