-- ===== src/Common/Hash.antt =====
-- code/common/hash.h. `unsigned long` has 64 bits and `char` is signed; a text is the list of its
-- bytes from the pointer on, and reading past them is a fault.
pub mod Mix
pub mod Text
mod Tests
use headquarter.Base.{
  ℕ, zero, suc, ◌+◌, ◌-◌, ◌%◌, ◌^◌, ◌≤◌, List, [], ◌∷◌, u32, u64, bit_xor, ◌<<<◌, ◌>>>◌,
}
use headquarter.Base.{ltb, leb, ◌==◌, if◌then◌else◌, ◌&&◌, Outcome, ok, fault}

-- `~n + (n << k)` on words of `w` bits.
abbrev pub spread : ℕ → ℕ → ℕ → ℕ
spread w k n = (2 ^ w - 1 - n + (n <<< k) % 2 ^ w) % 2 ^ w

abbrev pub fold : ℕ → ℕ → ℕ
fold k n = bit_xor n (n >>> k)

unfoldable pub hash_int32 : ℕ → ℕ
hash_int32 n =
    let a = spread 32 15 n in
    let b = fold 12 a in
    let c = u32 (b + u32 (b <<< 2)) in
    let d = fold 4 c in let e = u32 (d + u32 (u32 (d <<< 3) + u32 (d <<< 11))) in fold 16 e

unfoldable pub hash_int64 : ℕ → ℕ
hash_int64 n =
    let a = spread 64 21 n in
    let b = fold 24 a in
    let c = u64 (b + u64 (u64 (b <<< 3) + u64 (b <<< 8))) in
    let d = fold 14 c in
    let e = u64 (d + u64 (u64 (d <<< 2) + u64 (d <<< 4))) in
    let f = fold 28 e in u64 (f + u64 (f <<< 31))

-- A `char` as it is promoted to `unsigned long`.
abbrev pub widen : ℕ → ℕ
widen c = if ltb c 128 then c else c + (2 ^ 64 - 256)

-- `tolower` in the C locale, on the same `char`.
abbrev pub tolower : ℕ → ℕ
tolower c = if leb 65 c && leb c 90 then c + 32 else c

-- `((hash << 5) - hash) + c`
abbrev pub add_char : ℕ → ℕ → ℕ
add_char hash c = u64 (u64 (u64 (hash <<< 5) + 2 ^ 64 - hash) + widen c)

-- The loops, from a hash on.
unfoldable pub hash_str_from : ℕ → List ℕ → Outcome ℕ
hash_str_from hash [] = fault
hash_str_from hash (c ∷ str) =
    let rest = hash_str_from (add_char hash c) str in if c == 0 then ok hash else rest

unfoldable pub hash_strn_from : ℕ → List ℕ → ℕ → Outcome ℕ
hash_strn_from hash str zero = ok hash
hash_strn_from hash [] (suc left) = fault
hash_strn_from hash (c ∷ str) (suc left) =
    let rest = hash_strn_from (add_char hash c) str left in if c == 0 then ok hash else rest

unfoldable pub hash_stri_from : ℕ → List ℕ → Outcome ℕ
hash_stri_from hash [] = fault
hash_stri_from hash (c ∷ str) =
    let rest = hash_stri_from (add_char hash (tolower c)) str in if c == 0 then ok hash else rest

unfoldable pub hash_strni_from : ℕ → List ℕ → ℕ → Outcome ℕ
hash_strni_from hash str zero = ok hash
hash_strni_from hash [] (suc left) = fault
hash_strni_from hash (c ∷ str) (suc left) =
    let rest = hash_strni_from (add_char hash (tolower c)) str left in
    if c == 0 then ok hash else rest

abbrev pub hash_str : List ℕ → Outcome ℕ
hash_str str = hash_str_from 0 str

abbrev pub hash_strn : List ℕ → ℕ → Outcome ℕ
hash_strn str size = hash_strn_from 0 str size

abbrev pub hash_stri : List ℕ → Outcome ℕ
hash_stri str = hash_stri_from 0 str

abbrev pub hash_strni : List ℕ → ℕ → Outcome ℕ
hash_strni str size = hash_strni_from 0 str size
