-- ===== src/Portal/Totp/Spec.antt =====
-- The one-time passwords of RFC 6238 and 4226, and HMAC of RFC 2104 under them.
use headquarter.Base.{ℕ, zero, suc, ◌+◌, ◌*◌, ◌/◌, ◌%◌, ◌^◌, ◌<◌, ◌≡◌, List, [], ◌∷◌, ◌++◌}
use headquarter.Base.{length, leb, if◌then◌else◌, get_or, bit_xor}

-- What a hash of twenty bytes gives.
pub record IsDigest (mac : List ℕ) : Type 0 where
  pub full : length mac ≡ 20
  pub bytes : (i : ℕ) → get_or mac i 0 < 256

-- The first `n` bytes of the key, behind which there are zeros, each combined with `pad`.
unfoldable pub padded : ℕ → ℕ → List ℕ → List ℕ
padded pad zero key = []
padded pad (suc n) [] = bit_xor pad 0 ∷ padded pad n []
padded pad (suc n) (k ∷ key) = bit_xor pad k ∷ padded pad n key

-- H(K xor opad, H(K xor ipad, text)), where a key of more than a block of 64 bytes is hashed first.
abbrev pub hmac : (List ℕ → List ℕ) → List ℕ → List ℕ → List ℕ
hmac hash secret text =
    let key = if leb (length secret) 64 then secret else hash secret in
    hash (padded 0x5C 64 key ++ hash (padded 0x36 64 key ++ text))

-- The counter as eight bytes, the highest first.
abbrev pub counter : ℕ → List ℕ
counter n =
    n / 2 ^ 56 % 256
    ∷ n / 2 ^ 48 % 256
    ∷ n / 2 ^ 40 % 256
    ∷ n / 2 ^ 32 % 256
    ∷ n / 2 ^ 24 % 256
    ∷ n / 2 ^ 16 % 256
    ∷ n / 2 ^ 8 % 256
    ∷ n % 256
    ∷ []

-- The four bytes from the offset on that the low half of the last byte gives, as a number without its
-- highest bit.
abbrev pub dynamic_truncation : List ℕ → ℕ
dynamic_truncation mac =
    let offset = get_or mac 19 0 % 16 in
    (get_or mac offset 0 * 2 ^ 24
      + get_or mac (offset + 1) 0 * 2 ^ 16
      + get_or mac (offset + 2) 0 * 2 ^ 8
      + get_or mac (offset + 3) 0)
    % 2 ^ 31

-- The password for a counter, as a number of so many digits.
abbrev pub one_time_password : (List ℕ → List ℕ) → List ℕ → ℕ → ℕ → ℕ
one_time_password hash secret n digits =
    dynamic_truncation (hmac hash secret (counter n)) % 10 ^ digits
