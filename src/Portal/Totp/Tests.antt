-- ===== src/Portal/Totp/Tests.antt =====
-- Five bytes, and the secret "ME" with a hash that is always the same.
use headquarter.Base.{
  ℕ, zero, suc, get_or, ◌/◌, ◌<◌, ◌≡◌, refl, arith, List, [], ◌∷◌, replicate, true, some, ok,
}
use headquarter.Portal.Totp.{b32decode, b32_loop, b32_value, totp}
use headquarter.Portal.Totp.Base32.{Group, IsGroup, group_bytes, b32_text, b32decode-b32_text}
use headquarter.Portal.Totp.Code.{totp-one_time_password}
use headquarter.Portal.Totp.Spec.{IsDigest, one_time_password}

abbrev sample : List Group
sample = record { b1 = 1; b2 = 2; b3 = 3; b4 = 4; b5 = 255 } ∷ []

sample-IsGroup : IsGroup (record { b1 = 1; b2 = 2; b3 = 3; b4 = 4; b5 = 255 })
sample-IsGroup = record {
  small1 = ground arith;
  small2 = ground arith;
  small3 = ground arith;
  small4 = ground arith;
  small5 = ground arith;
}

b32decode-b32_text_example : b32decode (b32_text sample) ≡ (true, group_bytes sample)
b32decode-b32_text_example = b32decode-b32_text sample (sample-IsGroup, tt)

abbrev sevens : List ℕ → List ℕ
sevens bytes = replicate 20 7

abbrev secret : List ℕ
secret = 77 ∷ 69 ∷ []

secret-decodes : (b32decode secret).0 ≡ true
unfolding b32decode b32_loop b32_value
secret-decodes = refl

sevens-IsDigest : (bytes : List ℕ) → IsDigest (sevens bytes)
sevens-IsDigest bytes = record { full = refl; bytes = λ i. within 20 i }
  where
    within : (n i : ℕ) → get_or (replicate n 7) i 0 < 256
    within zero i = ground arith
    within (suc n) zero = ground arith
    within (suc n) (suc i) = within n i

totp-one_time_password_example :
    totp sevens 1700000000 secret 6
    ≡ ok (some (one_time_password sevens (b32decode secret).1 (1700000000 / 30) 6))
totp-one_time_password_example =
    totp-one_time_password sevens 1700000000 secret 6 sevens-IsDigest secret-decodes
