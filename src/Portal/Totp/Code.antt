-- ===== src/Portal/Totp/Code.antt =====
-- The code of totp against the standards.
use headquarter.Base.{
  ℕ, zero, suc, ◌+◌, ◌-◌, ◌*◌, ◌/◌, ◌%◌, ◌^◌, ◌<◌, ◌≤◌, ◌≡◌, refl, sym, ap, ap₂, ◌∙◌, arith,
}
use headquarter.Base.{List, [], ◌∷◌, ◌++◌, map, replicate, true, length, leb, if◌then◌else◌}
use headquarter.Base.{get_elem?-lt, get_or, get_or-elem, bit_and, bit_xor, bit_and_mask}
use headquarter.Base.{Bool-cases, inl, inr, none, some, get_elem?, ltb, ◌==◌, ok}
use native.Mathlib.Nat.{mod-eq_of_lt, pow-suc, pow-le-pow_right}
use headquarter.Common.Endian.{be32enc, be64enc}
use headquarter.Common.Endian.RoundTrip.{byte_of, or_sum}
use headquarter.Portal.Totp.{b32decode, hmac_sha1, join_code, mod_table, shorten, truncate, totp}
use headquarter.Portal.Totp.Spec.{
  IsDigest, padded, hmac, counter, dynamic_truncation, one_time_password,
}

-- The zeros behind the key and the loop over the block.
map-padded :
    (pad n left : ℕ) (key : List ℕ)
    → length key + left ≡ n
    → map (λ k. bit_xor pad k) (key ++ replicate left 0) ≡ padded pad n key
unfolding padded
map-padded pad zero zero [] h = refl
map-padded pad zero (suc left) [] h = absurd (omega arith)
map-padded pad (suc n) zero [] h = absurd (omega arith)
map-padded pad (suc n) (suc left) [] h =
    ap (λ (xs : List ℕ). bit_xor pad 0 ∷ xs) (map-padded pad n left [] (omega arith))
map-padded pad zero left (k ∷ key) h = absurd (omega arith)
map-padded pad (suc n) left (k ∷ key) h =
    ap (λ (xs : List ℕ). bit_xor pad k ∷ xs) (map-padded pad n left key (omega arith))

hmac_sha1-hmac :
    (sha1 : List ℕ → List ℕ) (secret text : List ℕ)
    → ((bytes : List ℕ) → IsDigest (sha1 bytes))
    → hmac_sha1 sha1 secret text ≡ hmac sha1 secret text
unfolding hmac_sha1
hmac_sha1-hmac sha1 secret text digest =
    let key = if leb (length secret) 64 then secret else sha1 secret in
    let short : length key ≤ 64 = elim (Bool-cases (leb (length secret) 64)) [
      | inl fits ↦ rw fits (ground (arith, fits))
      | inr long ↦ rw long (omega (arith, (digest secret).full))
    ] in
    let left = 64 - length key in
    let whole : length key + left ≡ 64 = omega (arith, short) in
    rw (map-padded 0x36 64 left key whole, map-padded 0x5C 64 left key whole) refl

cons_same : {a b : ℕ} {xs ys : List ℕ} → a ≡ b → xs ≡ ys → a ∷ xs ≡ b ∷ ys
cons_same e es = ap₂ (λ (x : ℕ) (xs : List ℕ). x ∷ xs) e es

be64enc-counter : (u : ℕ) → be64enc u ≡ counter u
unfolding be64enc be32enc
be64enc-counter u =
    let low = bit_and_mask 32 u in
    simp byte_of (
      cons_same (omega arith) (
        cons_same (omega arith) (
          cons_same (omega arith) (
            cons_same (omega arith) (
              cons_same (omega (arith, low)) (
                cons_same (omega (arith, low))
                  (cons_same (omega (arith, low)) (cons_same (omega (arith, low)) refl))))))))

-- The masked and shifted bytes of the code, joined, are the number without its highest bit.
join_code_lem :
    (m0 m1 m2 m3 : ℕ)
    → m0 < 256
    → m1 < 256
    → m2 < 256
    → m3 < 256
    → join_code m0 m1 m2 m3 ≡ (m0 * 2 ^ 24 + m1 * 2 ^ 16 + m2 * 2 ^ 8 + m3) % 2 ^ 31
join_code_lem m0 m1 m2 m3 h0 h1 h2 h3 =
    let top = m0 % 2 ^ 7 in
    let high = top * 2 ^ 24 + m1 % 256 * 2 ^ 16 in
    rw (bit_and_mask 7 m0, byte_of m1, byte_of m2, byte_of m3)
      (rw
        (
          or_sum 24 (top * 2 ^ 24) top (m1 % 256 * 2 ^ 16) refl (omega arith),
          or_sum 16 high (top * 256 + m1 % 256) (m2 % 256 * 2 ^ 8) (omega arith) (omega arith),
          or_sum 8 (high + m2 % 256 * 2 ^ 8) (top * 65536 + m1 % 256 * 256 + m2 % 256) (m3 % 256)
              (omega arith) (omega arith),
        )
        (omega arith))

truncate_lem : (mac : List ℕ) → IsDigest mac → truncate mac ≡ ok (dynamic_truncation mac)
unfolding truncate
truncate_lem mac d =
    let n = length mac in
    let full : n ≡ 20 = d.full in
    let (last, at_last) = get_elem?-lt mac 19 (omega (arith, full)) in
    let offset = get_or mac 19 0 % 16 in
    let low : bit_and last 15 ≡ offset =
      bit_and_mask 4 last ∙ ap (λ (x : ℕ). x % 16) (sym (get_or-elem mac 19 0 last at_last)) in
    let (m0, at0) = get_elem?-lt mac offset (omega (arith, full)) in
    let (m1, at1) = get_elem?-lt mac (offset + 1) (omega (arith, full)) in
    let (m2, at2) = get_elem?-lt mac (offset + 2) (omega (arith, full)) in
    let (m3, at3) = get_elem?-lt mac (offset + 3) (omega (arith, full)) in
    let e0 = get_or-elem mac offset 0 m0 at0 in
    let e1 = get_or-elem mac (offset + 1) 0 m1 at1 in
    let e2 = get_or-elem mac (offset + 2) 0 m2 at2 in
    let e3 = get_or-elem mac (offset + 3) 0 m3 at3 in
    let joined : join_code m0 m1 m2 m3 ≡ dynamic_truncation mac =
      rw (e0, e1, e2, e3)
        (join_code_lem m0 m1 m2 m3 (omega (arith, d.bytes offset, e0))
          (omega (arith, d.bytes (offset + 1), e1)) (omega (arith, d.bytes (offset + 2), e2))
          (omega (arith, d.bytes (offset + 3), e3))) in
    rw (at_last, low, at0, at1, at2, at3) (ap ok joined)

-- As many powers of ten, from `p` on.
abbrev powers : ℕ → ℕ → List ℕ
powers zero p = []
powers (suc n) p = p ∷ powers n (p * 10)

get_elem?-powers :
    (n p i : ℕ) (ys : List ℕ) → i < n → get_elem? (powers n p ++ ys) i ≡ some (p * 10 ^ i)
get_elem?-powers zero p i ys h = absurd (omega arith)
get_elem?-powers (suc n) p zero ys h = ap some (omega arith)
get_elem?-powers (suc n) p (suc i) ys h =
    get_elem?-powers n (p * 10) i ys (omega arith) ∙ ap some (next i)
  where
    next : (i : ℕ) → p * 10 * 10 ^ i ≡ p * 10 ^ suc i
    next i = omega (arith, ap (λ (t : ℕ). p * t) (pow-suc 10 i))

get_elem?-ge : (xs : List ℕ) (i : ℕ) → length xs ≤ i → get_elem? xs i ≡ none
get_elem?-ge [] i h = refl
get_elem?-ge (x ∷ xs) zero h = absurd (omega arith)
get_elem?-ge (x ∷ xs) (suc i) h = get_elem?-ge xs i (omega arith)

-- The table holds the powers of ten, and no number of 31 bits has more than ten digits.
shorten_lem : (digits number : ℕ) → number < 2 ^ 31 → shorten digits number ≡ number % 10 ^ digits
unfolding shorten
shorten_lem digits number h = elim (Bool-cases (ltb digits 10)) [
  | inl few ↦
      (let at_digits = get_elem?-powers 10 1 digits (4294967295 ∷ []) (ground (arith, few)) in
        rw at_digits (ap (λ (m : ℕ). number % m) (one_times (10 ^ digits))))
  | inr many ↦
      (let ten : 10 ≤ digits = ground (arith, many) in
        let large : 10 ^ 10 ≤ 10 ^ digits = pow-le-pow_right (omega arith) ten in
        let whole : number % 10 ^ digits ≡ number = mod-eq_of_lt (omega (arith, h, large)) in
        all digits ten ∙ sym whole)
]
  where
    one_times : (m : ℕ) → 1 * m ≡ m
    one_times m = omega arith

    all : (d : ℕ) → 10 ≤ d → shorten d number ≡ number
    all d ten = elim (Bool-cases (d == 10)) [
      | inl last ↦
          (let e : d ≡ 10 = ground (arith, last) in
            ap (λ (n : ℕ). shorten n number) e ∙ omega (arith, h))
      | inr past ↦
          (let none_left = get_elem?-ge mod_table d (ground (arith, past, ten)) in
            unfold shorten in rw none_left refl)
    ]

-- With a hash that always gives twenty bytes, and a secret that is base 32, the result is the password of the
-- standards for the decoded secret and the number of half minutes since the epoch: the truncated HMAC,
-- of which the last `digits` decimal digits are kept.
pub totp-one_time_password :
    (sha1 : List ℕ → List ℕ) (epoch_secs : ℕ) (secret : List ℕ) (digits : ℕ)
    → ((bytes : List ℕ) → IsDigest (sha1 bytes))
    → (b32decode secret).0 ≡ true
    → totp sha1 epoch_secs secret digits
      ≡ ok (some (one_time_password sha1 (b32decode secret).1 (epoch_secs / 30) digits))
unfolding totp
totp-one_time_password sha1 epoch_secs secret digits digest decoded =
    let bytes = (b32decode secret).1 in
    let mac = hmac sha1 bytes (counter (epoch_secs / 30)) in
    let hashes : hmac_sha1 sha1 bytes (be64enc (epoch_secs / 30)) ≡ mac =
      hmac_sha1-hmac sha1 bytes (be64enc (epoch_secs / 30)) digest
      ∙ ap (hmac sha1 bytes) (be64enc-counter (epoch_secs / 30)) in
    rw (decoded, hashes, truncate_lem mac (digest _))
      (ap (λ (n : ℕ). ok (some n)) (shorten_lem digits (dynamic_truncation mac) (omega arith)))
