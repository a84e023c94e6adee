-- ===== src/Portal/Totp/Base32.antt =====
-- Decoding base 32.
use headquarter.Base.{
  ℕ, ◌+◌, ◌-◌, ◌*◌, ◌/◌, ◌%◌, ◌^◌, ◌<◌, ◌≤◌, ◌≡◌, refl, arith, List, [], ◌∷◌, true, false, ◌==◌,
  ltb, leb, if◌then◌else◌, some, bit_and_mask, u32, ◌<<<◌, All,
}
use headquarter.Portal.Totp.{b32_value, b32_loop, b32decode}

-- The character of five bits.
unfoldable pub b32_char : ℕ → ℕ
b32_char v = if ltb v 26 then 65 + v else 50 + (v - 26)

b32_value-b32_char : (v : ℕ) → v < 32 → b32_value (b32_char v) ≡ some v
unfolding b32_value b32_char
b32_value-b32_char v small = ground arith

b32_char-padding : (v : ℕ) → v < 32 → (b32_char v == 61) ≡ false
unfolding b32_char
b32_char-padding v small = ground arith

module _ (tmp left v : ℕ) (input : List ℕ) (tmp_lt : tmp < 2 ^ 16) (v_lt : v < 32) where
  -- Five bits that do not make a byte complete.
  loop-keep :
      left + 5 < 8
      → b32_loop tmp left (b32_char v ∷ input) ≡ b32_loop (tmp * 32 + v) (left + 5) input
  unfolding b32_loop
  loop-keep few =
      let wide : u32 (u32 (tmp <<< 5) + v) ≡ tmp * 32 + v = omega arith in
      let open_byte : leb 8 (left + 5) ≡ false = ground arith in
      rw (b32_char-padding v v_lt, b32_value-b32_char v v_lt, wide, open_byte) refl

  -- Five bits that do.
  loop-emit :
      8 ≤ left + 5
      → b32_loop tmp left (b32_char v ∷ input) ≡ (
          let rest = b32_loop ((tmp * 32 + v) % 256) (left + 5 - 8) input in
          (rest.0, (tmp * 32 + v) / 2 ^ (left + 5 - 8) % 256 ∷ rest.1))
  unfolding b32_loop
  loop-emit many =
      let wide : u32 (u32 (tmp <<< 5) + v) ≡ tmp * 32 + v = omega arith in
      let full : leb 8 (left + 5) ≡ true = ground arith in
      rw
        (
          b32_char-padding v v_lt,
          b32_value-b32_char v v_lt,
          wide,
          full,
          bit_and_mask 8 (tmp * 32 + v),
        )
        refl

-- Five bytes, which eight characters stand for.
pub record Group : Type 0 where
  pub b1 : ℕ
  pub b2 : ℕ
  pub b3 : ℕ
  pub b4 : ℕ
  pub b5 : ℕ

pub record IsGroup (g : Group) : Type 0 where
  pub small1 : g.b1 < 256
  pub small2 : g.b2 < 256
  pub small3 : g.b3 < 256
  pub small4 : g.b4 < 256
  pub small5 : g.b5 < 256

abbrev pub group_bytes : List Group → List ℕ
group_bytes [] = []
group_bytes (g ∷ groups) = g.b1 ∷ g.b2 ∷ g.b3 ∷ g.b4 ∷ g.b5 ∷ group_bytes groups

-- Forty bits in base 32.
abbrev pub b32_text : List Group → List ℕ
b32_text [] = []
b32_text (g ∷ groups) =
    b32_char (g.b1 / 8)
    ∷ b32_char (g.b1 % 8 * 4 + g.b2 / 64)
    ∷ b32_char (g.b2 / 2 % 32)
    ∷ b32_char (g.b2 % 2 * 16 + g.b3 / 16)
    ∷ b32_char (g.b3 % 16 * 2 + g.b4 / 128)
    ∷ b32_char (g.b4 / 4 % 32)
    ∷ b32_char (g.b4 % 4 * 8 + g.b5 / 32)
    ∷ b32_char (g.b5 % 32)
    ∷ b32_text groups

first_byte :
    (t b1 b2 : ℕ)
    → b1 < 256
    → b2 < 256
    → ((t * 32 + b1 / 8) * 32 + (b1 % 8 * 4 + b2 / 64)) / 2 ^ 2 % 256 ≡ b1
first_byte t b1 b2 h1 h2 = omega arith

second_byte :
    (t b1 b2 b3 : ℕ)
    → b2 < 256
    → b3 < 256
    → (((t * 32 + (b1 % 8 * 4 + b2 / 64)) % 256 * 32 + b2 / 2 % 32) * 32 + (b2 % 2 * 16 + b3 / 16))
        / 2 ^ 4
        % 256
      ≡ b2
second_byte t b1 b2 b3 h2 h3 = omega arith

third_byte :
    (t b2 b3 b4 : ℕ)
    → b3 < 256
    → b4 < 256
    → ((t * 32 + (b2 % 2 * 16 + b3 / 16)) % 256 * 32 + (b3 % 16 * 2 + b4 / 128)) / 2 ^ 1 % 256 ≡ b3
third_byte t b2 b3 b4 h3 h4 = omega arith

fourth_byte :
    (t b3 b4 b5 : ℕ)
    → b4 < 256
    → b5 < 256
    → (((t * 32 + (b3 % 16 * 2 + b4 / 128)) % 256 * 32 + b4 / 4 % 32) * 32 + (b4 % 4 * 8 + b5 / 32))
        / 2 ^ 3
        % 256
      ≡ b4
fourth_byte t b3 b4 b5 h4 h5 = omega arith

fifth_byte :
    (t b4 b5 : ℕ)
    → b5 < 256
    → ((t * 32 + (b4 % 4 * 8 + b5 / 32)) % 256 * 32 + b5 % 32) / 2 ^ 0 % 256 ≡ b5
fifth_byte t b4 b5 h5 = omega arith

b32_loop-text :
    (tmp : ℕ) (groups : List Group)
    → tmp < 256
    → All IsGroup groups
    → b32_loop tmp 0 (b32_text groups) ≡ (true, group_bytes groups)
b32_loop-text tmp [] small valid = unfold b32_loop in refl
b32_loop-text tmp (g ∷ groups) small valid =
    let h = valid.0 in
    let v1 = g.b1 / 8 in
    let v2 = g.b1 % 8 * 4 + g.b2 / 64 in
    let v3 = g.b2 / 2 % 32 in
    let v4 = g.b2 % 2 * 16 + g.b3 / 16 in
    let v5 = g.b3 % 16 * 2 + g.b4 / 128 in
    let v6 = g.b4 / 4 % 32 in
    let v7 = g.b4 % 4 * 8 + g.b5 / 32 in
    let v8 = g.b5 % 32 in
    let t1 = tmp * 32 + v1 in
    let t2 = (t1 * 32 + v2) % 256 in
    let t3 = t2 * 32 + v3 in
    let t4 = (t3 * 32 + v4) % 256 in
    let t5 = (t4 * 32 + v5) % 256 in
    let t6 = t5 * 32 + v6 in
    let t7 = (t6 * 32 + v7) % 256 in
    let t8 = (t7 * 32 + v8) % 256 in
    rw
      (
        loop-keep tmp 0 v1 _ (omega arith) (omega (arith, h.small1)) (omega arith),
        loop-emit t1 5 v2 _ (omega (arith, h.small1)) (omega (arith, h.small2)) (omega arith),
        loop-keep t2 2 v3 _ (omega arith) (omega arith) (omega arith),
        loop-emit t3 7 v4 _ (omega arith) (omega (arith, h.small3)) (omega arith),
        loop-emit t4 4 v5 _ (omega arith) (omega (arith, h.small4)) (omega arith),
        loop-keep t5 1 v6 _ (omega arith) (omega arith) (omega arith),
        loop-emit t6 6 v7 _ (omega arith) (omega (arith, h.small5)) (omega arith),
        loop-emit t7 3 v8 _ (omega arith) (omega arith) (omega arith),
        b32_loop-text t8 groups (omega arith) valid.1,
        first_byte tmp g.b1 g.b2 h.small1 h.small2,
        second_byte t1 g.b1 g.b2 g.b3 h.small2 h.small3,
        third_byte t3 g.b2 g.b3 g.b4 h.small3 h.small4,
        fourth_byte t4 g.b3 g.b4 g.b5 h.small4 h.small5,
        fifth_byte t6 g.b4 g.b5 h.small5,
      )
      refl

-- A text in base 32 whose bytes are a multiple of five is decoded to the bytes that it was made from.
pub b32decode-b32_text :
    (groups : List Group)
    → All IsGroup groups
    → b32decode (b32_text groups) ≡ (true, group_bytes groups)
unfolding b32decode
b32decode-b32_text groups valid = b32_loop-text 0 groups (omega arith) valid
