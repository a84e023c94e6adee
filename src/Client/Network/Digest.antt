-- ===== src/Client/Network/Digest.antt =====
-- arc4_hash of code/client/network.c, on the five words of its union `U20`, and `ROL32` of
-- code/common/macro.h.
use headquarter.Base.{ℕ, ◌+◌, ◌-◌, bit_and, bit_or, bit_xor, u32, ◌<<<◌, ◌>>>◌}

-- Five words, the registers `A` to `E` among them.
pub record Words : Type 0 where
  pub a : ℕ
  pub b : ℕ
  pub c : ℕ
  pub d : ℕ
  pub e : ℕ

unfoldable pub rol32 : ℕ → ℕ → ℕ
rol32 x n = bit_or (u32 (x <<< n)) (bit_and x 0xFFFFFFFF >>> (32 - n))

-- What `+=` adds to a register: `input->u32[i] + ROL32(A, 5) + F + K`.
abbrev pub addend : ℕ → ℕ → ℕ → ℕ → ℕ
addend word a f k = u32 (u32 (u32 (word + rol32 a 5) + f) + k)

unfoldable pub arc4_hash : Words → Words
arc4_hash key =
    let a0 : ℕ = 0x67452301 in
    let b0 : ℕ = 0xEFCDAB89 in
    let c0 : ℕ = 0x98BADCFE in
    let d0 : ℕ = 0x10325476 in
    let e0 : ℕ = 0xC3D2E1F0 in
    let f0 = bit_xor d0 (bit_and b0 (bit_xor c0 d0)) in
    let e1 = u32 (e0 + addend key.a a0 f0 0x5A827999) in
    let b1 = rol32 b0 30 in
    let f1 = bit_xor c0 (bit_and a0 (bit_xor b1 c0)) in
    let d1 = u32 (d0 + addend key.b e1 f1 0x5A827999) in
    let a1 = rol32 a0 30 in
    let f2 = bit_xor b1 (bit_and e1 (bit_xor a1 b1)) in
    let c1 = u32 (c0 + addend key.c d1 f2 0x5A827999) in
    let e2 = rol32 e1 30 in
    let f3 = bit_xor (bit_xor b1 c1) d1 in
    let e3 = u32 (e2 + addend key.d a1 f3 0x6ED9EBA1) in
    let b2 = rol32 b1 30 in
    let f4 = bit_xor (bit_xor a1 b2) c1 in
    let d2 = u32 (d1 + addend key.e e3 f4 0x6ED9EBA1) in
    let a2 = rol32 a1 30 in
    record {
      a = u32 (key.a + a2);
      b = u32 (key.b + b2);
      c = u32 (key.c + c1);
      d = u32 (key.d + d2);
      e = u32 (key.e + e3);
    }
