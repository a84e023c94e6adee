-- ===== src/Client/Arc4/Keystream.antt =====
-- The cipher RC4 as it is published, on a table that is a function, and the code of arc4.c against it.
use headquarter.Base.{ℕ, ◌+◌, ◌%◌, ◌<◌, ◌≡◌, refl, ap, ◌∙◌, arith, ap₂}
use headquarter.Base.{
  List, [], ◌∷◌, length, get_or, set, ◌==◌, if◌then◌else◌, length-set, Bool-cases, inl, inr,
}
use headquarter.Base.{bit_and, bit_and_mask, bit_xor, u8}
use headquarter.Client.Arc4.{Arc4, swap, crypt_byte, crypt}
use headquarter.Client.Arc4.Table.{get_or-set, length-swap}

-- The state of the generator: two indices and a permutation of the bytes.
pub record Generator : Type 0 where
  pub i : ℕ
  pub j : ℕ
  pub table : ℕ → ℕ

-- The table with the entries at `i` and `j` exchanged.
abbrev pub exchange : (ℕ → ℕ) → ℕ → ℕ → ℕ → ℕ
exchange table i j k = if k == i then table j else if k == j then table i else table k

-- One step: `i` advances, `j` moves by the entry at `i`, and the two entries are exchanged.
abbrev pub step : Generator → Generator
step g =
    let i = (g.i + 1) % 256 in
    let j = (g.j + g.table i) % 256 in record { i = i; j = j; table = exchange g.table i j }

-- The byte of the keystream after a step: the entry at the sum of the two entries.
abbrev pub key_byte : Generator → ℕ
key_byte g = g.table ((g.table g.i + g.table g.j) % 256)

-- Every byte combined with the next byte of the keystream.
abbrev pub encipher : Generator → List ℕ → List ℕ
encipher g [] = []
encipher g (x ∷ xs) = bit_xor x (key_byte (step g)) ∷ encipher (step g) xs

-- A context that stands for a generator.
pub record Represents (g : Generator) (ctx : Arc4) : Type 0 where
  pub same_x : ctx.x ≡ g.i
  pub same_y : ctx.y ≡ g.j
  pub full : length ctx.m ≡ 256
  pub same_table : (k : ℕ) → k < 256 → get_or ctx.m k 0 ≡ g.table k

pub swap-exchange :
    (m : List ℕ) (table : ℕ → ℕ) (i j k : ℕ)
    → length m ≡ 256
    → ((n : ℕ) → n < 256 → get_or m n 0 ≡ table n)
    → i < 256
    → j < 256
    → k < 256
    → get_or (swap m i j) k 0 ≡ exchange table i j k
unfolding swap
swap-exchange m table i j k full same hi hj hk = ground (
  arith,
  get_or-set (set m i (get_or m j 0)) j k (get_or m i 0)
      (omega (arith, full, length-set m i (get_or m j 0))),
  get_or-set m i k (get_or m j 0) (omega (arith, full)),
  same i hi,
  same j hj,
  same k hk,
)

exchange_sum :
    (table : ℕ → ℕ) (i j : ℕ) → exchange table i j i + exchange table i j j ≡ table i + table j
exchange_sum table i j = elim (Bool-cases (j == i)) [
  | inl same ↦
      (let e : j ≡ i = ground (arith, same) in
        let t : table j ≡ table i = ap table e in ground (arith, t))
  | inr other ↦ ground arith
]

-- What a round of the code reads and leaves, beside the step of the generator.
record Round (g : Generator) (ctx : Arc4) (x : ℕ) : Type 0 where
  represents : Represents (step g) (crypt_byte ctx x).0
  output : (crypt_byte ctx x).1 ≡ bit_xor x (key_byte (step g))

crypt_byte-Round : {g : Generator} {ctx : Arc4} (x : ℕ) → Represents g ctx → Round g ctx x
unfolding crypt_byte
crypt_byte-Round {g} {ctx} x r =
    let i = (g.i + 1) % 256 in
    let j = (g.j + g.table i) % 256 in
    let ci = bit_and (ctx.x + 1) 0xff in
    let a = get_or ctx.m ci 0 in
    let cj = bit_and (ctx.y + a) 0xff in
    let b = get_or ctx.m cj 0 in
    let ei : ci ≡ i = bit_and_mask 8 (ctx.x + 1) ∙ ap (λ (n : ℕ). (n + 1) % 256) r.same_x in
    let ea : a ≡ g.table i = ap (λ (n : ℕ). get_or ctx.m n 0) ei ∙ r.same_table i (omega arith) in
    let ej : cj ≡ j = bit_and_mask 8 (ctx.y + a) ∙ ap₂ (λ (m n : ℕ). (m + n) % 256) r.same_y ea in
    let eb : b ≡ g.table j = ap (λ (n : ℕ). get_or ctx.m n 0) ej ∙ r.same_table j (omega arith) in
    let table : (k : ℕ) → k < 256 → get_or (swap ctx.m ci cj) k 0 ≡ exchange g.table i j k = λ k h.
      ap₂ (λ (m n : ℕ). get_or (swap ctx.m m n) k 0) ei ej
      ∙ swap-exchange ctx.m g.table i j k r.full r.same_table (omega arith) (omega arith) h in
    let sum : u8 (a + b) ≡ (exchange g.table i j i + exchange g.table i j j) % 256 =
      omega (arith, ea, eb, exchange_sum g.table i j) in
    record {
      represents = record {
        same_x = ei;
        same_y = ej;
        full = length-swap ctx.m ci cj ∙ r.full;
        same_table = table;
      };
      output =
          ap (bit_xor x)
            (ap (λ (k : ℕ). get_or (swap ctx.m ci cj) k 0) sum ∙ table _ (omega arith));
    }

-- On a context that stands for a state of the published cipher, every byte is combined with the next
-- byte of its keystream.
pub crypt-encipher :
    (g : Generator) (ctx : Arc4) (xs : List ℕ) → Represents g ctx → (crypt ctx xs).1 ≡ encipher g xs
unfolding crypt
crypt-encipher g ctx [] r = refl
crypt-encipher g ctx (x ∷ xs) r =
    ap₂ (λ (y : ℕ) ys. y ∷ ys) (crypt_byte-Round x r).output
      (crypt-encipher (step g) (crypt_byte ctx x).0 xs (crypt_byte-Round x r).represents)
