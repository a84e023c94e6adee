-- ===== src/Client/Arc4/Schedule.antt =====
-- The key schedule of RC4, and what a key that is set up encrypts.
use headquarter.Base.{ℕ, zero, suc, ◌+◌, ◌%◌, ◌<◌, ◌≤◌, ◌≡◌, refl, ap, ◌∙◌, sym, arith}
use headquarter.Base.{List, some, get_elem?-lt, get_or-elem, leb, length, get_or}
use headquarter.Base.{if◌then◌else◌, Bool-cases, inl, inr, bit_and, bit_and_mask}
use native.Mathlib.Nat.{mod-lt, mod_self, mod-eq_of_lt, suc-mod, zero-mod}
use headquarter.Client.Arc4.{Arc4, swap, identity, mix, setup, crypt}
use headquarter.Client.Arc4.Table.{length-swap, length-identity}
use headquarter.Client.Arc4.Keystream.{Generator, exchange, encipher, swap-exchange, crypt-encipher}

-- The key schedule from index `i` on, where `byte n` is the byte of the key for index `n`.
unfoldable pub schedule : (ℕ → ℕ) → ℕ → ℕ → ℕ → (ℕ → ℕ) → ℕ → ℕ
schedule byte zero i j table = table
schedule byte (suc left) i j table =
    let j' = (j + table i + byte i) % 256 in schedule byte left (i + 1) j' (exchange table i j')

-- The generator of a key, whose first `keylen` bytes are repeated.
abbrev pub generator : List ℕ → ℕ → Generator
generator key keylen = record {
  i = 0;
  j = 0;
  table = schedule (λ n. get_or key (n % keylen) 0) 256 0 0 (λ n. n);
}

get_or-identity : (i left n : ℕ) → i + left ≤ 256 → n < left → get_or (identity i left) n 0 ≡ i + n
unfolding identity
get_or-identity i zero n h less = absurd (omega arith)
get_or-identity i (suc left) zero h less = omega arith
get_or-identity i (suc left) (suc n) h less =
    get_or-identity (i + 1) left n (omega arith) (omega arith) ∙ omega arith

-- Where the key is read for the next index.
next_index :
    (i k keylen : ℕ)
    → 0 < keylen
    → (if leb keylen k then 0 else k) ≡ i % keylen
    → (if leb keylen ((if leb keylen k then 0 else k) + 1)
        then 0
        else (if leb keylen k then 0 else k) + 1)
      ≡ (i + 1) % keylen
next_index i k keylen pos e = elim (Bool-cases (leb keylen (i % keylen + 1))) [
  | inl wraps ↦
      (let full : suc (i % keylen) ≡ keylen = ground (arith, mod-lt i pos, wraps) in
        rw (e, wraps) (sym (next i ∙ ap (λ (n : ℕ). n % keylen) full ∙ mod_self keylen)))
  | inr stays ↦
      (let less : suc (i % keylen) < keylen = ground (arith, stays) in
        rw (e, stays) (one_more (i % keylen) ∙ sym (next i ∙ mod-eq_of_lt less)))
]
  where
    one_more : (n : ℕ) → n + 1 ≡ suc n
    one_more n = omega arith

    next : (n : ℕ) → (n + 1) % keylen ≡ suc (n % keylen) % keylen
    next n = ap (λ (l : ℕ). l % keylen) (one_more n) ∙ suc-mod n keylen

mix-schedule :
    (key : List ℕ) (keylen : ℕ)
    → 0 < keylen
    → keylen ≤ length key
    → (left i j k : ℕ) (m : List ℕ) (table : ℕ → ℕ) → i + left ≡ 256
    → length m ≡ 256
    → ((n : ℕ) → n < 256 → get_or m n 0 ≡ table n)
    → (if leb keylen k then 0 else k) ≡ i % keylen
    → (out : List ℕ) × (mix key keylen left i j k m ≡ some out)
      × (length out ≡ 256)
      × ((n : ℕ)
          → n < 256
          → get_or out n 0 ≡ schedule (λ n. get_or key (n % keylen) 0) left i j table n)
unfolding mix schedule
mix-schedule key keylen pos fits zero i j k m table e full same at_key = (m, refl, full, same)
mix-schedule key keylen pos fits (suc left) i j k m table e full same at_key =
    let k' = if leb keylen k then 0 else k in
    let (b, read) = get_elem?-lt key k' (ground arith) in
    let j' = bit_and (j + get_or m i 0 + b) 0xff in
    let key_same : b ≡ get_or key (i % keylen) 0 =
      sym (get_or-elem key k' 0 b read) ∙ ap (λ (n : ℕ). get_or key n 0) at_key in
    let j_same : j' ≡ (j + table i + get_or key (i % keylen) 0) % 256 =
      bit_and_mask 8 _ ∙ omega (arith, same i (omega arith), key_same) in
    let swapped : (n : ℕ)
        → n < 256
        → get_or (swap m i j') n 0
          ≡ exchange table i ((j + table i + get_or key (i % keylen) 0) % 256) n =
      λ n h.
        ap (λ (l : ℕ). get_or (swap m i l) n 0) j_same
        ∙ swap-exchange m table i _ n full same (omega arith) (omega arith) h in
    let (out, runs, full', same') =
      mix-schedule key keylen pos fits left (i + 1) j' (k' + 1) (swap m i j')
        (exchange table i ((j + table i + get_or key (i % keylen) 0) % 256)) (omega arith)
        (length-swap m i j' ∙ full) swapped (next_index i k keylen pos at_key) in
    (
      out,
      rw (read, mix) runs,
      full',
      λ n h.
          same' n h
          ∙ ap
              (λ (l : ℕ).
                schedule (λ n. get_or key (n % keylen) 0) left (i + 1) l
                  (exchange table i ((j + table i + get_or key (i % keylen) 0) % 256)) n)
              j_same,
    )

-- With a key that is not empty and lies in its buffer, a context that the setup makes encrypts any
-- bytes as RC4 does with the table that is scheduled by the first `keylen` bytes of the key: each is
-- combined with the next byte of the keystream.
pub setup-crypt :
    (key : List ℕ) (keylen : ℕ) (xs : List ℕ)
    → 0 < keylen
    → keylen ≤ length key
    → (ctx : Arc4) × (setup key keylen ≡ some ctx)
      × ((crypt ctx xs).1 ≡ encipher (generator key keylen) xs)
unfolding setup
setup-crypt key keylen xs pos fits =
    let (m, runs, full, same) =
      mix-schedule key keylen pos fits 256 0 0 0 (identity 0 256) (λ n. n) refl
        (length-identity 0 256) (λ n h. get_or-identity 0 256 n (ground arith) h ∙ from_zero n)
        (ground (arith, pos, zero-mod keylen)) in
    (
      record { x = 0; y = 0; m = m },
      rw (runs, setup),
      crypt-encipher (generator key keylen) (record { x = 0; y = 0; m = m }) xs
          (record { same_x = refl; same_y = refl; full = full; same_table = same }),
    )
  where
    from_zero : (n : ℕ) → 0 + n ≡ n
    from_zero n = omega arith
