-- ===== src/Client/Kstr/Ascii.antt =====
-- ASCII texts: what `kstr_read_ascii` read, `kstr_write_ascii` writes.
use headquarter.Base.{
  ℕ, zero, suc, ◌+◌, ◌≤◌, ◌<◌, ◌≡◌, refl, ap, ◌∙◌, sym, arith, bit_and, bit_and_mask, u8,
}
use headquarter.Base.{
  List, [], ◌∷◌, ◌++◌, Bool, true, false, All, length, drop, ltb, leb, ◌==◌, if◌then◌else◌,
  append_assoc,
}
use headquarter.Base.{ok, length-append, length-drop, take-append}
use headquarter.Client.Network.Buffer.{write_at}
use headquarter.Client.Kstr.{
  Kstr, find_from, read_ascii, write_ascii, kstr_read_ascii, kstr_write_ascii,
}
use headquarter.Client.Kstr.Units.{IsValid, IsFree, text, find_from-found, write_at-append}

-- A byte that is not zero and below 128.
abbrev pub IsAscii : ℕ → Type 0
IsAscii c = (0 < c) × (c < 128)

-- A test that holds of each number below `n`, by evaluation.
abbrev holds_below : ℕ → (ℕ → Bool) → Bool
holds_below zero test = true
holds_below (suc n) test = if test n then holds_below n test else false

holds_below_lem :
    (n : ℕ) (test : ℕ → Bool) (c : ℕ) → holds_below n test ≡ true → c < n → test c ≡ true
holds_below_lem zero test c all h = absurd (omega arith)
holds_below_lem (suc n) test c all h = ground (arith, holds_below_lem n test c)

no_high_bit : (c : ℕ) → c < 128 → (bit_and c 0x80 == 0) ≡ true
no_high_bit c h = holds_below_lem 128 (λ x. bit_and x 0x80 == 0) c refl h

no_high_bits : (c : ℕ) → c < 128 → (bit_and c 0xff80 == 0) ≡ true
no_high_bits c h = holds_below_lem 128 (λ x. bit_and x 0xff80 == 0) c refl h

low_bits : (c : ℕ) → c < 128 → u8 (bit_and c 0x7f) ≡ c
low_bits c h = omega (arith, bit_and_mask 7 c)

-- One more unit behind the first part of a buffer.
one_more : (a b : List ℕ) (c : ℕ) (rest : List ℕ) → (a ++ (c ∷ [])) ++ rest ≡ a ++ (c ∷ rest)
one_more a b c rest = append_assoc a (c ∷ []) rest

read_ascii-append :
    (src more a b : List ℕ) (i : ℕ)
    → All IsAscii src
    → i ≡ length a
    → length src ≤ length b
    → read_ascii (src ++ more) i (length src) (a ++ b)
      ≡ ok (true, a ++ (src ++ drop (length src) b))
unfolding read_ascii
read_ascii-append [] more a b i p e h = refl
read_ascii-append (c ∷ src) more a [] i p e h = absurd (omega arith)
read_ascii-append (c ∷ src) more a (u ∷ b) i (pc, p) e h =
    let stored : write_at (a ++ (u ∷ b)) i (c ∷ []) ≡ ok ((a ++ (c ∷ [])) ++ b) =
      write_at-append a (u ∷ b) (c ∷ []) i e (omega arith)
      ∙ ap ok (sym (append_assoc a (c ∷ []) b)) in
    rw (no_high_bit c pc.1, stored)
      (read_ascii-append src more (a ++ (c ∷ [])) b (i + 1) p
          (omega (arith, e, length-append a (c ∷ []))) (omega (arith, h))
        ∙ ap (λ l. ok (true, l)) (append_assoc a (c ∷ []) (src ++ drop (length src) b)))

write_ascii-append :
    (src more a b : List ℕ) (i : ℕ)
    → All IsAscii src
    → i ≡ length a
    → length src ≤ length b
    → write_ascii (src ++ more) i (length src) (a ++ b)
      ≡ ok (true, a ++ (src ++ drop (length src) b))
unfolding write_ascii
write_ascii-append [] more a b i p e h = refl
write_ascii-append (c ∷ src) more a [] i p e h = absurd (omega arith)
write_ascii-append (c ∷ src) more a (u ∷ b) i (pc, p) e h =
    let stored : write_at (a ++ (u ∷ b)) i (c ∷ []) ≡ ok ((a ++ (c ∷ [])) ++ b) =
      write_at-append a (u ∷ b) (c ∷ []) i e (omega arith)
      ∙ ap ok (sym (append_assoc a (c ∷ []) b)) in
    rw (no_high_bits c pc.1, low_bits c pc.1, stored)
      (write_ascii-append src more (a ++ (c ∷ [])) b (i + 1) p
          (omega (arith, e, length-append a (c ∷ []))) (omega (arith, h))
        ∙ ap (λ l. ok (true, l)) (append_assoc a (c ∷ []) (src ++ drop (length src) b)))

ascii-IsFree : (src : List ℕ) → All IsAscii src → IsFree 0 src
ascii-IsFree [] p = tt
ascii-IsFree (c ∷ src) (pc, p) = (ground (arith, pc.0), ascii-IsFree src p)

-- Take ASCII bytes with a zero byte behind them within `size`, a valid text whose capacity they fit in,
-- and a buffer of `m` bytes, more than they are. Reading them succeeds and makes them the text, and
-- writing the text gives the same bytes and a terminator, and leaves the rest of the buffer.
pub kstr_write_ascii-kstr_read_ascii :
    (src more : List ℕ) (str : Kstr) (buf : List ℕ) (size m : ℕ)
    → All IsAscii src
    → IsValid str
    → length src ≤ str.capacity
    → length src < size
    → length src < m
    → m ≤ length buf
    → (str' : Kstr) × (kstr_read_ascii str (src ++ (0 ∷ more)) size ≡ ok (true, str'))
      × (text str' ≡ src)
      × (kstr_write_ascii str' buf m ≡ ok (true, src ++ (0 ∷ drop 1 (drop (length src) buf))))
unfolding kstr_read_ascii kstr_write_ascii
kstr_write_ascii-kstr_read_ascii src more str buf size m p v room ends less fits =
    let n = length src in
    let behind = drop n str.buffer in
    let found : find_from 0 (src ++ (0 ∷ more)) 0 size ≡ ok n =
      find_from-found 0 src more 0 size (ascii-IsFree src p) ends ∙ ap ok (omega arith) in
    let small : ltb str.capacity n ≡ false = ground (arith, room) in
    let reads =
      read_ascii-append src (0 ∷ more) [] str.buffer 0 p refl
        (omega (arith, room, v.capacity_le)) in
    let short : leb m n ≡ false = ground (arith, less) in
    let writes = write_ascii-append src behind [] buf 0 p refl (omega (arith, less, fits)) in
    let there : 1 ≤ length (drop n buf) = omega (arith, less, fits, length-drop n buf) in
    (
      record str { length' = n; buffer = src ++ behind },
      rw (found, small, reads) refl,
      take-append n src behind refl,
      rw (short, writes, write_at-append src (drop n buf) (0 ∷ []) n refl there) refl,
    )
