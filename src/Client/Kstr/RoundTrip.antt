-- ===== src/Client/Kstr/RoundTrip.antt =====
-- A text that was written is read back.
use headquarter.Base.{sub_size, ℕ, ◌-◌, ◌≤◌, ◌<◌, ◌≡◌, refl, ap, ◌∙◌, sym, arith}
use headquarter.Base.{List, [], ◌∷◌, ◌++◌, true, false, length, drop, ltb, leb, ◌==◌}
use headquarter.Base.{ok, length-append, length-drop, take-append}
use headquarter.Client.Kstr.{
  Kstr, npos, find_from, kstr_find_codepoint, kstr_copy, kstr_init, kstr_substr, kstr_read,
  kstr_write,
}
use headquarter.Client.Kstr.Units.{
  IsValid, IsFree, text, length-text, find_from-found, write_at-append, read_bytes-inside,
}

-- The destination of a copy.
abbrev copied : Kstr → Kstr → Kstr
copied dest src = record dest {
  length' = src.length';
  buffer = text src ++ drop src.length' dest.buffer;
}

text-copied :
    (dest src : Kstr) → src.length' ≤ length src.buffer → text (copied dest src) ≡ text src
text-copied dest src h =
    take-append src.length' (text src) (drop src.length' dest.buffer) (sym (length-text src h))

copied-IsValid :
    (dest src : Kstr)
    → IsValid dest
    → src.length' ≤ length src.buffer
    → src.length' ≤ dest.capacity
    → IsValid (copied dest src)
copied-IsValid dest src v h fits =
    let same : length (text src ++ drop src.length' dest.buffer) ≡ length dest.buffer = omega (
      arith,
      v.capacity_le,
      length-append (text src) (drop src.length' dest.buffer),
      length-drop src.length' dest.buffer,
      length-text src h,
    ) in
    record {
      length_le = fits;
      capacity_le = omega (arith, same, v.capacity_le);
      small = omega (arith, same, v.small);
    }

kstr_copy-copied :
    (dest src : Kstr)
    → IsValid dest
    → src.length' ≤ length src.buffer
    → src.length' ≤ dest.capacity
    → kstr_copy dest src ≡ ok (true, copied dest src)
unfolding kstr_copy
kstr_copy-copied dest src v h fits =
    let n = src.length' in
    let room : ltb dest.capacity n ≡ false = ground (arith, fits) in
    let inside : length (text src) ≤ length dest.buffer =
      omega (arith, v.capacity_le, length-text src h) in
    rw
      (
        room,
        read_bytes-inside src.buffer n h,
        write_at-append [] dest.buffer (text src) 0 refl inside,
        length-text src h,
      )
      refl

-- What `kstr_write` leaves in a buffer with room for the text and a zero unit.
kstr_write-text :
    (str : Kstr) (buf : List ℕ) (size : ℕ)
    → IsValid str
    → str.length' < size
    → size ≤ length buf
    → kstr_write str buf size ≡ ok (true, text str ++ (0 ∷ drop 1 (drop str.length' buf)))
unfolding kstr_write
kstr_write-text str buf size v less fits =
    let n = str.length' in
    let units = text str in
    let sized : length units ≡ n = length-text str (omega (arith, v.length_le, v.capacity_le)) in
    let room : leb size n ≡ false = ground (arith, less) in
    let behind = drop n buf in
    let there : 1 ≤ length behind = omega (arith, length-drop n buf) in
    rw
      (
        room,
        read_bytes-inside str.buffer n (omega (arith, v.length_le, v.capacity_le)),
        write_at-append [] buf units 0 refl (omega (arith, sized)),
        sized,
        write_at-append units behind (0 ∷ []) n (sym sized) there,
      )
      refl

substr-start :
    (buf : List ℕ) (size n : ℕ)
    → n < size
    → size < npos
    → kstr_substr (kstr_init buf size size) 0 n
      ≡ record { length' = n; capacity = size; buffer = buf }
unfolding kstr_substr
substr-start buf size n less small =
    let from_start : ltb size 0 ≡ false = ground arith in
    let inside : ltb (size - 0) n ≡ false = ground (arith, less) in
    let whole : sub_size size 0 ≡ size = omega (arith, small) in rw (from_start, inside, whole) refl

-- Take a valid text without zero units, a buffer of `size` units, more than the text has, and a valid
-- destination whose capacity the text fits in. Writing the text into the buffer and reading it from
-- there succeed, and the destination is valid and holds the same text.
pub kstr_read-kstr_write :
    (str dest : Kstr) (buf : List ℕ) (size : ℕ)
    → IsValid str
    → IsFree 0 (text str)
    → IsValid dest
    → str.length' ≤ dest.capacity
    → str.length' < size
    → size ≤ length buf
    → size < npos
    → (out : List ℕ) × (kstr_write str buf size ≡ ok (true, out))
      × ((dest' : Kstr) × (kstr_read dest out size ≡ ok (true, dest'))
          × IsValid dest'
          × (text dest' ≡ text str))
unfolding kstr_read kstr_find_codepoint
kstr_read-kstr_write str dest buf size v free w room less fits small =
    let n = str.length' in
    let units = text str in
    let sized : length units ≡ n = length-text str (omega (arith, v.length_le, v.capacity_le)) in
    let more = drop 1 (drop n buf) in
    let out = units ++ (0 ∷ more) in
    let src : Kstr = record { length' = n; capacity = size; buffer = out } in
    let there : n ≤ length out = omega (arith, sized, length-append units (0 ∷ more)) in
    let same : text src ≡ units = take-append n units (0 ∷ more) (sym sized) in
    let found : find_from 0 out 0 size ≡ ok n =
      find_from-found 0 units more 0 size free (omega (arith, sized))
      ∙ ap ok (omega (arith, sized)) in
    let inner : (n == size) ≡ false = ground (arith, less) in
    let real : (n == npos) ≡ false = ground (arith, less, small) in
    let trimmed : kstr_substr (kstr_init out size size) 0 n ≡ src =
      substr-start out size n less small in
    (
      out,
      kstr_write-text str buf size v less fits,
      (
        copied dest src,
        rw (found, inner, real, trimmed) (kstr_copy-copied dest src w there room),
        copied-IsValid dest src w there room,
        text-copied dest src there ∙ same,
      ),
    )
