-- ===== src/Client/Network/Unpack/Elements.antt =====
-- The elements of a field that is no struct, copied behind its count.
use headquarter.Base.{ℕ, zero, suc, ◌+◌, ◌-◌, ◌*◌, ◌≤◌, ◌<◌, ◌≡◌, refl, ap, ◌∙◌, sym, arith}
use headquarter.Base.{List, [], ◌∷◌, ◌++◌, append_assoc, length, drop, take, true, false}
use headquarter.Base.{ltb, ok}
use headquarter.Base.{
  length-append, length-take, length-drop, drop-append, take-append, take-append_past,
  drop-append_past,
}
use headquarter.Common.Endian.{le32enc}
use headquarter.Client.Network.Fields.{
  MsgField, get_element_size, get_prefix_size, is_string, is_nested,
}
use headquarter.Client.Network.Buffer.{write_at}
use headquarter.Client.Network.Message.{Value, join, IsValue, StartsWithZero, IsStored}
use headquarter.Client.Network.Message.{wire_count, struct_count, static_count}
use headquarter.Client.Network.Pack.Field.{
  length-join, fill_room, static_fits, string_size, count_of_string,
}
use headquarter.Client.Network.Unpack.{Decoder, read_elements, read_field, continue}
use headquarter.Client.Network.Unpack.Field.{room_of, IsField, IsPrepared, decoded_head}
use headquarter.Client.Network.Unpack.Field.{write_at-eq}

-- `next` reads `n` bytes and leaves a struct with `P`, from any struct of the given length.
abbrev pub Decodes : Decoder → List ℕ → ℕ → ℕ → (List ℕ → Type 0) → Type 0
Decodes next bytes size n P =
    (struct : List ℕ)
    → length struct ≡ size
    → (out : List ℕ) × (next bytes struct ≡ ok (n, out)) × P out

length-struct_count : (f : MsgField) (n : ℕ) → length (struct_count f n) ≡ length (struct_count f 0)
unfolding struct_count le32enc
length-struct_count f n = ground arith

StartsWithZero-take :
    (k : ℕ) (z rest : List ℕ) → 2 ≤ k → StartsWithZero z → StartsWithZero (take k z ++ rest)
StartsWithZero-take zero z rest h e = absurd (omega arith)
StartsWithZero-take (suc zero) z rest h e = absurd (omega arith)
StartsWithZero-take (suc (suc k)) [] rest h e = absurd e
StartsWithZero-take (suc (suc k)) (lo ∷ []) rest h e = absurd e
StartsWithZero-take (suc (suc k)) (lo ∷ hi ∷ z) rest h e = e

text_static : (f : MsgField) → is_string f.type ≡ true → static_count f ≡ f.param
unfolding static_count get_prefix_size
text_static f text = ground arith

module _ (f : MsgField) (v : Value) (struct prepared : List ℕ) (val : IsValue f v)
    (room : room_of f ≤ length struct) (prep : IsPrepared f (length v) struct prepared) where
  abbrev size : ℕ
  size = get_element_size f

  abbrev count : List ℕ
  count = struct_count f (length v)

  behind_elements : List ℕ
  behind_elements = drop (length count + length (join v)) prepared

  stored : List ℕ
  unfolding behind_elements
  stored = count ++ (join v ++ behind_elements)

  width : length (join v) ≡ get_element_size f * length v
  width = length-join (get_element_size f) v val.sized

  inside : length count + static_count f * size ≤ length prepared
  unfolding room_of
  inside = omega (arith, prep.same_length, length-struct_count f (length v), room)

  narrow : length (join v) ≤ static_count f * size
  narrow = omega (
    arith,
    width,
    fill_room (get_element_size f) (length v) (static_count f) (static_fits f v val),
  )

  store : write_at prepared (length count) (join v) ≡ ok stored
  unfolding stored behind_elements
  store =
      let (rest, starts) = prep.counted in
      let front : take (length count) prepared ≡ count =
        rw starts (take-append (length count) count rest refl) in
      rw (write_at-eq prepared (length count) (join v) (omega (arith, inside, narrow)), front) refl

  length-stored : length stored ≡ length struct
  unfolding stored behind_elements
  length-stored = omega (
    arith,
    length-append count (join v ++ behind_elements),
    length-append (join v) behind_elements,
    length-drop (length count + length (join v)) prepared,
    inside,
    narrow,
    prep.same_length,
  )

  -- What is left of the field's room, and the end of the field.
  abbrev spare : ℕ
  spare = (static_count f - length v) * get_element_size f

  abbrev end : ℕ
  end = length count + static_count f * get_element_size f

  end-eq : end ≡ length count + (length (join v) + spare)
  end-eq = omega (
    arith,
    width,
    fill_room (get_element_size f) (length v) (static_count f) (static_fits f v val),
  )

  take-end : take end stored ≡ count ++ (join v ++ take spare behind_elements)
  unfolding stored
  take-end =
      ap (λ k. take k stored) end-eq
      ∙ take-append_past (length (join v) + spare) count (join v ++ behind_elements)
      ∙ ap (λ l. count ++ l) (take-append_past spare (join v) behind_elements)

  spare_fits : length count + (length (join v) + spare) ≤ length prepared
  spare_fits = omega (
    arith,
    inside,
    width,
    fill_room (get_element_size f) (length v) (static_count f) (static_fits f v val),
  )

  length-spare : length (take spare behind_elements) ≡ spare
  unfolding behind_elements
  length-spare = omega (
    arith,
    length-take spare (drop (length count + length (join v)) prepared),
    length-drop (length count + length (join v)) prepared,
    spare_fits,
  )

  text_end : is_string f.type ≡ true → length v < f.param → StartsWithZero behind_elements
  unfolding behind_elements
  text_end text short =
      let no_count : length (struct_count f (length v)) ≡ 0 =
        ap length (count_of_string f (length v) text) in
      let at : length (struct_count f (length v)) + length (join v) ≡ 2 * length v =
        omega (arith, no_count, width, ap (λ (t : ℕ). t * length v) (string_size f text)) in
      rw at (prep.ended text short)

  room_for_end : is_string f.type ≡ true → length v < f.param → 2 ≤ spare
  room_for_end text short = rw (string_size f text, text_static f text) (omega arith)

  -- The struct in front of any `rest` holds the value.
  is_stored : (rest : List ℕ) → IsStored f v (take end stored ++ rest) rest
  is_stored rest = record {
    pad = take spare behind_elements;
    layout =
        ap (λ l. l ++ rest) take-end
        ∙ append_assoc count (join v ++ take spare behind_elements) rest
        ∙ ap (λ l. count ++ l) (append_assoc (join v) (take spare behind_elements) rest);
    room = length-spare;
    terminated = λ text short.
        StartsWithZero-take spare behind_elements rest (room_for_end text short)
          (text_end text short);
  }

  length-tail : length (drop end stored) ≡ length struct - room_of f
  unfolding room_of
  length-tail =
      omega (arith, length-drop end stored, length-stored, length-struct_count f (length v))

-- A field that is no struct and what `next` decodes behind it.
pub flat_decoded :
    (f : MsgField) (v : Value) (behind struct : List ℕ) (next : Decoder) (rest : List MsgField)
    (n : ℕ) (P : List ℕ → Type 0)
    → is_nested f.type ≡ false
    → IsField f
    → IsValue f v
    → room_of f ≤ length struct
    → Decodes next behind (length struct - room_of f) n P
    → (out : List ℕ) × (read_field f rest next
          (wire_count (get_prefix_size f.type) (length v) ++ (join v ++ behind))
          struct
        ≡ ok (length (wire_count (get_prefix_size f.type) (length v)) + (length (join v)) + n, out))
      × ((tail : List ℕ) × IsStored f v out tail × P tail)
unfolding read_field read_elements continue
flat_decoded f v behind struct next rest n P flat fld val room decodes =
    let (prepared, runs, prep) = decoded_head f v (join v ++ behind) struct flat fld val room in
    let jv = join v in
    let wc = wire_count (get_prefix_size f.type) (length v) in
    let len = get_element_size f * length v in
    let wide : length jv ≡ len = length-join (get_element_size f) v val.sized in
    let rpos : drop (length wc) (wc ++ (jv ++ behind)) ≡ jv ++ behind =
      drop-append (length wc) wc (jv ++ behind) refl in
    let avail : ltb (length (jv ++ behind)) len ≡ false =
      ground (arith, length-append jv behind, wide) in
    let taken : take len (jv ++ behind) ≡ jv = take-append len jv behind (sym wide) in
    let next_pos : drop (length wc + len) (wc ++ (jv ++ behind)) ≡ behind =
      drop-append_past len wc (jv ++ behind) ∙ drop-append len jv behind (sym wide) in
    let past = end f v struct prepared val room prep in
    let written = stored f v struct prepared val room prep in
    let (out, ran, p) =
      decodes (drop past written) (length-tail f v struct prepared val room prep) in
    (
      take past written ++ out,
      rw (runs, flat, rpos, avail, taken, store f v struct prepared val room prep, next_pos, ran)
          (ap (λ k. ok (length wc + k + n, take past written ++ out)) (sym wide)),
      (out, is_stored f v struct prepared val room prep out, p),
    )
