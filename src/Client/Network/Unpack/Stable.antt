-- ===== src/Client/Network/Unpack/Stable.antt =====
-- A message that was decoded is decoded the same when more bytes have arrived behind it.
use headquarter.Base.{ℕ, zero, suc, ◌+◌, ◌*◌, ◌≤◌, ◌≡◌, refl, ◌∙◌, arith}
use headquarter.Base.{List, [], ◌∷◌, ◌++◌, length, take, drop, ltb, leb, ◌==◌}
use headquarter.Base.{
  if◌then◌else◌, Outcome, ok, aborted, Bool, true, false, >>=-eq-ok, inl, inr, Bool-cases,
}
use headquarter.Base.{
  length-append, length-take, length-drop, drop-append_within, take-append_within,
}
use headquarter.Common.Endian.{le16dec, le32enc}
use headquarter.Client.Network.Fields.{MsgField, get_element_size, get_prefix_size, is_nested}
use headquarter.Client.Network.Buffer.{write_at, length-write_at}
use headquarter.Client.Network.Unpack.{
  Head, Decoder, read_count, write_count, read_prefix, read_counted, string_end,
}
use headquarter.Client.Network.Unpack.{continue, repeat, read_elements, read_structs, read_field}
use headquarter.Client.Network.Unpack.{unpack}

-- A result stays within the input, keeps the length of the struct, and does not depend on what
-- follows.
pub record IsKept (d : Decoder) (bytes struct : List ℕ) (r : ℕ) (out : List ℕ) : Type 0 where
  pub within : r ≤ length bytes
  pub same_length : length out ≡ length struct
  pub extends : (more : List ℕ) → d (bytes ++ more) struct ≡ ok (r, out)

abbrev pub IsStable : Decoder → Type 0
IsStable d =
    (bytes struct : List ℕ) (r : ℕ) (out : List ℕ)
    → d bytes struct ≡ ok (r, out)
    → IsKept d bytes struct r out

length-split :
    (w : ℕ) (struct tail : List ℕ)
    → length tail ≡ length (drop w struct)
    → length (take w struct ++ tail) ≡ length struct
length-split w struct tail e =
    omega (arith, length-append (take w struct) tail, length-take w struct, length-drop w struct)

continue-IsKept :
    (next : Decoder)
    → IsStable next
    → (r w : ℕ) (bytes struct : List ℕ) (n : ℕ) (out : List ℕ) → r ≤ length bytes
    → continue next r w bytes struct ≡ ok (n, out)
    → IsKept (continue next r w) bytes struct n out
unfolding continue
continue-IsKept next stable r w bytes struct n out fits e =
    let ((r', tail), runs, ends) =
      >>=-eq-ok (next (drop r bytes) (drop w struct)) (λ p. ok (r + p.0, take w struct ++ p.1)) e in
    let kept = stable (drop r bytes) (drop w struct) r' tail runs in
    record {
      within = ground (arith, ends, kept.within, length-drop r bytes);
      same_length = ground (arith, ends, length-split w struct tail kept.same_length);
      extends = λ more. rw (drop-append_within r bytes more fits, kept.extends more) ends;
    }

repeat-IsStable :
    (element : Decoder) → IsStable element → (left : ℕ) → IsStable (repeat element left)
unfolding repeat
repeat-IsStable element stable zero bytes struct r out e = record {
  within = ground arith;
  same_length = ground arith;
  extends = λ more. e;
}
repeat-IsStable element stable (suc left) bytes struct r out e =
    let ((r', struct'), runs, rest) =
      >>=-eq-ok (element bytes struct) (λ p. continue (repeat element left) p.0 p.0 bytes p.1) e in
    let first = stable bytes struct r' struct' runs in
    let later =
      continue-IsKept (repeat element left) (repeat-IsStable element stable left) r' r' bytes
        struct' r out first.within rest in
    record {
      within = later.within;
      same_length = later.same_length ∙ first.same_length;
      extends = λ more. rw (first.extends more) (later.extends more);
    }

read_count-append :
    (p : ℕ) (bytes more : List ℕ)
    → p ≤ length bytes
    → read_count p (bytes ++ more) ≡ read_count p bytes
unfolding read_count le16dec
read_count-append zero bytes more h = refl
read_count-append (suc zero) [] more h = absurd (omega arith)
read_count-append (suc zero) (b ∷ bytes) more h = refl
read_count-append (suc (suc zero)) [] more h = absurd (omega arith)
read_count-append (suc (suc zero)) (b ∷ []) more h = absurd (omega arith)
read_count-append (suc (suc zero)) (b ∷ c ∷ bytes) more h = refl
read_count-append (suc (suc (suc p))) [] more h = absurd (omega arith)
read_count-append (suc (suc (suc p))) (b ∷ bytes) more h = refl

length-write_count :
    (f : MsgField) (n : ℕ) (struct : List ℕ) {w : ℕ} {out : List ℕ}
    → write_count f n struct ≡ ok (w, out)
    → length out ≡ length struct
unfolding write_count
length-write_count f n struct {w} {out} e = ground (
  arith,
  length-write_at struct (2 * string_end f n) (0 ∷ 0 ∷ []) {out = out},
  length-write_at struct 0 (le32enc n) {out = out},
)

-- The count of a field does not depend on what follows it either.
record IsHead (read : List ℕ → List ℕ → Outcome Head) (bytes struct : List ℕ) (h : Head)
    : Type 0 where
  within : h.readed ≤ length bytes
  same_length : length h.struct ≡ length struct
  extends : (more : List ℕ) → read (bytes ++ more) struct ≡ ok h

read_counted-IsHead :
    (f : MsgField) (bytes struct : List ℕ) (h : Head)
    → get_prefix_size f.type ≤ length bytes
    → read_counted f bytes struct ≡ ok h
    → IsHead (read_counted f) bytes struct h
unfolding read_counted
read_counted-IsHead f bytes struct h fits e =
    let (n, counted, rest) = >>=-eq-ok (read_count (get_prefix_size f.type) bytes) _ e in
    let ((w, struct'), stored, ends) =
      >>=-eq-ok (if leb n f.param then write_count f n struct else aborted) _ rest in
    record {
      within = ground (arith, ends);
      same_length =
          ground (arith, ends, stored, length-write_count f n struct {w = w} {out = struct'});
      extends = λ more. rw (read_count-append (get_prefix_size f.type) bytes more fits) e;
    }

ltb_longer :
    (bytes more : List ℕ) (p : ℕ) → p ≤ length bytes → ltb (length (bytes ++ more)) p ≡ false
ltb_longer bytes more p h = ground (arith, length-append bytes more)

read_prefix-IsHead :
    (f : MsgField) (bytes struct : List ℕ) (h : Head)
    → read_prefix f bytes struct ≡ ok h
    → IsHead (read_prefix f) bytes struct h
unfolding read_prefix
read_prefix-IsHead f bytes struct h e = elim (Bool-cases (get_prefix_size f.type == 0)) [
  | inl plain ↦ record {
    within = ground (arith, plain);
    same_length = ground (arith, plain);
    extends = λ more. rw plain (rw plain at e);
  }
  | inr counted ↦
      (let short = Bool-cases (ltb (length bytes) (get_prefix_size f.type)) in
        elim short [
          | inl missing ↦ absurd (ground (arith, counted, missing))
          | inr there ↦
              (let fits : get_prefix_size f.type ≤ length bytes = ground arith in
                let runs : read_counted f bytes struct ≡ ok h = rw (counted, there) at e in
                let kept = read_counted-IsHead f bytes struct h fits runs in
                record {
                  within = kept.within;
                  same_length = kept.same_length;
                  extends = λ more.
                      rw (counted, ltb_longer bytes more (get_prefix_size f.type) fits)
                        (kept.extends more);
                })
        ])
]

-- A step that starts from a head.
abbrev IsKeptFrom : (List ℕ → Outcome (ℕ × List ℕ)) → List ℕ → List ℕ → ℕ → List ℕ → Type 0
IsKeptFrom step bytes struct n out =
    (n ≤ length bytes)
    × (length out ≡ length struct)
    × ((more : List ℕ) → step (bytes ++ more) ≡ ok (n, out))

module _ (next : Decoder) (stable : IsStable next) where
  read_elements-IsKept :
      (f : MsgField) (h : Head) (bytes : List ℕ) (n : ℕ) (out : List ℕ)
      → h.readed ≤ length bytes
      → read_elements next f h bytes ≡ ok (n, out)
      → IsKeptFrom (read_elements next f h) bytes h.struct n out
  unfolding read_elements
  read_elements-IsKept f h bytes n out fits e =
      let size = get_element_size f * h.packed in
      elim (Bool-cases (ltb (length (drop h.readed bytes)) size)) [
        | inl missing ↦ absurd (ground (arith, missing))
        | inr there ↦
            (let room : size ≤ length (drop h.readed bytes) = ground arith in
              let runs = rw there at e in
              let (struct, stored, rest) =
                >>=-eq-ok (write_at h.struct h.written (take size (drop h.readed bytes))) _ runs in
              let kept =
                continue-IsKept next stable (h.readed + size)
                  (h.written + h.static * get_element_size f) bytes struct n out
                  (omega (arith, length-drop h.readed bytes)) rest in
              (
                kept.within,
                kept.same_length
                    ∙ length-write_at h.struct h.written (take size (drop h.readed bytes)) stored,
                λ more.
                    rw
                      (
                        drop-append_within h.readed bytes more fits,
                        ltb_longer (drop h.readed bytes) more size room,
                        take-append_within size (drop h.readed bytes) more room,
                        stored,
                      )
                      (kept.extends more),
              ))
      ]

  read_structs-IsKept :
      (fields : List MsgField) (h : Head) (bytes : List ℕ) (n : ℕ) (out : List ℕ)
      → h.readed ≤ length bytes
      → read_structs fields next h bytes ≡ ok (n, out)
      → IsKeptFrom (read_structs fields next h) bytes h.struct n out
  unfolding read_structs
  read_structs-IsKept [] h bytes n out fits e = absurd (ground arith)
  read_structs-IsKept (f ∷ fields) h bytes n out fits e =
      let kept =
        continue-IsKept (repeat next h.packed) (repeat-IsStable next stable h.packed) h.readed
          h.written bytes h.struct n out fits e in
      (kept.within, kept.same_length, kept.extends)

  read_field-IsStable : (f : MsgField) (rest : List MsgField) → IsStable (read_field f rest next)
  unfolding read_field
  read_field-IsStable f rest bytes struct n out e =
      let (h, prefixed, then_fields) = >>=-eq-ok (read_prefix f bytes struct) _ e in
      let head = read_prefix-IsHead f bytes struct h prefixed in
      let kept = go h (is_nested f.type) head.within then_fields in
      record {
        within = kept.0;
        same_length = kept.1 ∙ head.same_length;
        extends = λ more. rw (head.extends more) (kept.2 more);
      }
    where
      go :
          (h : Head) (nested : Bool)
          → h.readed ≤ length bytes
          → (if nested then read_structs rest next h bytes else read_elements next f h bytes)
            ≡ ok (n, out)
          → IsKeptFrom
              (λ b. if nested then read_structs rest next h b else read_elements next f h b)
              bytes
              h.struct
              n
              out
      go h true fits runs = read_structs-IsKept rest h bytes n out fits runs
      go h false fits runs = read_elements-IsKept f h bytes n out fits runs

pub unpack-IsStable : (fields : List MsgField) → IsStable (unpack fields)
unfolding unpack
unpack-IsStable [] bytes struct r out e = record {
  within = ground arith;
  same_length = ground arith;
  extends = λ more. e;
}
unpack-IsStable (f ∷ rest) bytes struct r out e =
    read_field-IsStable (unpack rest) (unpack-IsStable rest) f rest bytes struct r out e

-- When `unpack` succeeds, with any fields on any bytes, what it reads lies within the input, the
-- struct keeps its length, and the result is the same when more bytes follow.
pub unpack-IsKept :
    (fields : List MsgField) (bytes struct : List ℕ) (r : ℕ) (out : List ℕ)
    → unpack fields bytes struct ≡ ok (r, out)
    → IsKept (unpack fields) bytes struct r out
unpack-IsKept fields bytes struct r out e = unpack-IsStable fields bytes struct r out e
