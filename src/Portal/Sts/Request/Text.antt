-- ===== src/Portal/Sts/Request/Text.antt =====
-- The text of a request.
use headquarter.Base.{
  ℕ, ◌+◌, ◌-◌, ◌*◌, ◌%◌, ◌^◌, ◌<◌, ◌≤◌, ◌≡◌, refl, ap, ◌∙◌, List, [], ◌∷◌, ◌++◌, append_assoc, true,
  false, ltb, u32, length, length-append, ok, arith,
}
use headquarter.Common.Array.{Array}
use headquarter.Common.Array.Grow.{IsValid, contents}
use headquarter.Common.Array.Contents.{insert-contents}
use headquarter.Portal.Sts.{success}
use headquarter.Portal.Sts.Decimal.{decimal, length-digits}
use headquarter.Portal.Sts.Request.{
  append, version, crlf, sts_write_header, sts_finish_request, sts_write_request, sequence_text,
  sts_write_request_with_sequence_number,
}

-- `a'` holds `text`, and its capacity is below a bound.
pub record Holds (text : List ℕ) (bound : ℕ) (a' : Array ℕ) : Type 0 where
  pub valid : IsValid a'
  pub holds : contents a' ≡ text
  pub below : a'.capacity ≤ bound

-- Room for the bytes of a request: every `array_insert` at most doubles the array and adds to it.
append-Holds :
    (a : Array ℕ) (text bytes : List ℕ) (bound : ℕ)
    → Holds text bound a
    → 2 * bound + length bytes + 8 < 2 ^ 64
    → (a' : Array ℕ) × (append true a bytes ≡ ok a')
      × Holds (text ++ bytes) (2 * bound + length bytes + 8) a'
unfolding append
append-Holds a text bytes bound h fits =
    let (a', inserted, valid, below, joined) =
      insert-contents 0 1 a bytes (omega arith) h.valid (let b = h.below in omega arith) in
    (
      a',
      rw (append, inserted) refl,
      record {
        valid = valid;
        holds = joined ∙ ap (λ xs. xs ++ bytes) h.holds;
        below = let b = h.below in omega arith;
      },
    )

join_six :
    (t p u v l e c : List ℕ)
    → (((((t ++ p) ++ u) ++ v) ++ l) ++ e) ++ c ≡ t ++ (p ++ (u ++ (v ++ (l ++ (e ++ c)))))
join_six t p u v l e c =
    rw
      (
        append_assoc ((((t ++ p) ++ u) ++ v) ++ l) e c,
        append_assoc (((t ++ p) ++ u) ++ v) l (e ++ c),
        append_assoc ((t ++ p) ++ u) v (l ++ (e ++ c)),
        append_assoc (t ++ p) u (v ++ (l ++ (e ++ c))),
        append_assoc t p (u ++ (v ++ (l ++ (e ++ c)))),
      )
      refl

-- The text of a request: "P ", the url, " STS/1.0" and a new line, "l:" and the length of the
-- content, further fields, an empty line, and the content.
abbrev pub request_text : List ℕ → List ℕ → List ℕ → List ℕ
request_text url fields content =
    (80 ∷ 32 ∷ [])
    ++ (url
        ++ ((32 ∷ 83 ∷ 84 ∷ 83 ∷ 47 ∷ 49 ∷ 46 ∷ 48 ∷ 13 ∷ 10 ∷ [])
            ++ ((108 ∷ 58 ∷ decimal (length content))
                ++ (fields ++ ((13 ∷ 10 ∷ 13 ∷ 10 ∷ []) ++ content)))))

-- The field of a sequence number, which counts modulo 2 ^ 32: "s:" and the number in decimal,
-- ";timeout=" and the timeout in decimal.
abbrev pub sequence_field : ℕ → ℕ → List ℕ
sequence_field seq_number timeout_ms =
    (115 ∷ 58 ∷ [])
    ++ (decimal (seq_number % 2 ^ 32)
        ++ ((59 ∷ 116 ∷ 105 ∷ 109 ∷ 101 ∷ 111 ∷ 117 ∷ 116 ∷ 61 ∷ []) ++ decimal timeout_ms))

length-sequence_text :
    (seq_number timeout_ms : ℕ) → length (sequence_text seq_number timeout_ms) ≤ 31
length-sequence_text seq_number timeout_ms =
    let number = length-digits 10 (u32 seq_number) in
    let timeout = length-digits 10 timeout_ms in
    let joined =
      length-append (115 ∷ 58 ∷ decimal (u32 seq_number))
        ((59 ∷ 116 ∷ 105 ∷ 109 ∷ 101 ∷ 111 ∷ 117 ∷ 116 ∷ 61 ∷ []) ++ decimal timeout_ms) in
    omega arith

join_fields :
    (t u l f s e c : List ℕ)
    → (((((((t ++ (80 ∷ 32 ∷ [])) ++ u) ++ version) ++ l) ++ f) ++ s) ++ e) ++ c
      ≡ t ++ ((80 ∷ 32 ∷ []) ++ (u ++ (version ++ (l ++ ((f ++ s) ++ (e ++ c))))))
join_fields t u l f s e c =
    rw
      (
        append_assoc ((((((t ++ (80 ∷ 32 ∷ [])) ++ u) ++ version) ++ l) ++ f) ++ s) e c,
        append_assoc (((((t ++ (80 ∷ 32 ∷ [])) ++ u) ++ version) ++ l) ++ f) s (e ++ c),
        append_assoc f s (e ++ c),
      )
      (join_six t (80 ∷ 32 ∷ []) u version l f (s ++ (e ++ c)))

whole_u32 : (n : ℕ) → n < 2 ^ 32 → u32 n ≡ n
whole_u32 n small = omega arith

sts_write_header-Holds :
    (a : Array ℕ) (text url : List ℕ) (content_len bound : ℕ)
    → Holds text bound a
    → content_len < 2 ^ 32
    → 16 * bound + 8 * length url + 1000 < 2 ^ 64
    → (a' : Array ℕ) × (sts_write_header true a url content_len ≡ ok (success, a'))
      × Holds
          ((((text ++ (80 ∷ 32 ∷ [])) ++ url) ++ version) ++ (108 ∷ 58 ∷ decimal content_len))
          (16 * bound + 8 * length url + 400)
          a'
unfolding sts_write_header
sts_write_header-Holds a text url content_len bound h small fits =
    let digits_le = length-digits 10 content_len in
    let (a1, run1, h1) = append-Holds a text (80 ∷ 32 ∷ []) bound h (omega arith) in
    let (a2, run2, h2) = append-Holds a1 _ url _ h1 (omega arith) in
    let (a3, run3, h3) = append-Holds a2 _ version _ h2 (omega arith) in
    let (a4, run4, h4) = append-Holds a3 _ (108 ∷ 58 ∷ decimal content_len) _ h3 (omega arith) in
    let fine : ltb (2 ^ 32 - 1) content_len ≡ false = ground arith in
    (
      a4,
      rw (fine, run1, run2, run3, whole_u32 content_len small, run4) refl,
      record { valid = h4.valid; holds = h4.holds; below = let b = h4.below in omega arith },
    )

sts_finish_request-Holds :
    (a : Array ℕ) (text content : List ℕ) (bound : ℕ)
    → Holds text bound a
    → 4 * bound + length content + 100 < 2 ^ 64
    → (a' : Array ℕ) × (sts_finish_request true a content ≡ ok a')
      × IsValid a'
      × (contents a' ≡ (text ++ (crlf ++ crlf)) ++ content)
unfolding sts_finish_request
sts_finish_request-Holds a text content bound h fits =
    let (a1, run1, h1) = append-Holds a text (crlf ++ crlf) bound h (omega arith) in
    let (a2, run2, h2) = append-Holds a1 _ content _ h1 (omega arith) in
    (a2, rw (run1) run2, h2.valid, h2.holds)

-- A request that is written into a valid array, when every allocation succeeds, the content is shorter
-- than 2 ^ 32 bytes and all of it fits in memory, stands behind what the array held: the method, the
-- url and the version, the length of the content in decimal, an empty line and the content.
pub sts_write_request-text :
    (a : Array ℕ) (url content : List ℕ)
    → IsValid a
    → length content < 2 ^ 32
    → 64 * a.capacity + 32 * length url + length content + 10000 < 2 ^ 64
    → (a' : Array ℕ) × (sts_write_request true a url content ≡ ok (success, a'))
      × IsValid a'
      × (contents a' ≡ contents a ++ request_text url [] content)
unfolding sts_write_request
sts_write_request-text a url content valid small fits =
    let start : Holds (contents a) a.capacity a = record {
      valid = valid;
      holds = refl;
      below = omega arith;
    } in
    let (a1, run1, h1) =
      sts_write_header-Holds a (contents a) url (length content) a.capacity start small
        (omega arith) in
    let (a2, run2, valid2, holds2) = sts_finish_request-Holds a1 _ content _ h1 (omega arith) in
    (
      a2,
      rw (run1, run2) refl,
      valid2,
      holds2
          ∙ join_six (contents a) (80 ∷ 32 ∷ []) url version (108 ∷ 58 ∷ decimal (length content))
              (crlf ++ crlf) content,
    )

-- A request with a sequence number that is written into a valid array, when every allocation succeeds,
-- the content is shorter than 2 ^ 32 bytes and all of it fits in memory, stands behind what the array
-- held: the method, the url and the version, the length of the content, the sequence number modulo
-- 2 ^ 32 and the timeout in decimal, an empty line and the content.
pub sts_write_request_with_sequence_number-text :
    (a : Array ℕ) (url content : List ℕ) (seq_number timeout_ms : ℕ)
    → IsValid a
    → length content < 2 ^ 32
    → 256 * a.capacity + 128 * length url + length content + 100000 < 2 ^ 64
    → (a' : Array ℕ) × (sts_write_request_with_sequence_number true a url seq_number timeout_ms
          content
        ≡ ok (success, a'))
      × IsValid a'
      × (contents a'
          ≡ contents a ++ request_text url (13 ∷ 10 ∷ sequence_field seq_number timeout_ms) content)
unfolding sts_write_request_with_sequence_number
sts_write_request_with_sequence_number-text a url content seq_number timeout_ms valid small fits =
    let start : Holds (contents a) a.capacity a = record {
      valid = valid;
      holds = refl;
      below = omega arith;
    } in
    let (a1, run1, h1) =
      sts_write_header-Holds a (contents a) url (length content) a.capacity start small
        (omega arith) in
    let (a2, run2, h2) = append-Holds a1 _ crlf _ h1 (omega arith) in
    let field_le = length-sequence_text seq_number timeout_ms in
    let (a3, run3, h3) =
      append-Holds a2 _ (sequence_text seq_number timeout_ms) _ h2 (omega arith) in
    let (a4, run4, valid4, holds4) = sts_finish_request-Holds a3 _ content _ h3 (omega arith) in
    (
      a4,
      rw (run1, run2, run3, run4) refl,
      valid4,
      holds4
          ∙ join_fields (contents a) url (108 ∷ 58 ∷ decimal (length content)) crlf
              (sequence_text seq_number timeout_ms) (crlf ++ crlf) content,
    )
