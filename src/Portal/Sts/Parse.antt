-- ===== src/Portal/Sts/Parse.antt =====
-- sts_parse_reply against the text of a reply.
use headquarter.Base.{
  ℕ, zero, suc, ◌≤◌, ◌<◌, ◌^◌, ◌≡◌, refl, List, [], ◌∷◌, ◌++◌, append_assoc, false, ◌==◌, ltb,
  if◌then◌else◌, some, length, length-append, All, ok, arith, ==_iff,
}
use headquarter.Portal.Sts.Scan.{
  is_digit, skip_space, scan_digits, scan_number, scan_sign, scan_literal, scan_char, scan_unsigned,
  scan_status, scan_field,
}
use headquarter.Portal.Sts.Decimal.{
  IsDigit, digits, decimal, digits-IsDigit, length-digits, scan_unsigned-digits,
}
use headquarter.Portal.Sts.Lines.{IsLine, ended, parse_next_line-ended, skip_line-ended}
use headquarter.Portal.Sts.{
  Status, success, incomplete_content, StsReply, parse_field, header_loop, parse_content,
  check_version, parse_header, sts_parse_reply,
}

-- The fields of a header.
pub data Field : Type 0 where
  sequence : ℕ → Field
  size : ℕ → Field

abbrev pub Fits : Field → Type 0
Fits (sequence n) = n < 2 ^ 32
Fits (size n) = n < 2 ^ 32

abbrev pub field_text : Field → List ℕ
field_text (sequence n) = 115 ∷ 58 ∷ decimal n ++ (82 ∷ [])
field_text (size n) = 108 ∷ 58 ∷ decimal n

abbrev pub set_field : StsReply → Field → StsReply
set_field reply (sequence n) = record reply { sequence_number = n }
set_field reply (size n) = record reply { content_length = n }

abbrev pub set_fields : StsReply → List Field → StsReply
set_fields reply [] = reply
set_fields reply (field ∷ fields) = set_fields (set_field reply field) fields

-- The fields, the empty line behind them, and the content.
abbrev pub fields_text : List Field → List ℕ → List ℕ
fields_text [] content = ended [] content
fields_text (field ∷ fields) content = ended (field_text field) (fields_text fields content)

-- "STS/1.0 ", the status code, a space and a reason.
abbrev pub status_line : ℕ → List ℕ → List ℕ
status_line code reason = 83 ∷ 84 ∷ 83 ∷ 47 ∷ 49 ∷ 46 ∷ 48 ∷ 32 ∷ digits 3 code ++ (32 ∷ reason)

abbrev pub reply_text : ℕ → List ℕ → List Field → List ℕ → List ℕ
reply_text code reason fields content = ended (status_line code reason) (fields_text fields content)

-- The result of a reply whose header has been read.
abbrev pub delivered : StsReply → List ℕ → Status × StsReply
delivered reply content =
    if ltb (length content) reply.content_length
    then (incomplete_content, reply)
    else (success, record reply { content = content })

All-digits : (xs : List ℕ) → All IsDigit xs → IsLine xs
All-digits [] h = tt
All-digits (x ∷ xs) h = (let le = h.0.0 in omega arith, All-digits xs h.1)

IsLine-append : (xs ys : List ℕ) → IsLine xs → IsLine ys → IsLine (xs ++ ys)
IsLine-append [] ys h k = k
IsLine-append (x ∷ xs) ys h k = (h.0, IsLine-append xs ys h.1 k)

decimal-IsLine : (k n : ℕ) → IsLine (digits k n)
decimal-IsLine k n = All-digits (digits k n) (digits-IsDigit k n)

field_text-IsLine : (field : Field) → IsLine (field_text field)
field_text-IsLine (sequence n) = (
  omega arith,
  (omega arith, IsLine-append (decimal n) (82 ∷ []) (decimal-IsLine 10 n) (omega arith, tt)),
)
field_text-IsLine (size n) = (omega arith, (omega arith, decimal-IsLine 10 n))

status_line-IsLine : (code : ℕ) (reason : List ℕ) → IsLine reason → IsLine (status_line code reason)
status_line-IsLine code reason line = (
  omega arith,
  (
    omega arith,
    (
      omega arith,
      (
        omega arith,
        (
          omega arith,
          (
            omega arith,
            (
              omega arith,
              (
                omega arith,
                IsLine-append (digits 3 code) (32 ∷ reason) (decimal-IsLine 3 code)
                    (omega arith, line),
              ),
            ),
          ),
        ),
      ),
    ),
  ),
)

some_text : (field : Field) → (length (field_text field) == 0) ≡ false
some_text (sequence n) = ground arith
some_text (size n) = ground arith

scan_field-decimal :
    (a n c : ℕ) (tail : List ℕ)
    → n < 2 ^ 32
    → is_digit c ≡ false
    → scan_field (a ∷ 58 ∷ []) (a ∷ 58 ∷ decimal n ++ (c ∷ tail)) ≡ ok (some n)
unfolding scan_field scan_literal
scan_field-decimal a n c tail small other =
    let whole = decimal n ++ (c ∷ tail) in
    let long : length (decimal n) ≤ suc (length whole) =
      let sum = length-append (decimal n) (c ∷ tail) in omega arith in
    let number =
      scan_unsigned-digits 9 n (suc (length whole)) c tail (omega arith) small long other in
    rw ((==_iff a a).1 refl, number) refl

parse_field-field :
    (reply : StsReply) (field : Field) (rest : List ℕ)
    → Fits field
    → parse_field reply (ended (field_text field) rest) ≡ ok (some (set_field reply field))
unfolding parse_field
parse_field-field reply (sequence n) rest small =
    rw
      (
        append_assoc (decimal n) (82 ∷ []) (13 ∷ 10 ∷ rest),
        scan_field-decimal 115 n 82 (13 ∷ 10 ∷ rest) small refl,
      )
      refl
parse_field-field reply (size n) rest small =
    rw (scan_field-decimal 108 n 13 (10 ∷ rest) small refl) refl

scan_one : (input : List ℕ) → scan_unsigned 1 (49 ∷ input) ≡ ok (some (1, input))
unfolding scan_unsigned skip_space scan_sign scan_number scan_digits
scan_one input = refl

scan_zero : (input : List ℕ) → scan_unsigned 1 (48 ∷ input) ≡ ok (some (0, input))
unfolding scan_unsigned skip_space scan_sign scan_number scan_digits
scan_zero input = refl

scan_status-reply :
    (code c : ℕ) (tail : List ℕ)
    → code < 1000
    → is_digit c ≡ false
    → scan_status (83 ∷ 84 ∷ 83 ∷ 47 ∷ 49 ∷ 46 ∷ 48 ∷ 32 ∷ digits 3 code ++ (c ∷ tail))
      ≡ ok (some (1, 0, code))
unfolding scan_status scan_literal scan_char
scan_status-reply code c tail small other =
    let whole = digits 3 code ++ (c ∷ tail) in
    rw
      (
        scan_one (46 ∷ 48 ∷ 32 ∷ whole),
        scan_zero (32 ∷ whole),
        scan_unsigned-digits 2 code 3 c tail (omega arith) (omega arith) (length-digits 3 code)
            other,
      )
      refl

length-fields :
    (fields : List Field) (content : List ℕ) → length fields < length (fields_text fields content)
length-fields [] content = omega arith
length-fields (field ∷ fields) content =
    let sum = length-append (field_text field) (13 ∷ 10 ∷ fields_text fields content) in
    omega (arith, sum, length-fields fields content)

header_loop-fields :
    (fuel : ℕ) (reply : StsReply) (fields : List Field) (content : List ℕ)
    → All Fits fields
    → length fields < fuel
    → header_loop fuel reply (fields_text fields content)
      ≡ ok (some (success, set_fields reply fields, content))
unfolding header_loop
header_loop-fields zero reply fields content fit enough = absurd (omega arith)
header_loop-fields (suc fuel) reply [] content fit enough =
    rw (header_loop, parse_next_line-ended [] content tt, skip_line-ended [] content) refl
header_loop-fields (suc fuel) reply (field ∷ fields) content fit enough =
    let rest = fields_text fields content in
    let text = field_text field in
    rw
      (
        header_loop,
        parse_next_line-ended text rest (field_text-IsLine field),
        some_text field,
        parse_field-field reply field rest fit.0,
        skip_line-ended text rest,
      )
      (header_loop-fields fuel (set_field reply field) fields content fit.1 (omega arith))

-- The text of a reply with a status code of at most three digits, fields below 2 ^ 32 and a reason on
-- one line is parsed: the code and the last value of each field are set, and what stands behind the
-- header is the content, unless it is shorter than the fields say. Then the result says that the
-- content is incomplete.
pub sts_parse_reply-text :
    (reply : StsReply) (code : ℕ) (reason : List ℕ) (fields : List Field) (content : List ℕ)
    → code < 1000
    → IsLine reason
    → All Fits fields
    → sts_parse_reply reply (reply_text code reason fields content)
      ≡ ok (some (delivered (set_fields (record reply { status_code = code }) fields) content))
unfolding sts_parse_reply parse_header check_version parse_content
sts_parse_reply-text reply code reason fields content small line fit =
    let rest = fields_text fields content in
    let first = status_line code reason in
    let status : scan_status (ended first rest) ≡ ok (some (1, 0, code)) =
      rw (append_assoc (digits 3 code) (32 ∷ reason) (13 ∷ 10 ∷ rest))
        (scan_status-reply code 32 (reason ++ (13 ∷ 10 ∷ rest)) small refl) in
    rw
      (
        sts_parse_reply,
        parse_next_line-ended first rest (status_line-IsLine code reason line),
        status,
        skip_line-ended first rest,
        header_loop-fields (suc (length rest)) (record reply { status_code = code }) fields content
            fit (omega (arith, length-fields fields content)),
      )
      (ground arith)
