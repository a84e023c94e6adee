-- ===== src/Portal/Sts/Request.antt =====
-- The requests of code/portal/sts.c, written into a growable array. The url and the content are the
-- lists of their bytes; whether an allocation succeeds is an argument, the same for all of a request.
pub mod Text
use headquarter.Base.{
  ℕ, ◌-◌, ◌^◌, List, [], ◌∷◌, ◌++◌, Bool, ltb, if◌then◌else◌, u32, length, Outcome, ok, refused,
  aborted, fault, ◌>>=◌,
}
use headquarter.Common.Array.{Array, insert}
use headquarter.Portal.Sts.{Status, success, unsuccessful}
use headquarter.Portal.Sts.Decimal.{decimal}

-- `array_insert` on bytes; nothing asks whether it succeeded.
unfoldable pub append : Bool → Array ℕ → List ℕ → Outcome (Array ℕ)
append allocated request bytes = elim (insert 0 1 allocated request bytes) [
  | ok request' ↦ ok request'
  | refused ↦ ok request
  | aborted ↦ aborted
  | fault ↦ fault
]

-- " STS/1.0\r\n"
abbrev pub version : List ℕ
version = 32 ∷ 83 ∷ 84 ∷ 83 ∷ 47 ∷ 49 ∷ 46 ∷ 48 ∷ 13 ∷ 10 ∷ []

abbrev pub crlf : List ℕ
crlf = 13 ∷ 10 ∷ []

unfoldable pub sts_write_header : Bool → Array ℕ → List ℕ → ℕ → Outcome (Status × Array ℕ)
sts_write_header allocated request url content_len =
    let written = (do
      r1 ← append allocated request (80 ∷ 32 ∷ [])
      r2 ← append allocated r1 url
      r3 ← append allocated r2 version
      r4 ← append allocated r3 (108 ∷ 58 ∷ decimal (u32 content_len))
      ok (success, r4)) in
    if ltb (2 ^ 32 - 1) content_len then ok (unsuccessful, request) else written

unfoldable pub sts_finish_request : Bool → Array ℕ → List ℕ → Outcome (Array ℕ)
sts_finish_request allocated request content = do
  r1 ← append allocated request (crlf ++ crlf)
  append allocated r1 content

unfoldable pub sts_write_request : Bool → Array ℕ → List ℕ → List ℕ → Outcome (Status × Array ℕ)
sts_write_request allocated request url content = do
  (status, r1) ← sts_write_header allocated request url (length content)
  elim status [
    | success ↦ (do r2 ← sts_finish_request allocated r1 content; ok (success, r2))
    | _ ↦ ok (unsuccessful, r1)
  ]

-- "s:", the number, ";timeout=" and the timeout.
abbrev pub sequence_text : ℕ → ℕ → List ℕ
sequence_text seq_number timeout_ms =
    (115 ∷ 58 ∷ decimal (u32 seq_number))
    ++ ((59 ∷ 116 ∷ 105 ∷ 109 ∷ 101 ∷ 111 ∷ 117 ∷ 116 ∷ 61 ∷ []) ++ decimal timeout_ms)

unfoldable pub sts_write_request_with_sequence_number :
    Bool → Array ℕ → List ℕ → ℕ → ℕ → List ℕ → Outcome (Status × Array ℕ)
sts_write_request_with_sequence_number allocated request url seq_number timeout_ms content = do
  (status, r1) ← sts_write_header allocated request url (length content)
  elim status [
    | success ↦ (do
      r2 ← append allocated r1 crlf
      r3 ← append allocated r2 (sequence_text seq_number timeout_ms)
      r4 ← sts_finish_request allocated r3 content
      ok (success, r4))
    | _ ↦ ok (unsuccessful, r1)
  ]
