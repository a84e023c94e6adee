-- ===== src/Portal/Sts.antt =====
-- code/portal/sts.c: parsing a reply and writing a request. A pointer with the length behind it is the
-- list of the bytes from there on. `sscanf` reads byte after byte, takes a null byte as the end of its
-- text, and to read on past the buffer is a fault, as is a number that does not fit in an `unsigned`.
pub mod Scan
pub mod Decimal
pub mod Lines
pub mod Parse
pub mod Fuel
pub mod Request
mod Tests
use headquarter.Base.{
  ℕ, zero, suc, ◌+◌, ◌-◌, ◌*◌, ◌≤◌, List, [], ◌∷◌, ◌++◌, Bool, true, false, not, ◌&&◌, ◌||◌, ◌==◌,
  ltb, leb, if◌then◌else◌, Option, none, some, get_elem?, length, drop, Outcome, ok, aborted, fault,
  refused, or_fault, ◌>>=◌,
}
use headquarter.Portal.Sts.Scan.{scan_status, scan_field}

-- `STSE_SUCCESS` and the error codes.
pub data Status : Type 0 where
  success : Status
  unsuccessful : Status
  incomplete_content : Status
  incomplete_header : Status
  unsupported_header : Status
  unsupported_protocol : Status

pub record StsReply : Type 0 where
  pub status_code : ℕ
  pub sequence_number : ℕ
  pub content_length : ℕ
  pub content : List ℕ

-- The position of the first line ending, if there is one.
abbrev pub line_end : List ℕ → Option ℕ
line_end [] = none
line_end (b ∷ []) = none
line_end (b ∷ c ∷ data') =
    let later : Option ℕ = elim (line_end (c ∷ data')) [ none ↦ none | some i ↦ some (suc i) ] in
    if b == 13 && c == 10 then some 0 else later

unfoldable pub parse_next_line : List ℕ → Option ℕ
parse_next_line data' = if ltb (length data') 2 then none else line_end data'

unfoldable pub skip_line : List ℕ → ℕ → Outcome (List ℕ)
skip_line data' line_len =
    let ends = (do
      cr ← or_fault (get_elem? data' line_len)
      lf ← or_fault (get_elem? data' (line_len + 1))
      if cr == 13 && lf == 10 then ok (drop (line_len + 2) data') else aborted) in
    if leb (line_len + 2) (length data') then ends else aborted

-- One of the two fields of the header that are known.
unfoldable pub parse_field : StsReply → List ℕ → Outcome (Option StsReply)
parse_field reply data' = do
  first ← or_fault (get_elem? data' 0)
  let sequence = (do
    n ← scan_field (115 ∷ 58 ∷ []) data'
    ok (elim n [ none ↦ none | some n ↦ some (record reply { sequence_number = n }) ]))
  let size = (do
    n ← scan_field (108 ∷ 58 ∷ []) data'
    ok (elim n [ none ↦ none | some n ↦ some (record reply { content_length = n }) ]))
  if first == 115 then sequence else if first == 108 then size else ok none

-- The result, the reply and what is left of the data; `none` when the fuel ran out.
abbrev pub Header : Type 0
Header = Option (Status × StsReply × List ℕ)

-- The loop over the fields.
unfoldable pub header_loop : ℕ → StsReply → List ℕ → Outcome Header
header_loop zero reply data' = ok none
header_loop (suc fuel) reply data' = elim (parse_next_line data') [
  | none ↦ ok (some (if length data' == 0 then success else incomplete_header, reply, data'))
  | some line_len ↦
      let skipped = skip_line data' line_len in
      let done : Outcome Header = (do rest ← skipped; ok (some (success, reply, rest))) in
      let go_on : Outcome Header = (do
        field ← parse_field reply data'
        elim field [
          | none ↦ ok (some (unsupported_header, reply, data'))
          | some reply' ↦ (do rest ← skipped; header_loop fuel reply' rest)
        ]) in
      if line_len == 0 then done else go_on
]

-- The result, and the reply, of which the fields that were read have been set.
unfoldable pub parse_content : Header → Option (Status × StsReply)
parse_content none = none
parse_content (some (success, reply, rest)) =
    if ltb (length rest) reply.content_length
    then some (incomplete_content, reply)
    else some (success, record reply { content = rest })
parse_content (some (code, reply, rest)) = some (code, reply)

-- What follows on the status line, with its two numbers of the version and the status code.
unfoldable pub check_version :
    StsReply → List ℕ → ℕ → Option (ℕ × ℕ × ℕ) → Outcome (Option (Status × StsReply))
check_version reply data' line_len none = ok (some (unsupported_protocol, reply))
check_version reply data' line_len (some (major, minor, code)) =
    let reply' = record reply { status_code = code } in
    let go_on = (do
      rest ← skip_line data' line_len
      header ← header_loop (suc (length rest)) reply' rest
      ok (parse_content header)) in
    if major == 1 && minor == 0 then go_on else ok (some (unsupported_protocol, reply'))

unfoldable pub parse_header : StsReply → List ℕ → ℕ → Outcome (Option (Status × StsReply))
parse_header reply data' line_len = do
  status ← scan_status data'
  check_version reply data' line_len status

unfoldable pub sts_parse_reply : StsReply → List ℕ → Outcome (Option (Status × StsReply))
sts_parse_reply reply raw = elim (parse_next_line raw) [
  | none ↦ ok (some (incomplete_header, reply))
  | some line_len ↦ parse_header reply raw line_len
]
