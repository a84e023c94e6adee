-- ===== src/Portal/Sts/Fuel.antt =====
-- The loop of sts_parse_reply ends: every field takes its line away.
use headquarter.Base.{
  ℕ, zero, suc, ◌+◌, ◌<◌, ◌≤◌, ◌≡◌, ◌≢◌, refl, ◌∙◌, ap, List, Bool, true, false, ◌&&◌, ◌==◌, leb,
  ltb, if◌then◌else◌, Bool-cases, leb→le, inl, inr, Option, none, some, Option-cases, get_elem?,
  length, length-drop, drop, Outcome, ok, aborted, or_fault, ◌>>=◌, >>=-eq-ok, arith,
}
use headquarter.Portal.Sts.Scan.{scan_status}
use headquarter.Portal.Sts.{
  Status, StsReply, success, unsuccessful, incomplete_content, incomplete_header,
  unsupported_header, unsupported_protocol, Header, parse_next_line, skip_line, parse_field,
  header_loop, parse_content, check_version, parse_header, sts_parse_reply,
}

ok-of_if :
    {A : Type 0} (b : Bool) (x : A) (run : Outcome A)
    → (if b then run else aborted) ≡ ok x
    → (b ≡ true) × (run ≡ ok x)
ok-of_if true x run e = (refl, e)
ok-of_if false x run e = cc

ok-injective : {A : Type 0} (x y : A) → ok x ≡ ok y → x ≡ y
ok-injective x y e = cc

skip_line-shorter :
    (data' : List ℕ) (line_len : ℕ) (rest : List ℕ)
    → skip_line data' line_len ≡ ok rest
    → length rest + 2 ≤ length data'
unfolding skip_line
skip_line-shorter data' line_len rest ran =
    let (inside, ends) = ok-of_if (leb (line_len + 2) (length data')) rest _ ran in
    let (cr, got_cr, ends1) = >>=-eq-ok (or_fault (get_elem? data' line_len)) _ ends in
    let (lf, got_lf, ends2) = >>=-eq-ok (or_fault (get_elem? data' (line_len + 1))) _ ends1 in
    let (crlf, ends3) = ok-of_if (cr == 13 && lf == 10) rest _ ends2 in
    let dropped = ap length (ok-injective (drop (line_len + 2) data') rest ends3) in
    omega (
      arith,
      dropped,
      length-drop (line_len + 2) data',
      leb→le (line_len + 2) (length data') inside,
    )

-- What the loop does with a line that is not empty.
after_field :
    (fuel : ℕ) (reply : StsReply) (data' : List ℕ) (line_len : ℕ) (field : Option StsReply)
    → ((reply' : StsReply) (rest : List ℕ)
        → length rest < fuel
        → header_loop fuel reply' rest ≢ ok none)
    → length data' < suc fuel
    → elim field as (λ f. Outcome Header) [
      | none ↦ ok (some (unsupported_header, reply, data'))
      | some reply' ↦ skip_line data' line_len >>= λ rest. header_loop fuel reply' rest
    ]
      ≢ ok none
after_field fuel reply data' line_len none go enough ran = cc
after_field fuel reply data' line_len (some reply') go enough ran =
    let (rest, skipped, looped) =
      >>=-eq-ok (skip_line data' line_len) (λ rest. header_loop fuel reply' rest) ran in
    go reply' rest (let shorter = skip_line-shorter data' line_len rest skipped in omega arith)
      looped

header_loop-enough :
    (fuel : ℕ) (reply : StsReply) (data' : List ℕ)
    → length data' < fuel
    → header_loop fuel reply data' ≢ ok none
unfolding header_loop
header_loop-enough zero reply data' enough ran = absurd (omega arith)
header_loop-enough (suc fuel) reply data' enough ran = elim (Option-cases (parse_next_line data')) [
  | inl e ↦ (let stop = rw (header_loop, e) at ran in cc)
  | inr (line_len, e) ↦ elim (Bool-cases (line_len == 0)) [
    | inl empty ↦
        (let stop = rw (header_loop, e, empty) at ran in
          let (rest, skipped, done) = >>=-eq-ok (skip_line data' line_len) _ stop in cc)
    | inr text ↦
        (let go_on = rw (header_loop, e, text) at ran in
          let (field, parsed, after) = >>=-eq-ok (parse_field reply data') _ go_on in
          after_field fuel reply data' line_len field (header_loop-enough fuel) enough after)
  ]
]

parse_content-some :
    (status : Status) (reply : StsReply) (rest : List ℕ)
    → parse_content (some (status, reply, rest)) ≢ none
unfolding parse_content
parse_content-some success reply rest e =
    elim (Bool-cases (ltb (length rest) reply.content_length)) [
      | inl short ↦ (let stop = rw short at e in cc)
      | inr long ↦ (let stop = rw long at e in cc)
    ]
parse_content-some unsuccessful reply rest e = cc
parse_content-some incomplete_content reply rest e = cc
parse_content-some incomplete_header reply rest e = cc
parse_content-some unsupported_header reply rest e = cc
parse_content-some unsupported_protocol reply rest e = cc

-- A header that was read to its end has a result.
header-result : (header : Header) → header ≢ none → parse_content header ≢ none
header-result none ne e = ne refl
header-result (some (status, reply, rest)) ne e = parse_content-some status reply rest e

check_version-enough :
    (reply : StsReply) (data' : List ℕ) (line_len : ℕ) (status : Option (ℕ × ℕ × ℕ))
    → check_version reply data' line_len status ≢ ok none
unfolding check_version
check_version-enough reply data' line_len none ran = cc
check_version-enough reply data' line_len (some (major, minor, code)) ran =
    elim (Bool-cases (major == 1 && minor == 0)) [
      | inl known ↦
          (let go_on = rw known at ran in
            let (rest, skipped, after) = >>=-eq-ok (skip_line data' line_len) _ go_on in
            let reply' = record reply { status_code = code } in
            let (header, looped, done) =
              >>=-eq-ok (header_loop (suc (length rest)) reply' rest) _ after in
            header-result header
              (λ e.
                header_loop-enough (suc (length rest)) reply' rest (omega arith) (looped ∙ ap ok e))
              (ok-injective (parse_content header) none done))
      | inr other ↦ (let stop = rw other at ran in cc)
    ]

parse_header-enough :
    (reply : StsReply) (data' : List ℕ) (line_len : ℕ) → parse_header reply data' line_len ≢ ok none
unfolding parse_header
parse_header-enough reply data' line_len ran =
    let (status, scanned, checked) = >>=-eq-ok (scan_status data') _ ran in
    check_version-enough reply data' line_len status checked

-- Whatever is received, parsing does not run out of fuel: the loop over the fields of the header takes
-- at most one round more than there are bytes behind the status line.
pub sts_parse_reply-enough : (reply : StsReply) (raw : List ℕ) → sts_parse_reply reply raw ≢ ok none
unfolding sts_parse_reply
sts_parse_reply-enough reply raw ran = elim (Option-cases (parse_next_line raw)) [
  | inl e ↦ (let stop = rw (sts_parse_reply, e) at ran in cc)
  | inr (line_len, e) ↦ parse_header-enough reply raw line_len (rw (sts_parse_reply, e) at ran)
]
