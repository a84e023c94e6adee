-- ===== src/Portal/Sts/Tests.antt =====
-- "STS/1.0 200 OK" with the sequence number 12, three bytes announced and three sent, and a request
-- for "/a" with the content "hi".
use headquarter.Base.{ℕ, ◌≡◌, ◌≢◌, refl, List, [], ◌∷◌, ◌++◌, none, some, true, ok, arith}
use headquarter.Common.Array.{Array}
use headquarter.Common.Array.Grow.{IsValid, contents}
use headquarter.Portal.Sts.{success, StsReply, sts_parse_reply}
use headquarter.Portal.Sts.Parse.{
  Field, sequence, size, reply_text, set_fields, delivered, sts_parse_reply-text,
}
use headquarter.Portal.Sts.Fuel.{sts_parse_reply-enough}
use headquarter.Portal.Sts.Request.{sts_write_request_with_sequence_number}
use headquarter.Portal.Sts.Request.Text.{
  request_text, sequence_field, sts_write_request_with_sequence_number-text,
}

abbrev blank : StsReply
blank = record { status_code = 0; sequence_number = 0; content_length = 0; content = [] }

abbrev reason : List ℕ
reason = 79 ∷ 75 ∷ []

abbrev fields : List Field
fields = sequence 12 ∷ size 3 ∷ []

abbrev sent : List ℕ
sent = 1 ∷ 2 ∷ 3 ∷ []

sts_parse_reply-text_example :
    sts_parse_reply blank (reply_text 200 reason fields sent)
    ≡ ok (some (delivered (set_fields (record blank { status_code = 200 }) fields) sent))
sts_parse_reply-text_example =
    sts_parse_reply-text blank 200 reason fields sent (ground arith)
      (ground arith, (ground arith, tt)) (ground arith, (ground arith, tt))

sts_parse_reply-enough_example : sts_parse_reply blank sent ≢ ok none
sts_parse_reply-enough_example = sts_parse_reply-enough blank sent

abbrev nothing : Array ℕ
nothing = record { capacity = 0; size = 0; data' = [] }

nothing-IsValid : IsValid nothing
nothing-IsValid = record { allocated = refl; inside = ground arith }

abbrev url : List ℕ
url = 47 ∷ 97 ∷ []

abbrev content : List ℕ
content = 104 ∷ 105 ∷ []

sts_write_request_with_sequence_number-text_example :
    (a' : Array ℕ) × (sts_write_request_with_sequence_number true nothing url 7 4000 content
      ≡ ok (success, a'))
    × IsValid a'
    × (contents a' ≡ contents nothing ++ request_text url (13 ∷ 10 ∷ sequence_field 7 4000) content)
sts_write_request_with_sequence_number-text_example =
    sts_write_request_with_sequence_number-text nothing url content 7 4000 nothing-IsValid
      (ground arith) (ground arith)
