-- ===== src/Common/Hash/Tests.antt =====
-- Sample words and a sample text.
use headquarter.Base.{ℕ, ◌≢◌, refl, arith, List, [], ◌∷◌}
use headquarter.Common.Hash.{hash_int64}
use headquarter.Common.Hash.Mix.{hash_int64-ne}
use headquarter.Common.Hash.Text.{IsText}

hash_int64-ne_example : hash_int64 1 ≢ hash_int64 2
hash_int64-ne_example = hash_int64-ne 1 2 (ground arith) (ground arith) (λ e. ground (arith, e))

abbrev word : List ℕ
word = 72 ∷ 105 ∷ []

word-IsText : IsText word
word-IsText = (refl, (refl, tt))
