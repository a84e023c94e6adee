-- ===== src/Client/Arc4/Tests.antt =====
-- A key, its context, and a few bytes.
use headquarter.Base.{ℕ, List, [], ◌∷◌, some, ◌≡◌, arith}
use headquarter.Client.Arc4.{Arc4, setup, crypt}
use headquarter.Client.Arc4.Keystream.{encipher}
use headquarter.Client.Arc4.Schedule.{generator, setup-crypt}
use headquarter.Client.Arc4.Table.{IsValid, setup-IsValid, crypt-IsValid}

abbrev key : List ℕ
key = 75 ∷ 101 ∷ 121 ∷ []

setup-IsValid_example : (ctx : Arc4) × (setup key 3 ≡ some ctx) × IsValid ctx
setup-IsValid_example = setup-IsValid key 3 (ground arith) (ground arith)

-- The context of that key.
abbrev keyed : Arc4
keyed = (setup-IsValid key 3 (ground arith) (ground arith)).0

keyed-IsValid : IsValid keyed
keyed-IsValid = (setup-IsValid key 3 (ground arith) (ground arith)).2

crypt-IsValid_example : IsValid (crypt keyed (80 ∷ 108 ∷ [])).0
crypt-IsValid_example = crypt-IsValid keyed (80 ∷ 108 ∷ []) keyed-IsValid

setup-crypt_example :
    (ctx : Arc4) × (setup key 3 ≡ some ctx)
    × ((crypt ctx (80 ∷ 108 ∷ [])).1 ≡ encipher (generator key 3) (80 ∷ 108 ∷ []))
setup-crypt_example = setup-crypt key 3 (80 ∷ 108 ∷ []) (ground arith) (ground arith)
