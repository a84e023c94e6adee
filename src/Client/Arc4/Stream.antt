-- ===== src/Client/Arc4/Stream.antt =====
-- What the two ends of an encrypted connection rely on.
use headquarter.Base.{ℕ, List, [], ◌∷◌, ◌++◌, ◌≡◌, refl, ap, suc, length, bit_xor_twice}
use headquarter.Client.Arc4.{Arc4, crypt_byte, crypt}

pub length-crypt : (ctx : Arc4) (xs : List ℕ) → length (crypt ctx xs).1 ≡ length xs
unfolding crypt
length-crypt ctx [] = refl
length-crypt ctx (x ∷ xs) = ap suc (length-crypt (crypt_byte ctx x).0 xs)

-- Decrypting one byte from the context that encrypted it gives the byte back, and moves the
-- context on in the same way.
crypt_byte_twice :
    (ctx : Arc4) (b : ℕ) → crypt_byte ctx (crypt_byte ctx b).1 ≡ ((crypt_byte ctx b).0, b)
unfolding crypt_byte
crypt_byte_twice ctx b = simp bit_xor_twice

-- A peer that starts from the same context decrypts what was encrypted, and ends in the same
-- context.
pub crypt-crypt : (ctx : Arc4) (xs : List ℕ) → crypt ctx (crypt ctx xs).1 ≡ ((crypt ctx xs).0, xs)
unfolding crypt
crypt-crypt ctx [] = refl
crypt-crypt ctx (x ∷ xs) = simp (crypt_byte_twice, crypt-crypt (crypt_byte ctx x).0 xs)

-- Encrypting a buffer in two parts is encrypting it at once.
pub crypt-append :
    (ctx : Arc4) (xs ys : List ℕ)
    → crypt ctx (xs ++ ys)
      ≡ ((crypt (crypt ctx xs).0 ys).0, (crypt ctx xs).1 ++ (crypt (crypt ctx xs).0 ys).1)
unfolding crypt
crypt-append ctx [] ys = refl
crypt-append ctx (x ∷ xs) ys = rw (crypt-append (crypt_byte ctx x).0 xs ys)
