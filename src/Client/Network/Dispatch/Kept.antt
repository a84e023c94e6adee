-- ===== src/Client/Network/Dispatch/Kept.antt =====
-- The bytes that the loop of `NetConn_DispatchPackets` leaves to keep.
use headquarter.Base.{ℕ, zero, suc, ◌≤◌, ◌≡◌, ◌∙◌, sym, arith, ◌⊎◌, inl, inr, List, length, drop}
use headquarter.Base.{length-drop, ok}
use headquarter.Client.Network.Dispatch.{Exit, Protocol, dispatch}
use headquarter.Client.Network.Dispatch.Chunks.{IsProgress, round-kept, dispatch-round}

module _ {S : Type 0} (p : Protocol S) where
  kept_fuel :
      (fuel : ℕ) (a : List ℕ) (s s' : S) (rest : List ℕ)
      → length a ≤ fuel
      → ((s' ≡ s) × (rest ≡ a)) ⊎ IsProgress p (dispatch p) a s s' rest
      → length rest ≤ length a
  kept_fuel fuel a s s' rest h (inl (same, all)) = rw all (omega arith)
  kept_fuel zero a s s' rest h (inr (n, t, pos, fits, later, more)) = absurd (omega arith)
  kept_fuel (suc fuel) a s s' rest h (inr (n, t, pos, fits, later, more)) =
      let fewer = length-drop n a in
      let shorter = kept_fuel fuel (drop n a) t s' rest (omega (arith, fewer)) (
        round-kept p (dispatch p) (drop n a) t s' rest
          (sym (dispatch-round p (drop n a) t) ∙ later)) in
      omega (arith, fewer, shorter)

  -- The loop adds nothing to the bytes that it keeps.
  pub length-kept :
      (a : List ℕ) (s s' : S) (rest : List ℕ)
      → dispatch p a s ≡ ok (s', Exit.kept rest)
      → length rest ≤ length a
  length-kept a s s' rest e =
      kept_fuel (length a) a s s' rest (ground arith)
        (round-kept p (dispatch p) a s s' rest (sym (dispatch-round p a s) ∙ e))
