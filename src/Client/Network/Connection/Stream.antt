-- ===== src/Client/Network/Connection/Stream.antt =====
-- What the peer of a connection receives.
use headquarter.Base.{
  ℕ, ◌+◌, ◌-◌, ◌≤◌, List, ◌++◌, ◌≡◌, ◌≢◌, refl, ap, ◌∙◌, sym, append_assoc, true, leb, length,
  length-append, arith,
}
use headquarter.Base.{Outcome, ok, refused, aborted, fault, ◌>>=◌}
use headquarter.Client.Arc4.{Arc4, crypt}
use headquarter.Client.Arc4.Stream.{crypt-append, length-crypt}
use headquarter.Client.Network.Dispatch.{Exit, dispatch}
use headquarter.Client.Network.Dispatch.Chunks.{dispatch-append}
use headquarter.Client.Network.Dispatch.Kept.{length-kept}
use headquarter.Client.Network.Connection.{
  Connection, Outgoing, Endpoint, capacity, chunk, outgoing, protocol, receive, after_recv,
  in_after,
}

-- A connection from the part that handlers change, and the rest.
abbrev rebuild : {S : Type 0} → Arc4 → List ℕ → Outgoing S → Connection S
rebuild decrypt in_data out = record {
  encrypt = out.encrypt;
  decrypt = decrypt;
  in_data = in_data;
  out_data = out.out_data;
  state = out.state;
}

module _ {S : Type 0} (p : Endpoint S) where
  -- The buffer after the loop depends on what it was only for an unknown header.
  same_buffer :
      (f : List ℕ → Outgoing S → Connection S) (x y : List ℕ) (o : Outcome (Outgoing S × Exit))
      → ((t : Outgoing S) → o ≢ ok (t, Exit.bad_header))
      → (o >>= λ r. ok (f (in_after p x r.1) r.0)) ≡ (o >>= λ r. ok (f (in_after p y r.1) r.0))
  unfolding in_after
  same_buffer f x y (ok (t, Exit.kept rest)) known = refl
  same_buffer f x y (ok (t, Exit.removed)) known = refl
  same_buffer f x y (ok (t, Exit.bad_header)) known = absurd (known t refl)
  same_buffer f x y refused known = refl
  same_buffer f x y aborted known = refl
  same_buffer f x y fault known = refl

  -- On a secured connection, a chunk that fits is decrypted and dispatched.
  pub receive-chunk :
      (leave_game : S → S) (c : Connection S) (bytes : List ℕ)
      → p.secured c.state ≡ true
      → length c.in_data + length bytes ≤ capacity
      → receive p leave_game (chunk bytes) c ≡ (
          dispatch (protocol p) (c.in_data ++ (crypt c.decrypt bytes).1) (outgoing c) >>= λ r. ok (
            rebuild
              (crypt c.decrypt bytes).0
              (in_after p (c.in_data ++ (crypt c.decrypt bytes).1) r.1)
              r.0))
  unfolding receive after_recv
  receive-chunk leave_game c bytes secured fits =
      let roomy : leb (length bytes) (capacity - length c.in_data) ≡ true = ground (arith, fits) in
      rw (secured, roomy) refl

  -- Take a secured connection and two chunks which together fit behind what its buffer holds. The first
  -- leaves something to keep (no failure, no unknown header, no removal) and the connection secured;
  -- the second does not lead to an unknown header. Receiving both at once is receiving one after the
  -- other: the same messages are handled, and the same connection is left, with what the handlers have
  -- queued and sent.
  pub receive-append :
      (leave_game : S → S) (c : Connection S) (a b : List ℕ) (s : Outgoing S) (rest : List ℕ)
      → p.secured c.state ≡ true
      → length c.in_data + length a + length b ≤ capacity
      → dispatch (protocol p) (c.in_data ++ (crypt c.decrypt a).1) (outgoing c)
        ≡ ok (s, Exit.kept rest)
      → p.secured s.state ≡ true
      → ((t : Outgoing S)
          → dispatch (protocol p) (rest ++ (crypt (crypt c.decrypt a).0 b).1) s
            ≢ ok (t, Exit.bad_header))
      → receive p leave_game (chunk (a ++ b)) c
        ≡ (receive p leave_game (chunk a) c >>= receive p leave_game (chunk b))
  unfolding in_after
  receive-append leave_game c a b s rest secured fits e secured' known =
      let pa = (crypt c.decrypt a).1 in
      let d = (crypt c.decrypt a).0 in
      let pb = (crypt d b).1 in
      let q = protocol p in
      let whole : dispatch q (c.in_data ++ (pa ++ pb)) (outgoing c) ≡ dispatch q (rest ++ pb) s =
        ap (λ x. dispatch q x (outgoing c)) (sym (append_assoc c.in_data pa pb))
        ∙ dispatch-append q (c.in_data ++ pa) pb (outgoing c) s rest e in
      let kept_le = length-kept q (c.in_data ++ pa) (outgoing c) s rest e in
      let first : receive p leave_game (chunk a) c ≡ ok (rebuild d rest s) =
        receive-chunk leave_game c a secured (omega (arith, fits)) ∙ rw e refl in
      let second_fits : length rest + length b ≤ capacity =
        omega (arith, fits, kept_le, length-append c.in_data pa, length-crypt c.decrypt a) in
      let second = receive-chunk leave_game (rebuild d rest s) b secured' second_fits in
      let both_fit : length c.in_data + length (a ++ b) ≤ capacity =
        omega (arith, fits, length-append a b) in
      receive-chunk leave_game c (a ++ b) secured both_fit
      ∙ rw (crypt-append c.decrypt a b, whole)
          (same_buffer (rebuild (crypt d b).0) (c.in_data ++ (pa ++ pb)) (rest ++ pb)
            (dispatch q (rest ++ pb) s) known)
      ∙ sym (ap (λ o. o >>= receive p leave_game (chunk b)) first ∙ second)
