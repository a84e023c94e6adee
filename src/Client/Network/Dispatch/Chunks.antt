-- ===== src/Client/Network/Dispatch/Chunks.antt =====
-- The loop of `NetConn_DispatchPackets`: it ends, and it does not matter in which chunks the bytes
-- of a connection arrive.
use headquarter.Base.{ℕ, zero, suc, ◌≤◌, ◌<◌, ◌≡◌, refl, ap, ◌∙◌, sym, arith, true, false, ◌⊎◌}
use headquarter.Base.{
  List, [], ◌∷◌, ◌++◌, length, drop, ltb, ◌==◌, if◌then◌else◌, Bool-cases, inl, inr,
}
use headquarter.Base.{Option, none, some, get_elem?, length-append, length-drop, drop-append_within}
use headquarter.Base.{Outcome, ok, refused, aborted, fault, or_fault, ◌>>=◌, >>=-eq-ok}
use headquarter.Common.Endian.{le16dec}
use headquarter.Client.Network.Fields.{MsgFormat}
use headquarter.Client.Network.Unpack.{unpack}
use headquarter.Client.Network.Unpack.Stable.{unpack-IsStable}
use headquarter.Client.Network.Dispatch.{
  read_or_none, net_msg_unpack, blank, Exit, Protocol, find_format,
}
use headquarter.Client.Network.Dispatch.{call, handle, round, loop, dispatch}

le16dec-append : (a b : List ℕ) → 2 ≤ length a → le16dec (a ++ b) ≡ le16dec a
unfolding le16dec
le16dec-append [] b h = absurd (omega arith)
le16dec-append (x ∷ []) b h = absurd (omega arith)
le16dec-append (x ∷ y ∷ a) b h = refl

-- A message that was read lies within the bytes, and is read the same when more follow.
net_msg_unpack-append :
    (format : MsgFormat) (a : List ℕ) (n : ℕ) (packet : List ℕ)
    → net_msg_unpack format a ≡ ok (n, packet)
    → 0 < n
    → (n ≤ length a) × ((b : List ℕ) → net_msg_unpack format (a ++ b) ≡ ok (n, packet))
unfolding net_msg_unpack read_or_none
net_msg_unpack-append format a n packet e some_read =
    let (buffer, cleared, reads) = >>=-eq-ok (blank format) _ e in
    let runs = was_read buffer (unpack format.fields a buffer) reads in
    let kept = unpack-IsStable format.fields a buffer n packet runs in
    (kept.within, λ b. rw (cleared, kept.extends b) refl)
  where
    was_read :
        (buffer : List ℕ) (o : Outcome (ℕ × List ℕ))
        → read_or_none buffer o ≡ ok (n, packet)
        → o ≡ ok (n, packet)
    was_read buffer (ok r) h = h
    was_read buffer refused h = absurd (ground (arith, h))
    was_read buffer aborted h = absurd (ground (arith, h))
    was_read buffer fault h = absurd (ground (arith, h))

module _ {S : Type 0} (p : Protocol S) where
  abbrev pub Loop : Type 0
  Loop = List ℕ → S → Outcome (S × Exit)

  -- A round calls the loop on fewer bytes only.
  handle_same :
      (next next' : Loop) (entry : Option (Option (ℕ → List ℕ → S → S))) (format : MsgFormat)
      (n : ℕ) (packet bytes : List ℕ) (s : S)
      → ((t : S) → next (drop n bytes) t ≡ next' (drop n bytes) t)
      → handle p next entry format n packet bytes s ≡ handle p next' entry format n packet bytes s
  unfolding handle
  handle_same next next' none format n packet bytes s same = refl
  handle_same next next' (some handler) format n packet bytes s same =
      rw (same (call p handler format packet s)) refl

  bind_same :
      {A B : Type 0} (m : Outcome A) (f g : A → Outcome B)
      → ((a : A) → f a ≡ g a)
      → (m >>= f) ≡ (m >>= g)
  bind_same (ok a) f g h = h a
  bind_same refused f g h = refl
  bind_same aborted f g h = refl
  bind_same fault f g h = refl

  round_same :
      (next next' : Loop) (bytes : List ℕ) (s : S)
      → ((n : ℕ) (t : S) → 0 < n → next (drop n bytes) t ≡ next' (drop n bytes) t)
      → round p next bytes s ≡ round p next' bytes s
  unfolding round
  round_same next next' bytes s same =
      ap (λ d. if ltb (length bytes) 2 then ok (s, Exit.kept bytes) else d)
        (bind_same (or_fault (le16dec bytes)) _ _ (λ header.
          bind_same (find_format p header) _ _ (λ format.
            bind_same (net_msg_unpack format bytes) _ _
              (λ r. handled (get_elem? p.handlers header) format r.0 r.1 (Bool-cases (r.0 == 0))))))
    where
      handled :
          (entry : Option (Option (ℕ → List ℕ → S → S))) (format : MsgFormat) (n : ℕ)
          (packet : List ℕ)
          → ((n == 0) ≡ true) ⊎ ((n == 0) ≡ false)
          → (if n == 0
              then ok (s, Exit.kept bytes)
              else handle p next entry format n packet bytes s)
            ≡ (if n == 0
                then ok (s, Exit.kept bytes)
                else handle p next' entry format n packet bytes s)
      handled entry format n packet (inl none_read) = rw none_read refl
      handled entry format n packet (inr some_read) = rw some_read (
          handle_same next next' entry format n packet bytes s
            (λ t. same n t (ground (arith, some_read))))

  round_idle :
      (next : Loop) (bytes : List ℕ) (s : S)
      → length bytes ≡ 0
      → round p next bytes s ≡ ok (s, Exit.kept bytes)
  unfolding round
  round_idle next [] s h = refl
  round_idle next (b ∷ bytes) s h = absurd (omega arith)

  -- More rounds than bytes change nothing.
  loop_enough :
      (fuel fuel' : ℕ) (bytes : List ℕ) (s : S)
      → length bytes ≤ fuel
      → length bytes ≤ fuel'
      → loop p fuel bytes s ≡ loop p fuel' bytes s
  unfolding loop
  loop_enough zero zero bytes s h h' = refl
  loop_enough zero (suc fuel') bytes s h h' = sym (round_idle (loop p fuel') bytes s (omega arith))
  loop_enough (suc fuel) zero bytes s h h' = round_idle (loop p fuel) bytes s (omega arith)
  loop_enough (suc fuel) (suc fuel') bytes s h h' =
      round_same (loop p fuel) (loop p fuel') bytes s (λ n t pos.
        loop_enough fuel fuel' (drop n bytes) t (omega (arith, length-drop n bytes))
          (omega (arith, length-drop n bytes)))

  -- As many rounds as there are bytes are enough: the bounded loop is its own round followed by
  -- the loop on what is left.
  pub dispatch-round : (bytes : List ℕ) (s : S) → dispatch p bytes s ≡ round p (dispatch p) bytes s
  unfolding dispatch
  dispatch-round bytes s =
      loop_enough n (suc n) bytes s (ground arith) (ground arith)
      ∙ (unfold loop in
          round_same (loop p n) (dispatch p) bytes s (λ k t pos.
            loop_enough n (length (drop k bytes)) (drop k bytes) t
              (omega (arith, length-drop k bytes)) (ground arith)))
    where
      n : ℕ
      n = length bytes

  -- A round that leaves bytes to keep has either changed nothing or read a message, which it also
  -- reads when more bytes follow.
  abbrev pub IsProgress : Loop → List ℕ → S → S → List ℕ → Type 0
  IsProgress next a s s' rest =
      (n : ℕ) × (t : S) × (0 < n)
      × (n ≤ length a)
      × (next (drop n a) t ≡ ok (s', Exit.kept rest))
      × ((b : List ℕ) → round p next (a ++ b) s ≡ next (drop n a ++ b) t)

  handle-kept :
      (next : Loop) (entry : Option (Option (ℕ → List ℕ → S → S))) (format : MsgFormat) (n : ℕ)
      (packet a : List ℕ) (s s' : S) (rest : List ℕ)
      → n ≤ length a
      → handle p next entry format n packet a s ≡ ok (s', Exit.kept rest)
      → (t : S) × (next (drop n a) t ≡ ok (s', Exit.kept rest))
        × ((b : List ℕ) → handle p next entry format n packet (a ++ b) s ≡ next (drop n a ++ b) t)
  unfolding handle
  handle-kept next none format n packet a s s' rest fits e = absurd (ground (arith, e))
  handle-kept next (some handler) format n packet a s s' rest fits e =
      let t = call p handler format packet s in
      elim (Bool-cases (p.is_removed t)) [
        | inl gone ↦ absurd (ground (arith, rw gone at e))
        | inr stays ↦ (t, rw stays at e, λ b. rw (stays, drop-append_within n a b fits) refl)
      ]

  -- A round that reads a message is the handling of it.
  round-read :
      (next : Loop) (bytes : List ℕ) (s : S) (header : ℕ) (format : MsgFormat) (n : ℕ)
      (packet : List ℕ)
      → 2 ≤ length bytes
      → or_fault (le16dec bytes) ≡ ok header
      → find_format p header ≡ ok format
      → net_msg_unpack format bytes ≡ ok (n, packet)
      → (n == 0) ≡ false
      → round p next bytes s ≡ handle p next (get_elem? p.handlers header) format n packet bytes s
  unfolding round
  round-read next bytes s header format n packet long headed found reads some_read =
      let enough : ltb (length bytes) 2 ≡ false = ground (arith, long) in
      rw (enough, headed, found, reads, some_read) refl

  pub round-kept :
      (next : Loop) (a : List ℕ) (s s' : S) (rest : List ℕ)
      → round p next a s ≡ ok (s', Exit.kept rest)
      → ((s' ≡ s) × (rest ≡ a)) ⊎ IsProgress next a s s' rest
  unfolding round
  round-kept next a s s' rest e = elim (Bool-cases (ltb (length a) 2)) [
    | inl short ↦ inl (ground (arith, rw short at e))
    | inr long ↦
        (let (header, headed, then_format) = >>=-eq-ok (or_fault (le16dec a)) _ (rw long at e) in
          let (format, found, then_read) = >>=-eq-ok (find_format p header) _ then_format in
          let ((n, packet), reads, then_handle) = >>=-eq-ok (net_msg_unpack format a) _ then_read in
          elim (Bool-cases (n == 0)) [
            | inl none_read ↦ inl (ground (arith, rw none_read at then_handle))
            | inr some_read ↦
                (let pos : 0 < n = ground (arith, some_read) in
                  let (fits, extends) = net_msg_unpack-append format a n packet reads pos in
                  let (t, later, same) =
                    handle-kept next (get_elem? p.handlers header) format n packet a s s' rest fits
                      (rw some_read at then_handle) in
                  let two : 2 ≤ length a = ground (arith, long) in
                  let extended : (b : List ℕ) → round p next (a ++ b) s ≡ next (drop n a ++ b) t =
                    λ b.
                      round-read next (a ++ b) s header format n packet
                        (omega (arith, two, length-append a b))
                        (ap or_fault (le16dec-append a b two) ∙ headed) found (extends b) some_read
                      ∙ same b in
                  inr (n, t, pos, fits, later, extended))
          ])
  ]

  -- The next round, when the rounds behind it are known.
  append_step :
      (a b : List ℕ) (s s' : S) (rest : List ℕ)
      → ((n : ℕ) (t : S)
          → 0 < n
          → n ≤ length a
          → dispatch p (drop n a) t ≡ ok (s', Exit.kept rest)
          → dispatch p (drop n a ++ b) t ≡ dispatch p (rest ++ b) s')
      → ((s' ≡ s) × (rest ≡ a)) ⊎ IsProgress (dispatch p) a s s' rest
      → dispatch p (a ++ b) s ≡ dispatch p (rest ++ b) s'
  append_step a b s s' rest again (inl (same, all)) = rw (same, all) refl
  append_step a b s s' rest again (inr (n, t, pos, fits, later, more)) =
      dispatch-round (a ++ b) s ∙ more b ∙ again n t pos fits later

  append_fuel :
      (fuel : ℕ) (a b : List ℕ) (s s' : S) (rest : List ℕ)
      → length a ≤ fuel
      → dispatch p a s ≡ ok (s', Exit.kept rest)
      → dispatch p (a ++ b) s ≡ dispatch p (rest ++ b) s'
  append_fuel zero a b s s' rest h e =
      append_step a b s s' rest (λ n t pos fits later. absurd (omega arith))
        (round-kept (dispatch p) a s s' rest (sym (dispatch-round a s) ∙ e))
  append_fuel (suc fuel) a b s s' rest h e =
      append_step a b s s' rest
        (λ n t pos fits later.
          append_fuel fuel (drop n a) b t s' rest (omega (arith, length-drop n a)) later)
        (round-kept (dispatch p) a s s' rest (sym (dispatch-round a s) ∙ e))

  -- When the bytes `a` leave `rest` to keep, the bytes `a ++ b` at once are dispatched as `rest ++ b`
  -- is from the state that `a` led to: the same messages reach the handlers, in the same order.
  pub dispatch-append :
      (a b : List ℕ) (s s' : S) (rest : List ℕ)
      → dispatch p a s ≡ ok (s', Exit.kept rest)
      → dispatch p (a ++ b) s ≡ dispatch p (rest ++ b) s'
  dispatch-append a b s s' rest e = append_fuel (length a) a b s s' rest (ground arith) e
