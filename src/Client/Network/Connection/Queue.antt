-- ===== src/Client/Network/Connection/Queue.antt =====
-- The messages that wait in `out`, from `SendPacket` to the peer.
use headquarter.Base.{
  ℕ, ◌-◌, ◌+◌, ◌≤◌, ◌≡◌, refl, ap, ◌∙◌, arith, List, [], ◌∷◌, ◌++◌, some, bit_and, zero, suc,
}
use headquarter.Base.{
  length, drop, ltb, ◌==◌, if◌then◌else◌, true, false, Bool-cases, inl, inr, length-append,
  length-drop,
}
use headquarter.Base.{Outcome, ok, refused, aborted, fault, or_fault, ◌>>=◌, >>=-eq-ok}
use headquarter.Common.Endian.{le16dec}
use headquarter.Client.Arc4.{crypt}
use headquarter.Client.Arc4.Stream.{crypt-crypt, length-crypt}
use headquarter.Client.Network.Fields.{MsgFormat}
use headquarter.Client.Network.Message.{Message, wire, IsMessage, Holds}
use headquarter.Client.Network.Pack.{pack}
use headquarter.Client.Network.Pack.Encodes.{if_room-within}
use headquarter.Client.Network.Pack.Correct.{pack-wire}
use headquarter.Client.Network.Pack.Within.{pack-IsWithin}
use headquarter.Client.Network.Dispatch.{dispatch}
use headquarter.Client.Network.Connection.{
  Connection, Endpoint, Sent, taken, send_error, chunk, capacity, send_data, outgoing, protocol,
}
use headquarter.Client.Network.Connection.Stream.{receive-chunk}
use headquarter.Client.Network.Connection.{
  net_conn_send, net_msg_pack, written_or_none, request_format, make_room, send_packet, receive,
  in_after,
}

drop_all : (xs : List ℕ) (n : ℕ) → length xs ≤ n → drop n xs ≡ []
drop_all [] zero h = refl
drop_all [] (suc n) h = refl
drop_all (x ∷ xs) zero h = absurd (omega arith)
drop_all (x ∷ xs) (suc n) h = drop_all xs n (omega arith)

length-net_msg_pack :
    (format : MsgFormat) (packet : List ℕ) (room : ℕ) (bytes : List ℕ)
    → net_msg_pack format packet room ≡ ok bytes
    → length bytes ≤ room
unfolding net_msg_pack written_or_none
length-net_msg_pack format packet room bytes e =
    go (pack format.fields packet room) e (pack-IsWithin format.fields packet room)
  where
    go :
        (o : Outcome (List ℕ))
        → written_or_none o ≡ ok bytes
        → ((b : List ℕ) → o ≡ ok b → length b ≤ room)
        → length bytes ≤ room
    go (ok b) e within = ground (arith, e, within b refl)
    go refused e within = ground (arith, e)
    go aborted e within = absurd (ground (arith, e))
    go fault e within = absurd (ground (arith, e))

module _ {S : Type 0} (p : Endpoint S) where
  abbrev out_length : Outcome (Connection S) → ℕ
  out_length (ok c) = length c.out_data
  out_length _ = 0

  -- A queue that is sent gets no longer.
  length-net_conn_send :
      (sent : Sent) (c : Connection S) → out_length (net_conn_send p sent c) ≤ length c.out_data
  unfolding net_conn_send
  length-net_conn_send send_error c = ground (arith, length-crypt c.encrypt c.out_data)
  length-net_conn_send (taken n) c =
      ground (arith, length-crypt c.encrypt c.out_data, length-drop n (send_data c))

  sent_all :
      (c : Connection S)
      → p.secured c.state ≡ true
      → p.is_removed c.state ≡ false
      → 1 ≤ length c.out_data
      → net_conn_send p (taken (length c.out_data)) c
        ≡ ok (record c { encrypt = (crypt c.encrypt c.out_data).0; out_data = [] })
  unfolding net_conn_send
  sent_all c secured live waiting =
      let some_left : (length c.out_data == 0) ≡ false = ground (arith, waiting) in
      rw
        (
          secured,
          live,
          some_left,
          drop_all (send_data c) (length c.out_data)
              (ground (arith, length-crypt c.encrypt c.out_data)),
        )
        refl

  make_room-bounded :
      (sent : Sent) (c : Connection S)
      → length c.out_data ≤ capacity
      → out_length (make_room p sent c) ≤ capacity
  unfolding make_room
  make_room-bounded sent c small = ground (arith, small, length-net_conn_send sent c)

  -- When the queue lies within what was reserved for `out` and `SendPacket` does not fail, with any
  -- request and whatever the socket takes on the way, the queue lies within it afterwards.
  pub send_packet-bounded :
      (formats : List MsgFormat) (sent : Sent) (packet : List ℕ) (c c' : Connection S)
      → length c.out_data ≤ capacity
      → send_packet p formats sent packet c ≡ ok c'
      → length c'.out_data ≤ capacity
  unfolding send_packet
  send_packet-bounded formats sent packet c c' small e = elim (Bool-cases (p.is_removed c.state)) [
    | inl gone ↦ ground (arith, rw gone at e, small)
    | inr live ↦
        (let (word, headed, then_format) = >>=-eq-ok (or_fault (le16dec packet)) _ (rw live at e) in
          let (format, found, then_pack) =
            >>=-eq-ok (request_format p formats (bit_and word 0x7fff) (length packet)) _
              then_format in
          let (c1, cleared, then_write) = >>=-eq-ok (make_room p sent c) _ then_pack in
          let room = capacity - length c1.out_data in
          let (written, packs, ends) =
            >>=-eq-ok (if ltb room 2 then aborted else net_msg_pack format packet room) _
              then_write in
          let roomy : length c1.out_data ≤ capacity =
            rw cleared at (make_room-bounded sent c small) in
          let fits : length written ≤ room =
            ground (arith, packs, length-net_msg_pack format packet room written) in
          let joined = length-append c1.out_data written in
          let result = ap out_length ends in omega (arith, fits, roomy, joined, result))
  ]

  -- On a live connection, a request whose format is known and whose struct holds a valid message of
  -- at least two bytes on the wire, which fit behind the queue, appends these bytes to the queue and
  -- changes nothing else.
  pub send_packet-wire :
      (formats : List MsgFormat) (sent : Sent) (packet : List ℕ) (c : Connection S)
      (format : MsgFormat) (word : ℕ) (m : Message format.fields)
      → p.is_removed c.state ≡ false
      → le16dec packet ≡ some word
      → request_format p formats (bit_and word 0x7fff) (length packet) ≡ ok format
      → IsMessage format.fields m
      → Holds format.fields m packet
      → 2 ≤ length (wire format.fields m)
      → length c.out_data + length (wire format.fields m) ≤ capacity
      → send_packet p formats sent packet c
        ≡ ok (record c { out_data = c.out_data ++ wire format.fields m })
  unfolding send_packet
  send_packet-wire formats sent packet c format word m live header found valid holds some_bytes
        fits =
      let n = length (wire format.fields m) in
      let wide : ltb (capacity - length c.out_data) 2 ≡ false = ground (arith, some_bytes, fits) in
      let same : make_room p sent c ≡ ok c = unfold make_room in rw wide refl in
      let packs : net_msg_pack format packet (capacity - length c.out_data)
          ≡ ok (wire format.fields m) =
        unfold net_msg_pack written_or_none in
        rw
          (
            pack-wire format.fields m packet (capacity - length c.out_data) valid holds,
            if_room-within (wire format.fields m) (capacity - length c.out_data)
                (omega (arith, fits)),
          )
          refl in
      rw (live, header, found, same) (rw (wide, packs) refl)

  -- When the socket takes the whole, not empty queue of a secured and live connection, the queue is
  -- empty afterwards. When also the peer is secured, its cipher stands where the sender's does, and the
  -- queued bytes fit behind those it has kept, the peer dispatches exactly these bytes behind those,
  -- to handlers that change what they may, and its cipher is where the sender's is again.
  pub send-receive :
      (leave_game : S → S) (c peer : Connection S)
      → p.secured c.state ≡ true
      → p.is_removed c.state ≡ false
      → 1 ≤ length c.out_data
      → p.secured peer.state ≡ true
      → peer.decrypt ≡ c.encrypt
      → length peer.in_data + length c.out_data ≤ capacity
      → (c' : Connection S) × (net_conn_send p (taken (length c.out_data)) c ≡ ok c')
        × (c'.out_data ≡ [])
        × (receive p leave_game (chunk (send_data c)) peer ≡ (
            dispatch (protocol p) (peer.in_data ++ c.out_data) (outgoing peer) >>= λ r. ok (record {
              encrypt = r.0.encrypt;
              decrypt = c'.encrypt;
              in_data = in_after p (peer.in_data ++ c.out_data) r.1;
              out_data = r.0.out_data;
              state = r.0.state;
            })))
  send-receive leave_game c peer secured live waiting peer_secured same fits =
      let fits' : length peer.in_data + length (send_data c) ≤ capacity =
        omega (arith, fits, length-crypt c.encrypt c.out_data) in
      let received = receive-chunk p leave_game peer (send_data c) peer_secured fits' in
      (
        record c { encrypt = (crypt c.encrypt c.out_data).0; out_data = [] },
        sent_all c secured live waiting,
        refl,
        received ∙ rw (same, crypt-crypt c.encrypt c.out_data) refl,
      )
