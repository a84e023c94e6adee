-- ===== src/Client/Network/Update/Shutdown.antt =====
-- How a connection ends.
use headquarter.Base.{
  ℕ, ◌/◌, ◌≡◌, refl, List, [], Option, true, false, ◌==◌, bit_and, bit_or, bit_and_step,
  bit_or_step, bit_and_mask, ok, arith, length, Bool-cases, inl, inr,
}
use headquarter.Client.Arc4.{crypt}
use headquarter.Client.Network.Fields.{MsgFormat}
use headquarter.Client.Network.Connection.{
  Connection, Outgoing, Endpoint, Sent, taken, send_error, Received, recv_error, net_conn_send,
  receive, after_recv, after_send,
}
use headquarter.Client.Network.Update.{
  Link, netconn_shutdown, netconn_remove, has_flag, net_conn_hard_shutdown, net_conn_is_shutdown,
  link_endpoint, close, net_conn_update,
}

bit_and_two : (x : ℕ) → (bit_and (bit_or x 2) 2 == 0) ≡ false
bit_and_two x =
    let outer = bit_and_step (bit_or x 2) 2 in
    let inner = bit_or_step x 2 in
    let low = bit_or_step (x / 2) 1 in
    let mask = bit_and_mask 1 (bit_or x 2 / 2) in ground (arith, outer, inner, low, mask)

-- A connection that is not in use any more.
pub record IsClosed {D : Type 0} (c : Connection (Link D)) : Type 0 where
  pub shut : net_conn_is_shutdown c.state ≡ true
  pub flags : c.state.flags ≡ 0
  pub secured : c.state.secured ≡ false
  pub in_data : c.in_data ≡ []
  pub out_data : c.out_data ≡ []

module _ {D : Type 0} where
  shutdown-has_flag :
      (link : Link D) → has_flag (net_conn_hard_shutdown link) netconn_shutdown ≡ true
  unfolding net_conn_hard_shutdown
  shutdown-has_flag link = rw (bit_and_two link.flags) refl

  close-IsClosed : (c : Connection (Link D)) → IsClosed (close c)
  unfolding close net_conn_is_shutdown
  close-IsClosed c = record {
    shut = refl;
    flags = refl;
    secured = refl;
    in_data = refl;
    out_data = refl;
  }

  update-closed :
      (p : Endpoint (Link D)) (leave_game : Link D → Link D) (sent : Sent) (received : Received)
      (c : Connection (Link D))
      → net_conn_is_shutdown c.state ≡ true
      → net_conn_update p leave_game sent received c ≡ ok c
  unfolding net_conn_update
  update-closed p leave_game sent received c shut = rw (shut) refl

  -- Sending leaves a connection secured, whatever the socket takes.
  send-secured :
      (formats : List MsgFormat)
      (handlers : List (Option (ℕ → List ℕ → Outgoing (Link D) → Outgoing (Link D)))) (sent : Sent)
      (c : Connection (Link D))
      → c.state.secured ≡ true
      → (c1 : Connection (Link D)) × (net_conn_send (link_endpoint formats handlers) sent c ≡ ok c1)
        × (c1.state.secured ≡ true)
  unfolding net_conn_send after_send net_conn_hard_shutdown
  send-secured formats handlers sent c secured =
      elim (Bool-cases (has_flag c.state netconn_remove)) [
        | inl gone ↦ (c, rw (secured, gone) refl, secured)
        | inr live ↦ elim (Bool-cases (length c.out_data == 0)) [
          | inl nothing ↦ (c, rw (secured, live, nothing) refl, secured)
          | inr some_left ↦ (
            record {
              encrypt = (crypt c.encrypt c.out_data).0;
              decrypt = c.decrypt;
              in_data = c.in_data;
              out_data = (after_send (link_endpoint formats handlers) c sent).0;
              state = (after_send (link_endpoint formats handlers) c sent).1;
            },
            rw (secured, live, some_left) refl,
            stays sent,
          )
        ]
      ]
    where
      stays : (sent : Sent) → (after_send (link_endpoint formats handlers) c sent).1.secured ≡ true
      stays send_error = secured
      stays (taken n) = secured

  -- When `recv` fails with anything but "try again" on an open and secured connection, and leaving the
  -- game keeps the flags, the update ends with the connection closed: its socket is invalid, its flags
  -- are clear, it is not secured, and its buffers are empty. Whatever would be sent or received, the
  -- next update leaves it so.
  pub net_conn_update-IsClosed :
      (formats : List MsgFormat)
      (handlers : List (Option (ℕ → List ℕ → Outgoing (Link D) → Outgoing (Link D))))
      (leave_game : Link D → Link D) (sent later_sent : Sent) (later : Received)
      (c : Connection (Link D))
      → ((link : Link D) → (leave_game link).flags ≡ link.flags)
      → net_conn_is_shutdown c.state ≡ false
      → c.state.secured ≡ true
      → (c' : Connection (Link D)) × (net_conn_update
            (link_endpoint formats handlers)
            leave_game
            sent
            recv_error
            c
          ≡ ok c')
        × IsClosed c'
        × (net_conn_update (link_endpoint formats handlers) leave_game later_sent later c' ≡ ok c')
  unfolding net_conn_update receive after_recv
  net_conn_update-IsClosed formats handlers leave_game sent later_sent later c keeps is_open
        secured =
      let p = link_endpoint formats handlers in
      let (c1, sends, secured1) = send-secured formats handlers sent c secured in
      let c2 = record c1 { state = leave_game (net_conn_hard_shutdown c1.state) } in
      let flag : has_flag c2.state netconn_shutdown ≡ true =
        rw (keeps (net_conn_hard_shutdown c1.state)) (shutdown-has_flag c1.state) in
      (
        close c2,
        rw (is_open, sends, secured1, flag) refl,
        close-IsClosed c2,
        update-closed p leave_game later_sent later (close c2) (close-IsClosed c2).shut,
      )
