-- ===== src/Client/Network/Connection.antt =====
-- `NetMsg_Pack`, `SendPacket`, `NetConn_Send` and `NetConn_Recv` of code/client/network.c: how a
-- connection encodes, encrypts, sends, receives and decrypts. The mutex of the connection makes
-- each of them one step. The socket is not under this code: what `send` and `recv` return is an
-- argument. A handler may do what it does to its connection, so it may send: it has the queue, the
-- sending cipher and the state. It returns, and it does not free the buffers.
pub mod Stream
pub mod Queue
mod Tests
use headquarter.Base.{ℕ, ◌-◌, List, [], ◌∷◌, ◌++◌, Option, none, some, bit_and}
use headquarter.Base.{length, drop, get_elem?, ltb, leb, Bool, ◌==◌, if◌then◌else◌}
use headquarter.Base.{Outcome, ok, refused, aborted, fault, or_fault, ◌>>=◌}
use headquarter.Common.Endian.{le16dec}
use headquarter.Client.Arc4.{Arc4, crypt}
use headquarter.Client.Network.Fields.{MsgField, MsgFormat}
use headquarter.Client.Network.Pack.{pack}
use headquarter.Client.Network.Dispatch.{Exit, Protocol, dispatch}

-- What `init_connection` reserves for `in` and for `out`; neither grows afterwards.
abbrev pub capacity : ℕ
capacity = 5840

-- What a handler may change: the sending cipher and the queue, by `SendPacket` and `NetConn_Send`,
-- and the state, the flags of the connection among it.
pub record Outgoing (S : Type 0) : Type 0 where
  pub encrypt : Arc4
  pub out_data : List ℕ
  pub state : S

-- The formats of the server's messages, the table of handlers, the test of NETCONN_REMOVE, the field
-- `secured`, and `NetConn_HardShutdown`, which only sets a flag.
pub record Endpoint (S : Type 0) : Type 0 where
  pub formats : List MsgFormat
  pub handlers : List (Option (ℕ → List ℕ → Outgoing S → Outgoing S))
  pub is_removed : S → Bool
  pub secured : S → Bool
  pub hard_shutdown : S → S

-- `in_data` and `out_data` are the used parts of the buffers `in` and `out`.
pub record Connection (S : Type 0) : Type 0 where
  pub encrypt : Arc4
  pub decrypt : Arc4
  pub in_data : List ℕ
  pub out_data : List ℕ
  pub state : S

-- The result of `send`: SOCKET_ERROR, or how many bytes were taken.
pub data Sent : Type 0 where
  send_error : Sent
  taken : ℕ → Sent

-- The result of `recv`: bytes, at most as many as `in` has room for, an error that means to try
-- again later, or another one.
pub data Received : Type 0 where
  chunk : List ℕ → Received
  would_block : Received
  recv_error : Received

-- 0 bytes written when `pack` refuses.
unfoldable pub written_or_none : Outcome (List ℕ) → Outcome (List ℕ)
written_or_none (ok bytes) = ok bytes
written_or_none refused = ok []
written_or_none aborted = aborted
written_or_none fault = fault

unfoldable pub net_msg_pack : MsgFormat → List ℕ → ℕ → Outcome (List ℕ)
unfolding written_or_none
net_msg_pack format packet room = written_or_none (pack format.fields packet room)

-- The buffer that `NetConn_Send` passes to `send`.
abbrev pub send_data : {S : Type 0} → Connection S → List ℕ
send_data c = (crypt c.encrypt c.out_data).1

-- The part of a connection that its handlers may change.
abbrev pub outgoing : {S : Type 0} → Connection S → Outgoing S
outgoing c = record { encrypt = c.encrypt; out_data = c.out_data; state = c.state }

module _ {S : Type 0} (p : Endpoint S) where
  -- What the loop of `NetConn_DispatchPackets` runs with.
  abbrev pub protocol : Protocol (Outgoing S)
  protocol = record {
    formats = p.formats;
    handlers = p.handlers;
    is_removed = λ out. p.is_removed out.state;
    hard_shutdown = λ out. record {
      encrypt = out.encrypt;
      out_data = out.out_data;
      state = p.hard_shutdown out.state;
    };
  }

  -- The queue and the state after `send`: what was not taken moves to the start of the buffer.
  unfoldable pub after_send : Connection S → Sent → List ℕ × S
  after_send c send_error = (send_data c, p.hard_shutdown c.state)
  after_send c (taken n) = (drop n (send_data c), c.state)

  -- `assert(conn && conn->secured)`; the buffer is encrypted in place before it is sent.
  unfoldable pub net_conn_send : Sent → Connection S → Outcome (Connection S)
  unfolding after_send
  net_conn_send sent c =
      let left = after_send c sent in
      let sends : Connection S = record {
        encrypt = (crypt c.encrypt c.out_data).0;
        decrypt = c.decrypt;
        in_data = c.in_data;
        out_data = left.0;
        state = left.1;
      } in
      if p.secured c.state
      then if p.is_removed c.state then ok c else if length c.out_data == 0 then ok c else ok sends
      else aborted

  -- `client_msg_format`, with the assertions on the format of a request.
  unfoldable pub request_format : List MsgFormat → ℕ → ℕ → Outcome MsgFormat
  request_format formats header size = elim (get_elem? formats header) [
    | none ↦ aborted
    | some format ↦
        if header == format.header
        then if size == format.unpack_size then ok format else aborted
        else aborted
  ]

  -- A full buffer is sent first.
  unfoldable pub make_room : Sent → Connection S → Outcome (Connection S)
  make_room sent c = if ltb (capacity - length c.out_data) 2 then net_conn_send sent c else ok c

  -- The struct `packet` is `size` bytes long; when `pack` refuses it, the request is dropped.
  unfoldable pub send_packet :
      List MsgFormat → Sent → List ℕ → Connection S → Outcome (Connection S)
  send_packet formats sent packet c =
      let sends = (do
        word ← or_fault (le16dec packet)
        format ← request_format formats (bit_and word 0x7fff) (length packet)
        c' ← make_room sent c
        let room = capacity - length c'.out_data
        written ← (if ltb room 2 then aborted else net_msg_pack format packet room)
        ok (record {
          encrypt = c'.encrypt;
          decrypt = c'.decrypt;
          in_data = c'.in_data;
          out_data = c'.out_data ++ written;
          state = c'.state;
        })) in
      if p.is_removed c.state then ok c else sends

  -- What is left in `in` when the loop of `NetConn_DispatchPackets` ends.
  unfoldable pub in_after : List ℕ → Exit → List ℕ
  in_after bytes (Exit.kept rest) = rest
  in_after bytes Exit.removed = []
  in_after bytes Exit.bad_header = bytes

  -- What is done with the result of `recv`. It has no more bytes than were asked for, the room that is
  -- left in `in`; more would be written past the end. `conn->in` is dispatched with the bytes that
  -- have been decrypted behind it, and the handlers work on the connection itself.
  unfoldable pub after_recv : (S → S) → Received → Connection S → Outcome (Connection S)
  unfolding in_after
  after_recv leave_game would_block c = ok c
  after_recv leave_game recv_error c = ok (record {
    encrypt = c.encrypt;
    decrypt = c.decrypt;
    in_data = c.in_data;
    out_data = c.out_data;
    state = leave_game (p.hard_shutdown c.state);
  })
  after_recv leave_game (chunk bytes) c =
      let (decrypt, plain) = crypt c.decrypt bytes in
      let dispatched = (do
        (out, exit) ← dispatch protocol (c.in_data ++ plain) (outgoing c)
        ok (record {
          encrypt = out.encrypt;
          decrypt = decrypt;
          in_data = in_after (c.in_data ++ plain) exit;
          out_data = out.out_data;
          state = out.state;
        })) in
      if leb (length bytes) (capacity - length c.in_data) then dispatched else fault

  -- `assert(conn && conn->secured)` comes first.
  unfoldable pub receive : (S → S) → Received → Connection S → Outcome (Connection S)
  unfolding after_recv
  receive leave_game received c =
      let received' = after_recv leave_game received c in
      if p.secured c.state then received' else aborted
