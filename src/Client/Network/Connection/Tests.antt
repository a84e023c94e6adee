-- ===== src/Client/Network/Connection/Tests.antt =====
-- A small protocol, two messages of it, and two connections.
use headquarter.Base.{
  ℕ, List, [], ◌∷◌, ◌++◌, some, ◌≡◌, ◌≤◌, ◌≢◌, ◌+◌, bit_and, refl, length, ok, ◌>>=◌,
}
use headquarter.Base.{arith, false, true}
use headquarter.Client.Arc4.{Arc4, crypt}
use headquarter.Client.Arc4.Stream.{crypt-crypt, length-crypt}
use headquarter.Common.Endian.{le16dec}
use headquarter.Client.Network.Fields.{FieldType, MsgFormat, get_prefix_size, get_element_size}
use headquarter.Client.Network.Message.{
  Message, wire, IsMessage, Holds, wire_count, struct_count, has_count, static_count,
}
use headquarter.Client.Network.Buffer.{write_at}
use headquarter.Client.Network.Unpack.{unpack, read_prefix, read_elements, continue}
use headquarter.Client.Network.Dispatch.{Exit, dispatch, round, loop, handle}
use headquarter.Client.Network.Dispatch.Chunks.{dispatch-round, dispatch-append}
use headquarter.Client.Network.Connection.{
  Connection, Outgoing, Endpoint, protocol, outgoing, taken, chunk, send_data,
}
use headquarter.Client.Network.Connection.{
  capacity, net_conn_send, send_packet, receive, in_after, request_format,
}
use headquarter.Client.Network.Connection.Stream.{receive-append}
use headquarter.Client.Network.Connection.Queue.{
  send_packet-bounded, send_packet-wire, send-receive,
}

-- Message 0 is a header and a byte.
abbrev ping : MsgFormat
ping = record {
  header = 0;
  fields =
      record { type = FieldType.msg_header; param = 0; size = 0 }
      ∷ record { type = FieldType.byte; param = 0; size = 0 }
      ∷ [];
  unpack_size = 3;
}

-- The state is the list of what was handled, and the answer to a ping is a byte that is queued.
abbrev server : Endpoint (List ℕ)
server = record {
  formats = ping ∷ [];
  handlers =
      some (λ size packet out. record {
        encrypt = out.encrypt;
        out_data = out.out_data ++ (5 ∷ []);
        state = out.state ++ packet;
      })
      ∷ [];
  is_removed = λ s. false;
  secured = λ s. true;
  hard_shutdown = λ s. s;
}

-- One whole message, and the start of another.
abbrev first : List ℕ
first = 0 ∷ 0 ∷ 7 ∷ 0 ∷ []

abbrev second : List ℕ
second = 0 ∷ 8 ∷ []

-- Both ends start from this context.
abbrev context : Arc4
context = record { x = 0; y = 0; m = 3 ∷ 1 ∷ 2 ∷ 0 ∷ [] }

abbrev near : Connection (List ℕ)
near = record {
  encrypt = context;
  decrypt = context;
  in_data = [];
  out_data = 9 ∷ 9 ∷ [];
  state = [];
}

abbrev far : Connection (List ℕ)
far = record { encrypt = context; decrypt = context; in_data = 0 ∷ []; out_data = []; state = [] }

-- What the handler leaves after the first message, and after the second.
abbrev once : Outgoing (List ℕ)
once = record { encrypt = context; out_data = 5 ∷ []; state = 0 ∷ 0 ∷ 7 ∷ [] }

abbrev twice : Outgoing (List ℕ)
twice = record { encrypt = context; out_data = 5 ∷ 5 ∷ []; state = 0 ∷ 0 ∷ 7 ∷ 0 ∷ 0 ∷ 8 ∷ [] }

unread : dispatch (protocol server) (0 ∷ 0 ∷ 8 ∷ []) once ≡ ok (twice, Exit.kept [])
unfolding dispatch unpack read_prefix read_elements continue write_at get_prefix_size
    get_element_size le16dec loop round handle
unread = refl

first_kept : dispatch (protocol server) first (outgoing far) ≡ ok (once, Exit.kept (0 ∷ []))
unfolding dispatch unpack read_prefix read_elements continue write_at get_prefix_size
    get_element_size le16dec loop round handle
first_kept = refl

dispatch-round_example :
    dispatch (protocol server) first (outgoing far)
    ≡ round (protocol server) (dispatch (protocol server)) first (outgoing far)
dispatch-round_example = dispatch-round (protocol server) first (outgoing far)

dispatch-append_example :
    dispatch (protocol server) (first ++ second) (outgoing far)
    ≡ dispatch (protocol server) (0 ∷ [] ++ second) once
dispatch-append_example =
    dispatch-append (protocol server) first second (outgoing far) once (0 ∷ []) first_kept

-- What `far` receives when `first` and then `second` are sent.
abbrev chunk_a : List ℕ
chunk_a = (crypt context (0 ∷ 7 ∷ 0 ∷ [])).1

abbrev chunk_b : List ℕ
chunk_b = (crypt (crypt context (0 ∷ 7 ∷ 0 ∷ [])).0 second).1

chunk_a_kept :
    dispatch (protocol server) (far.in_data ++ (crypt far.decrypt chunk_a).1) (outgoing far)
    ≡ ok (once, Exit.kept (0 ∷ []))
chunk_a_kept = rw (crypt-crypt context (0 ∷ 7 ∷ 0 ∷ [])) first_kept

chunk_b_known :
    (t : Outgoing (List ℕ))
    → dispatch (protocol server) (0 ∷ [] ++ (crypt (crypt far.decrypt chunk_a).0 chunk_b).1) once
      ≢ ok (t, Exit.bad_header)
chunk_b_known t e =
    let plain : dispatch (protocol server) (0 ∷ 0 ∷ 8 ∷ []) once ≡ ok (t, Exit.bad_header) =
      rw
        (
          crypt-crypt context (0 ∷ 7 ∷ 0 ∷ []),
          crypt-crypt (crypt context (0 ∷ 7 ∷ 0 ∷ [])).0 second,
        )
        at e in
    ground (arith, unread, plain)

chunks_fit : length far.in_data + length chunk_a + length chunk_b ≤ capacity
chunks_fit = omega (
  arith,
  length-crypt context (0 ∷ 7 ∷ 0 ∷ []),
  length-crypt (crypt context (0 ∷ 7 ∷ 0 ∷ [])).0 second,
)

receive-append_example :
    receive server (λ s. s) (chunk (chunk_a ++ chunk_b)) far
    ≡ (receive server (λ s. s) (chunk chunk_a) far >>= receive server (λ s. s) (chunk chunk_b))
receive-append_example =
    receive-append server (λ s. s) far chunk_a chunk_b once (0 ∷ []) refl chunks_fit chunk_a_kept
      refl chunk_b_known

abbrev message : Message ping.fields
message = ((0 ∷ 0 ∷ []) ∷ [], ((7 ∷ []) ∷ [], tt))

message-IsMessage : IsMessage ping.fields message
unfolding get_prefix_size get_element_size
message-IsMessage = (
  record {
    sized = (refl, tt);
    scalar = λ e. refl;
    fits = λ n. absurd (n refl);
    text = λ e. ground (arith, e);
  },
  (
    record {
      sized = (refl, tt);
      scalar = λ e. refl;
      fits = λ n. absurd (n refl);
      text = λ e. ground (arith, e);
    },
    tt,
  ),
)

message-Holds : Holds ping.fields message (0 ∷ 0 ∷ 7 ∷ [])
unfolding get_prefix_size get_element_size struct_count has_count static_count
message-Holds = (
  7 ∷ [],
  record { pad = []; layout = refl; room = refl; terminated = λ e. ground (arith, e) },
  ([], record { pad = []; layout = refl; room = refl; terminated = λ e. ground (arith, e) }, tt),
)

found : request_format server (ping ∷ []) (bit_and 0 0x7fff) 3 ≡ ok ping
unfolding request_format
found = refl

header : le16dec (0 ∷ 0 ∷ 7 ∷ []) ≡ some 0
unfolding le16dec
header = refl

two : 2 ≤ length (wire ping.fields message)
unfolding wire_count get_prefix_size
two = ground arith

fits : length near.out_data + length (wire ping.fields message) ≤ capacity
unfolding wire_count get_prefix_size
fits = ground arith

send_packet-wire_example :
    send_packet server (ping ∷ []) (taken 0) (0 ∷ 0 ∷ 7 ∷ []) near
    ≡ ok (record near { out_data = near.out_data ++ wire ping.fields message })
send_packet-wire_example =
    send_packet-wire server (ping ∷ []) (taken 0) (0 ∷ 0 ∷ 7 ∷ []) near ping 0 message refl header
      found message-IsMessage message-Holds two fits

abbrev longer : Connection (List ℕ)
longer = record near { out_data = near.out_data ++ wire ping.fields message }

small : length near.out_data ≤ capacity
small = ground arith

send_packet-bounded_example : length longer.out_data ≤ capacity
send_packet-bounded_example =
    send_packet-bounded server (ping ∷ []) (taken 0) (0 ∷ 0 ∷ 7 ∷ []) near longer small
      send_packet-wire_example

waiting : 1 ≤ length near.out_data
waiting = ground arith

queue_fits : length far.in_data + length near.out_data ≤ capacity
queue_fits = ground arith

send-receive_example :
    (c' : Connection (List ℕ)) × (net_conn_send server (taken (length near.out_data)) near ≡ ok c')
    × (c'.out_data ≡ [])
    × (receive server (λ s. s) (chunk (send_data near)) far ≡ (
        dispatch (protocol server) (far.in_data ++ near.out_data) (outgoing far) >>= λ r.
        ok (record {
          encrypt = r.0.encrypt;
          decrypt = c'.encrypt;
          in_data = in_after server (far.in_data ++ near.out_data) r.1;
          out_data = r.0.out_data;
          state = r.0.state;
        })))
send-receive_example = send-receive server (λ s. s) near far refl refl waiting refl refl queue_fits
