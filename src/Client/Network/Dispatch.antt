-- ===== src/Client/Network/Dispatch.antt =====
-- `NetMsg_Unpack` and `NetConn_DispatchPackets` of code/client/network.c. What a handler
-- may change (the client, the world, the flags, the queue and the sending cipher of the connection) is a
-- parameter `S`; handlers do not touch the bytes of `conn->in`, which the loop alone consumes.
pub mod Chunks
pub mod Kept
use headquarter.Base.{
  ℕ, zero, suc, List, [], ◌∷◌, Option, none, some, Bool, true, false, ltb, leb, ◌==◌,
}
use headquarter.Base.{length, drop, replicate, get_elem?, if◌then◌else◌}
use headquarter.Base.{Outcome, ok, refused, aborted, fault, or_fault, ◌>>=◌}
use headquarter.Common.Endian.{le16dec}
use headquarter.Client.Network.Fields.{MsgField, MsgFormat}
use headquarter.Client.Network.Unpack.{unpack}

-- `PacketBuffer` has 4096 bytes, of which a message of this format uses the first `unpack_size`,
-- zeroed. A write past those is taken for a fault, also where it stays within the 4096.
abbrev pub buffer_size : ℕ
buffer_size = 4096

unfoldable pub blank : MsgFormat → Outcome (List ℕ)
blank format =
    if leb format.unpack_size buffer_size then ok (replicate format.unpack_size 0) else fault

-- What `NetMsg_Unpack` makes of the result of `unpack`: 0 bytes read when it refuses.
unfoldable pub read_or_none : List ℕ → Outcome (ℕ × List ℕ) → Outcome (ℕ × List ℕ)
read_or_none buffer (ok r) = ok r
read_or_none buffer refused = ok (0, buffer)
read_or_none buffer aborted = aborted
read_or_none buffer fault = fault

unfoldable pub net_msg_unpack : MsgFormat → List ℕ → Outcome (ℕ × List ℕ)
unfolding blank read_or_none
net_msg_unpack format bytes = do
  buffer ← blank format
  read_or_none buffer (unpack format.fields bytes buffer)

-- How the loop leaves: with bytes to keep, with the connection flagged NETCONN_REMOVE, or at a
-- header that has no entry in `handlers`.
pub data Exit : Type 0 where
  kept : List ℕ → Exit
  removed : Exit
  bad_header : Exit

-- The formats of the server's messages, the table of handlers (a null pointer is `none`), the test
-- of NETCONN_REMOVE, and `NetConn_HardShutdown`.
pub record Protocol (S : Type 0) : Type 0 where
  pub formats : List MsgFormat
  pub handlers : List (Option (ℕ → List ℕ → S → S))
  pub is_removed : S → Bool
  pub hard_shutdown : S → S

module _ {S : Type 0} (p : Protocol S) where
  -- `assert(array_inside(&conn->server_msg_format, header))` and `assert(format.header == header)`.
  unfoldable pub find_format : ℕ → Outcome MsgFormat
  find_format header = elim (get_elem? p.formats header) [
    | none ↦ aborted
    | some format ↦ if format.header == header then ok format else aborted
  ]

  unfoldable pub call : Option (ℕ → List ℕ → S → S) → MsgFormat → List ℕ → S → S
  call none format packet s = s
  call (some handler) format packet s = handler format.unpack_size packet s

  -- After a message of `readed` bytes has been decoded, with its entry of the table of handlers.
  unfoldable pub handle :
      (List ℕ → S → Outcome (S × Exit))
      → Option (Option (ℕ → List ℕ → S → S))
      → MsgFormat
      → ℕ
      → List ℕ
      → List ℕ
      → S
      → Outcome (S × Exit)
  unfolding call
  handle next none format readed packet bytes s = ok (p.hard_shutdown s, bad_header)
  handle next (some handler) format readed packet bytes s =
      let s' = call handler format packet s in
      let rest = next (drop readed bytes) s' in if p.is_removed s' then ok (s', removed) else rest

  -- One round of the loop on the bytes that are left; `next` is the loop.
  unfoldable pub round : (List ℕ → S → Outcome (S × Exit)) → List ℕ → S → Outcome (S × Exit)
  unfolding find_format net_msg_unpack
  round next bytes s =
      let decoded = (do
        header ← or_fault (le16dec bytes)
        format ← find_format header
        (readed, packet) ← net_msg_unpack format bytes
        let stop : Outcome (S × Exit) = ok (s, kept bytes)
        let go = handle next (get_elem? p.handlers header) format readed packet bytes s
        if readed == 0 then stop else go) in
      if ltb (length bytes) 2 then ok (s, kept bytes) else decoded

  -- Every round but the last reads at least one byte, so as many rounds as there are bytes are
  -- enough.
  unfoldable pub loop : ℕ → List ℕ → S → Outcome (S × Exit)
  loop zero bytes s = ok (s, kept bytes)
  loop (suc fuel) bytes s = round (loop fuel) bytes s

  unfoldable pub dispatch : List ℕ → S → Outcome (S × Exit)
  dispatch bytes s = loop (length bytes) bytes s
