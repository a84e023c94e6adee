-- ===== src/Client/Network/Update.antt =====
-- `NetConn_Update`, `NetConn_HardShutdown` and `NetConn_IsShutdown` of code/client/network.c, on the
-- fields of a connection that they use, with all that the handlers change besides in `data`.
pub mod Shutdown
mod Tests
use headquarter.Base.{
  ℕ, ◌-◌, ◌^◌, List, [], Option, Bool, true, false, not, ◌||◌, ◌==◌, if◌then◌else◌, bit_and, bit_or,
  Outcome, ok, ◌>>=◌,
}
use headquarter.Client.Network.Fields.{MsgFormat}
use headquarter.Client.Network.Connection.{
  Connection, Outgoing, Endpoint, Sent, Received, net_conn_send, receive,
}

-- `NETCONN_SHUTDOWN` and `NETCONN_REMOVE`
abbrev pub netconn_shutdown : ℕ
netconn_shutdown = 2

abbrev pub netconn_remove : ℕ
netconn_remove = 4

-- -1 as 32 bits.
abbrev pub invalid_socket : ℕ
invalid_socket = 2 ^ 32 - 1

pub record Link (D : Type 0) : Type 0 where
  pub handle : ℕ
  pub flags : ℕ
  pub ping : ℕ
  pub pong : ℕ
  pub latency : ℕ
  pub last_tick_time : ℕ
  pub secured : Bool
  pub data' : D

module _ {D : Type 0} where
  abbrev pub has_flag : Link D → ℕ → Bool
  has_flag link flag = not (bit_and link.flags flag == 0)

  unfoldable pub net_conn_hard_shutdown : Link D → Link D
  net_conn_hard_shutdown link = record link { flags = bit_or link.flags netconn_shutdown }

  unfoldable pub net_conn_is_shutdown : Link D → Bool
  net_conn_is_shutdown link = link.handle == 0 || link.handle == invalid_socket

  -- What the operations of a connection use of it, with the formats and the handlers.
  abbrev pub link_endpoint :
      List MsgFormat
      → List (Option (ℕ → List ℕ → Outgoing (Link D) → Outgoing (Link D)))
      → Endpoint (Link D)
  link_endpoint formats handlers = record {
    formats = formats;
    handlers = handlers;
    is_removed = λ link. has_flag link netconn_remove;
    secured = λ link. link.secured;
    hard_shutdown = net_conn_hard_shutdown;
  }

  -- The end of NetConn_Update for a connection that has been shut down. The ciphers stay as they are.
  unfoldable pub close : Connection (Link D) → Connection (Link D)
  close c = record c {
    in_data = [];
    out_data = [];
    state = record (c.state) {
      handle = invalid_socket;
      flags = 0;
      ping = 0;
      pong = 0;
      latency = 0;
      last_tick_time = 0;
      secured = false;
    };
  }

  -- `leave_game` is what NetConn_Recv does to the client when `recv` fails.
  unfoldable pub net_conn_update :
      Endpoint (Link D)
      → (Link D → Link D)
      → Sent
      → Received
      → Connection (Link D)
      → Outcome (Connection (Link D))
  net_conn_update p leave_game sent received c =
      let updated = (do
        c1 ← net_conn_send p sent c
        c' ← receive p leave_game received c1
        ok (if has_flag c'.state netconn_shutdown then close c' else c')) in
      if net_conn_is_shutdown c.state then ok c else updated
