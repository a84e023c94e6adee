-- ===== src/Client/Network/Update/Tests.antt =====
-- A connection on socket 3 with a byte that is not dispatched yet, whose peer resets it.
use headquarter.Base.{ℕ, ◌≡◌, refl, [], ◌∷◌, true, false, ok}
use headquarter.Client.Arc4.{Arc4}
use headquarter.Client.Network.Connection.{Connection, taken, recv_error, would_block}
use headquarter.Client.Network.Update.{Link, link_endpoint, net_conn_is_shutdown, net_conn_update}
use headquarter.Client.Network.Update.Shutdown.{IsClosed, net_conn_update-IsClosed}

abbrev cipher : Arc4
cipher = record { x = 0; y = 0; m = [] }

abbrev sample : Connection (Link ℕ)
sample = record {
  encrypt = cipher;
  decrypt = cipher;
  in_data = 5 ∷ [];
  out_data = [];
  state = record {
    handle = 3;
    flags = 8;
    ping = 1;
    pong = 2;
    latency = 3;
    last_tick_time = 4;
    secured = true;
    data' = 0;
  };
}

sample-is_open : net_conn_is_shutdown sample.state ≡ false
unfolding net_conn_is_shutdown
sample-is_open = refl

net_conn_update-IsClosed_example :
    (c' : Connection (Link ℕ)) × (net_conn_update
        (link_endpoint [] [])
        (λ link. link)
        (taken 0)
        recv_error
        sample
      ≡ ok c')
    × IsClosed c'
    × (net_conn_update (link_endpoint [] []) (λ link. link) (taken 1) would_block c' ≡ ok c')
net_conn_update-IsClosed_example =
    net_conn_update-IsClosed [] [] (λ link. link) (taken 0) (taken 1) would_block sample
      (λ link. refl) sample-is_open refl
