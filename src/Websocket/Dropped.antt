-- ===== src/Websocket/Dropped.antt =====
-- A client of pkg/websocket whose buffer is full when the hub broadcasts.
use realtime_order_inventory.Prelude.{◌+◌, ◌≡◌, String, true, false, List, arith}
use realtime_order_inventory.Websocket.Hub.{
  Client, can_send, drop_client, count_closed, keep, unregister_client, broadcast_client,
}
use realtime_order_inventory.Websocket.Client.{Request, handle_message, send_json}

module _ (c : Client) (m : String) (here : c.registered ≡ true) (open_ : c.closed ≡ false)
    (full : can_send c ≡ false) where
  -- A broadcast drops a client whose buffer is full and does not panic itself; the next ping that
  -- ReadPump reads from that client sends on its closed channel.
  pub dropped_client_panics :
      (confirmation : String → List String → String) (pong channel : String)
      (channels : List String)
      → let dropped = broadcast_client m c in
        let ping : Request = record { action = "ping"; channel = channel; channels = channels } in
        (dropped.client.registered ≡ false)
        × (dropped.panics ≡ 0)
        × ((handle_message confirmation pong ping dropped.client).panics ≡ 1)
  unfolding broadcast_client drop_client count_closed keep handle_message send_json
  dropped_client_panics confirmation pong channel channels = (
    ground (arith, here, open_, full),
    ground (arith, here, open_, full),
    simp (here, open_, full),
  )

  -- A broadcast takes a client whose buffer is full off the gauge, and so does ReadPump when the
  -- connection ends: one client is subtracted twice.
  pub dropped_client_counted_twice :
      (broadcast_client m c).removed + (unregister_client (broadcast_client m c).client).removed ≡ 2
  unfolding broadcast_client drop_client unregister_client keep
  dropped_client_counted_twice = simp (here, open_, full)
