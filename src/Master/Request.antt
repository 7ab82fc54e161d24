-- ===== src/Master/Request.antt =====
-- src/masterRx.c: a request to join, on a master that runs.
use microbus.Common.{
  ℕ, ◌<◌, ◌≡◌, ◌≢◌, inl, inr, refl, true, ◌==◌, Option, none, some, Bool-cases, Option-cases, arith,
}
use microbus.Packet.{Packet, new_node_request_packet, get_packet_type, data_at}
use microbus.NetworkManager.{network_manager_register_new_node}
use microbus.NetworkManager.Join.{rx_new_node_packet_request, get_bytes}
use microbus.NetworkManager.Joining.{registers}
use microbus.Master.{Master}
use microbus.Master.Membership.{members_of}
use microbus.Master.Rx.{master_process_rx, process_packet, process_request}
use microbus.Master.Run.{Runs}
use microbus.Master.Served.{master-IsNetwork}

-- The packet that the master has to process, and the unique id in a request.
abbrev pub packet_at : Master → ℕ → Packet
packet_at m e = (m.rx.rx_packet_manager.rx_packet_entries e).packet

abbrev pub unique_id_at : Master → ℕ → ℕ
unique_id_at m e = get_bytes 8 (data_at 0) (packet_at m e).body

-- What the master does with a request to join: it stops, or it returns.
pub data Answers (m : Master) (e : ℕ) (out : Option (ℕ × Master)) : Type 0 where
  wrong_size : (packet_at m e).data_size2 ≢ 9 → out ≡ none → Answers m e out
  no_name : unique_id_at m e ≡ 0 → out ≡ none → Answers m e out
  takes :
      {x : ℕ × Master}
      → (packet_at m e).data_size2 ≡ 9
      → 0 < unique_id_at m e
      → out ≡ some x
      → Answers m e out

-- A master that runs, with a request to join to process, whatever node sent it: masterProcessRx fails
-- an assertion, which stops the master, exactly if the low byte of the size is not 9 or the unique id
-- is 0, and returns otherwise.
pub request_stops :
    {m : Master} (e : ℕ)
    → Runs m
    → m.rx.valid_rx_packet ≡ true
    → m.rx.prev_rx_packet_entry ≡ some e
    → get_packet_type (packet_at m e) ≡ new_node_request_packet
    → Answers m e (master_process_rx m)
unfolding master_process_rx process_packet process_request rx_new_node_packet_request
    network_manager_register_new_node
request_stops {m} e runs valid prev kind =
    let net = (master-IsNetwork {m = m} runs).1 in
    elim (Bool-cases ((packet_at m e).data_size2 == 9)) [
      | inr other ↦ wrong_size (ground arith) (
          rw
            (
              valid, prev, kind, other, master_process_rx, process_packet, process_request,
              rx_new_node_packet_request,
            )
            refl)
      | inl right ↦ elim (Bool-cases (unique_id_at m e == 0)) [
        | inl nameless ↦ no_name (ground arith) (
            rw
              (
                valid, prev, kind, right, nameless, master_process_rx, process_packet,
                process_request, rx_new_node_packet_request, network_manager_register_new_node,
              )
              refl)
        | inr named ↦
            let x =
              registers (members_of m) (unique_id_at m e) m.stats.network_full_count (ground arith)
                net in
            elim (Option-cases (master_process_rx m)) [
              | inr (out, ok) ↦ takes (ground arith) (ground arith) ok
              | inl stopped ↦
                  let returns =
                    rw
                      (
                        valid, prev, kind, right, x.returns, master_process_rx, process_packet,
                        process_request, rx_new_node_packet_request,
                      )
                      at stopped in
                  absurd cc
            ]
      ]
    ]
