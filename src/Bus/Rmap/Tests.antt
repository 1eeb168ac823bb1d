-- ===== src/Bus/Rmap/Tests.antt =====
-- A client on which the theorems about RMAP are applied.
use hailburst.Prelude.{ℕ, ◌≤◌, ◌≡◌, refl, [], ◌∷◌, none, some, if◌then◌else◌, ok, arith}
use hailburst.Synch.Flag.{initial_flag}
use hailburst.Synch.Duct.{Duct, txn_send, txn_recv, missing_flow}
use hailburst.Bus.Rmap.Crc.{rmap_crc8}
use hailburst.Bus.Rmap.Defs.{RmapTxn, rmap_write_start, rmap_validate_read_reply}
use hailburst.Bus.Rmap.Replies.{read_reply, expected, rmap_validate_read_reply_lem}
use hailburst.Bus.Rmap.Requests.{MaySend, IsRoutable, Started, rmap_write_start-ok}

abbrev duct : Duct
duct = record {
  sender_replicas = 1;
  receiver_replicas = 1;
  max_flow = 1;
  message_size = 64;
  message_buffer = λ _. record { size = 0; timestamp = 0; body = [] };
  flow_status = λ _. missing_flow;
  flags_receive = λ _. initial_flag;
  flags_send = λ _. initial_flag;
}

abbrev txn : RmapTxn
txn = record {
  rmap = record {
    replica_id = 0;
    routing = record {
      destination = record { path_bytes = 2 ∷ 1 ∷ []; logical_address = 41 };
      source = record { path_bytes = 1 ∷ []; logical_address = 32 };
      dest_key = 101;
    };
  };
  current_txn_id = 0xFFFF;
  rx_duct = duct;
  rx_recv_txn = record { mode = txn_recv; replica_id = 0; flow_current = 0 };
  tx_duct = duct;
  tx_send_txn = record { mode = txn_send; replica_id = 0; flow_current = 0 };
}

txn-IsRoutable : IsRoutable txn.rmap.routing
txn-IsRoutable = record {
  destination_fits = omega arith;
  source_fits = omega arith;
  source_start = refl;
}

txn-MaySend : (room : ℕ) → room ≤ 64 → MaySend txn room
txn-MaySend room h = record {
  routable = txn-IsRoutable;
  sending = refl;
  replica = omega arith;
  flow = omega arith;
  size = h;
}

rmap_write_start-ok_example :
    (txn' : RmapTxn) × (rmap_write_start txn 0 0x2000 (1 ∷ 2 ∷ 3 ∷ []) ≡ ok txn')
    × Started txn
        (41 ∷ 1 ∷ 0x7D ∷ 101 ∷ 0 ∷ 0 ∷ 0 ∷ 1 ∷ 32 ∷ 0 ∷ 0 ∷ 0 ∷ 0 ∷ 0 ∷ 0x20 ∷ 0 ∷ 0 ∷ 0 ∷ 3 ∷ [])
        (1 ∷ 2 ∷ 3 ∷ rmap_crc8 (1 ∷ 2 ∷ 3 ∷ []) ∷ [])
        txn'
rmap_write_start-ok_example =
    rmap_write_start-ok txn 0 0x2000 (1 ∷ 2 ∷ 3 ∷ []) (txn-MaySend 44 (omega arith)) (omega arith)

rmap_validate_read_reply_lem_example :
    rmap_validate_read_reply txn (read_reply 32 1 0 41 0xFFFF (8 ∷ 9 ∷ [])) 4 ≡ (
      if expected txn 32 41 0xFFFF
      then some (record { status = 0; data_length = 2; data_out = 8 ∷ 9 ∷ [] })
      else none)
rmap_validate_read_reply_lem_example =
    rmap_validate_read_reply_lem txn 32 1 0 41 0xFFFF (omega arith) (omega arith) (8 ∷ 9 ∷ []) 4
      (omega arith)
