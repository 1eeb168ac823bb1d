-- ===== src/Flight/Command/Tests.antt =====
-- A command replica, an endpoint and a pingback replica on which the theorems are applied.
use mathlib.Core.List.{map}
use hailburst.Prelude.{
  ℕ, ◌+◌, ◌<◌, ◌≡◌, refl, false, List, [], ◌∷◌, Option, none, some, length, get_elem?, Outcome, ok,
  aborted, arith,
}
use hailburst.Synch.Duct.{
  Duct, receive_prepare, receive_message, pick_candidate, check_message, check_sent, receive_commit,
  mark_consumed, send_prepare, send_message, send_commit, check_consumed, emit_counts,
  lookup_message,
}
use hailburst.Synch.Duct.Offer.{offered}
use hailburst.Synch.Duct.Send.{sent}
use hailburst.Synch.Duct.Receive.{reading_at}
use hailburst.Synch.Duct.Solo.{
  solo, solo-IsValid, loaded, loaded-IsValid, loaded-quorum, loaded-Offers, everyone, zero_clock,
}
use hailburst.Synch.Pipe.{
  Pipe, pipe_receiver_prepare, pipe_receive_prepare, request_count, refill, relocated,
  pipe_receive_message, pipe_receiver_has_next, pipe_receiver_read_byte, pipe_receiver_peek_byte,
  pipe_receiver_commit, pipe_receive_commit, count_extra,
}
use hailburst.Flight.Comm.{
  CommPacket, CommDec, comm_dec_prepare, comm_dec_decode, comm_dec_commit, decode_loop,
  comm_dec_next_symbol, decode_symbol, comm_packet_decode, comm_cmd_magic_num,
}
use hailburst.Flight.Comm.Frame.{frame, escape_all}
use hailburst.Flight.Telemetry.{async, TlmTxn, async_txn}
use hailburst.Flight.Command.Defs.{
  CmdEndpoint, EndpointState, CmdReplica, Pingback, duct_msg, command_execution_clip, pingback_clip,
}
use hailburst.Flight.Command.Dispatch.{
  commands, any_named, reports, IsEndpoint, AllEndpoints, handed,
}
use hailburst.Flight.Command.Clip.{command_execution_clip_lem}
use hailburst.Flight.Command.Ping.{ping_reports, pingback_clip_lem}

abbrev sum_bytes : ℕ → List ℕ → ℕ
sum_bytes c [] = c
sum_bytes c (b ∷ bs) = sum_bytes (c + b) bs

abbrev ping : CommPacket
ping = record { cmd_tlm_id = 0x01000001; timestamp_ns = 5; data_bytes = 1 ∷ 2 ∷ 3 ∷ 4 ∷ [] }

abbrev idle : EndpointState
idle = record { has_outstanding_reply = false; last_received = []; last_data_length = 0 }

abbrev endpoint : ℕ → Duct → CmdEndpoint
endpoint cid duct = record { cid = cid; duct = duct; mut_replicas = λ _. idle }

abbrev ping_line : List ℕ
ping_line = frame sum_bytes comm_cmd_magic_num ping

abbrev decoder : CommDec
decoder = record {
  uplink = record {
    replica_id = 0;
    scratch_capacity = 8 + length ping_line;
    scratch_offset = 0;
    unread = ping_line;
    pipe_txn = record { available = 0; data_txn = reading_at 0 0 };
  };
  decode_buffer = [];
  decode_in_progress = false;
  err_count = 0;
}

abbrev uplink : Pipe
uplink = record { last_requested = λ _. 0; dataflow = solo 8 1; pressure = solo 1 1 }

abbrev replica : CmdReplica
replica = record {
  endpoints = endpoint 0x01000001 (solo 12 1) ∷ endpoint 0x02000001 (solo 12 1) ∷ [];
  telemetry = async (solo 20 2);
  decoder = decoder;
  replica_id = 0;
}

abbrev or_else {ℓ} : {A : Type ℓ} → Outcome A → A → A
or_else (ok a) d = a
or_else aborted d = d

abbrev prepared : Pipe × CommDec
prepared = or_else (comm_dec_prepare zero_clock uplink decoder) (uplink, decoder)

abbrev decoded : CommDec × Option CommPacket
decoded = or_else (comm_dec_decode sum_bytes prepared.1) (decoder, none)

prepared-eq : comm_dec_prepare zero_clock uplink decoder ≡ ok prepared
unfolding comm_dec_prepare pipe_receiver_prepare pipe_receive_prepare receive_prepare request_count
    frame escape_all refill relocated pipe_receive_message receive_message pick_candidate
    check_message check_sent
prepared-eq = refl

decoded-eq : comm_dec_decode sum_bytes prepared.1 ≡ ok (decoded.0, some ping)
unfolding comm_dec_prepare pipe_receiver_prepare pipe_receive_prepare receive_prepare request_count
    frame escape_all refill relocated pipe_receive_message receive_message pick_candidate
    check_message check_sent comm_dec_decode decode_loop comm_dec_next_symbol decode_symbol
    comm_packet_decode pipe_receiver_has_next pipe_receiver_read_byte pipe_receiver_peek_byte
decoded-eq = refl

abbrev closed : Pipe
closed = or_else (comm_dec_commit zero_clock prepared.0 decoded.0) uplink

closed-eq : comm_dec_commit zero_clock prepared.0 decoded.0 ≡ ok closed
unfolding comm_dec_prepare pipe_receiver_prepare pipe_receive_prepare receive_prepare request_count
    frame escape_all refill relocated pipe_receive_message receive_message pick_candidate
    check_message check_sent comm_dec_decode decode_loop comm_dec_next_symbol decode_symbol
    comm_packet_decode pipe_receiver_has_next pipe_receiver_read_byte pipe_receiver_peek_byte
    comm_dec_commit pipe_receiver_commit pipe_receive_commit count_extra receive_commit
    mark_consumed send_prepare send_message send_commit check_consumed emit_counts lookup_message
closed-eq = refl

replica-AllEndpoints : AllEndpoints 0 replica.endpoints
replica-AllEndpoints = (
  (solo-IsValid 12 1 (omega arith) (omega arith), omega arith, refl),
  ((solo-IsValid 12 1 (omega arith) (omega arith), omega arith, refl), tt),
)

command_execution_clip_lem_example :
    (d' : Duct) × (command_execution_clip sum_bytes zero_clock 9 false uplink replica
      ≡ ok (
        closed,
        record replica {
          endpoints = map (handed zero_clock 0 (some ping)) replica.endpoints;
          telemetry = async d';
          decoder = decoded.0;
        },
      ))
    × ((r k : ℕ)
        → r < 1
        → offered d' r k 0
          ≡ get_elem?
              (map sent (reports 9 (some ping) (any_named (some ping) replica.endpoints)))
              k)
    × ((ce : CmdEndpoint) (r k : ℕ)
        → IsEndpoint 0 ce
        → r < ce.duct.receiver_replicas
        → offered (handed zero_clock 0 (some ping) ce).duct r k 0
          ≡ get_elem? (map sent (commands (some ping) ce)) k)
command_execution_clip_lem_example =
    command_execution_clip_lem sum_bytes zero_clock 9 false uplink prepared.0 closed replica
      (solo 20 2) prepared.1 decoded.0 (some ping) refl
      (solo-IsValid 20 2 (omega arith) (omega arith)) (omega arith) refl (omega arith)
      replica-AllEndpoints prepared-eq decoded-eq closed-eq

-- An endpoint whose duct holds the command.
abbrev informed : CmdEndpoint
informed = endpoint 0x01000001 (loaded 12 1 ((duct_msg ping, 0) ∷ []))

abbrev report_txn : TlmTxn
report_txn = async_txn (solo 20 2) (reading_at 0 0)

abbrev pingback : Pingback
pingback = record { telemetry = async (solo 20 2); command = informed; replica_id = 0 }

pingback_clip_lem_example :
    (p' : Pingback) × (d' : Duct) × (pingback_clip zero_clock 9 pingback ≡ ok p')
    × (p'.telemetry ≡ async d')
    × ((p'.command.mut_replicas 0).has_outstanding_reply ≡ false)
    × ((s k : ℕ)
        → s < 1
        → offered d' s k 0 ≡ get_elem? (map sent (ping_reports 9 0x01000001 (some ping))) k)
pingback_clip_lem_example =
    pingback_clip_lem zero_clock 9 pingback (solo 20 2) refl
      (solo-IsValid 20 2 (omega arith) (omega arith)) (omega arith) refl (omega arith)
      (loaded-IsValid 12 1 (omega arith) (omega arith) ((duct_msg ping, 0) ∷ [])) refl (omega arith)
      everyone (loaded-quorum 12 1 (omega arith) (omega arith) ((duct_msg ping, 0) ∷ []))
      (some ping) (omega arith)
      (loaded-Offers 12 1 (omega arith) (omega arith) ((duct_msg ping, 0) ∷ []) (omega arith)
        (omega arith, omega arith, tt))
      refl
