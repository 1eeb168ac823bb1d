-- ===== src/Flight/Command/Defs.antt =====
-- The data and the operations of flight/command.c, and the clip of flight/pingback.c.
use hailburst.Prelude.{
  ℕ, ◌-◌, Bool, true, false, ◌&&◌, ◌||◌, List, [], ◌∷◌, ◌++◌, Option, none, some, ◌==◌, ltb, leb,
  if◌then◌else◌, length, take, drop, update, le64, of_le64, of_be32, Outcome, ok, aborted, ◌>>=◌,
  ◌>>◌, assert,
}
use hailburst.Synch.Duct.{
  Duct, Txn, Packet, send_prepare, send_message, send_commit, receive_prepare, receive_message,
  receive_commit,
}
use hailburst.Synch.Pipe.{Pipe}
use hailburst.Flight.Comm.{
  CommPacket, CommDec, comm_dec_reset, comm_dec_prepare, comm_dec_decode, comm_dec_commit,
}
use hailburst.Flight.Telemetry.{
  TlmEndpoint, TlmTxn, telemetry_prepare, telemetry_commit, tlm_cmd_received, tlm_cmd_completed,
  tlm_cmd_not_recognized, tlm_pong,
}

-- COMMAND_MAX_PARAM_LENGTH, and the sizes of `mission_time_t` and `struct cmd_duct_msg`
abbrev pub max_param_length : ℕ
max_param_length = 4

abbrev pub sizeof_time : ℕ
sizeof_time = 8

abbrev pub sizeof_msg : ℕ
sizeof_msg = 12

-- `cmd_status_t`, and any other number.
pub data CmdStatus : Type 0 where
  status_ok status_fail status_unrecognized status_other : CmdStatus

-- `struct cmd_endpoint_mut`; `last_received` is the memory of a `struct cmd_duct_msg`.
pub record EndpointState : Type 0 where
  pub has_outstanding_reply : Bool
  pub last_received : List ℕ
  pub last_data_length : ℕ

-- `cmd_endpoint_t`
pub record CmdEndpoint : Type 0 where
  pub cid : ℕ
  pub duct : Duct
  pub mut_replicas : ℕ → EndpointState

-- The bytes of a `struct cmd_duct_msg` up to the end of the data.
abbrev pub duct_msg : CommPacket → List ℕ
duct_msg packet = le64 packet.timestamp_ns ++ packet.data_bytes

abbrev pub is_for : CommPacket → CmdEndpoint → Bool
is_for packet ce = packet.cmd_tlm_id == ce.cid && leb (length packet.data_bytes) max_param_length

-- Whether an endpoint takes the command, if there is one, and what it is sent.
abbrev pub takes : Option CommPacket → CmdEndpoint → Bool
takes none ce = false
takes (some packet) ce = is_for packet ce

abbrev pub send_command : Option CommPacket → Duct → Txn → Outcome (Duct × Txn)
send_command none d t = ok (d, t)
send_command (some packet) d t = send_message d t (duct_msg packet) 0

-- The loop of `command_execution_clip` over the endpoints.
unfoldable pub dispatch :
    (ℕ → ℕ) → ℕ → Option CommPacket → List CmdEndpoint → Bool → Outcome (List CmdEndpoint × Bool)
dispatch now replica_id found [] matched = ok ([], matched)
dispatch now replica_id found (ce ∷ rest) matched = do
  (d, t) ← send_prepare now ce.duct replica_id
  (d', t') ← if takes found ce then send_command found d t else ok (d, t)
  (d'', _) ← send_commit d' t'
  (rest', matched') ← dispatch now replica_id found rest (takes found ce || matched)
  ok (record ce { duct = d'' } ∷ rest', matched')

abbrev pub report_received : ℕ → TlmTxn → Option CommPacket → Outcome TlmTxn
report_received epoch telem none = ok telem
report_received epoch telem (some packet) =
    tlm_cmd_received epoch telem packet.timestamp_ns packet.cmd_tlm_id

abbrev pub report_unmatched : ℕ → TlmTxn → Option CommPacket → Bool → Outcome TlmTxn
report_unmatched epoch telem (some packet) false =
    tlm_cmd_not_recognized epoch telem packet.timestamp_ns packet.cmd_tlm_id
      (length packet.data_bytes)
report_unmatched epoch telem _ _ = ok telem

-- What the clip does with the command that it has decoded, if any.
unfoldable pub execute_command :
    (ℕ → ℕ)
    → ℕ
    → ℕ
    → Option CommPacket
    → TlmTxn
    → List CmdEndpoint
    → Outcome (List CmdEndpoint × TlmTxn)
unfolding dispatch
execute_command now epoch replica_id found telem endpoints = do
  telem₁ ← report_received epoch telem found
  (endpoints', matched) ← dispatch now replica_id found endpoints false
  telem₂ ← report_unmatched epoch telem₁ found matched
  ok (endpoints', telem₂)

-- `cmd_replica_t`, with the parts of `cmd_system_t`
pub record CmdReplica : Type 0 where
  pub endpoints : List CmdEndpoint
  pub telemetry : TlmEndpoint
  pub decoder : CommDec
  pub replica_id : ℕ

unfoldable pub command_execution_clip :
    (ℕ → List ℕ → ℕ) → (ℕ → ℕ) → ℕ → Bool → Pipe → CmdReplica → Outcome (Pipe × CmdReplica)
unfolding execute_command
command_execution_clip crc32 now epoch restart uplink cr = do
  (uplink₁, dec₁) ←
      comm_dec_prepare now uplink (if restart then comm_dec_reset cr.decoder else cr.decoder)
  telem ← telemetry_prepare now cr.telemetry cr.replica_id
  (dec₂, found) ← comm_dec_decode crc32 dec₁
  (endpoints, telem') ← execute_command now epoch cr.replica_id found telem cr.endpoints
  telemetry ← telemetry_commit telem'
  uplink₂ ← comm_dec_commit now uplink₁ dec₂
  ok (uplink₂, record cr { endpoints = endpoints; telemetry = telemetry; decoder = dec₂ })

-- duct_receive_message copies the message over the front of what the memory held before.
abbrev pub stored : EndpointState → List ℕ → EndpointState
stored m bytes = record m { last_received = bytes ++ drop (length bytes) m.last_received }

-- What is kept of a message, and the data that the client gets.
abbrev pub accept_message : EndpointState → Option Packet → EndpointState × Option (List ℕ)
accept_message m none = (m, none)
accept_message m (some p) =
    let kept = stored m p.bytes in
    if ltb p.size sizeof_time then (kept, none) else (
      record kept { has_outstanding_reply = true; last_data_length = p.size - sizeof_time },
      some (take (p.size - sizeof_time) (drop sizeof_time kept.last_received)),
    )

-- The data is `none` where the code returns NULL; its length is the size that it returns.
unfoldable pub command_receive : (ℕ → ℕ) → CmdEndpoint → ℕ → Outcome (CmdEndpoint × Option (List ℕ))
command_receive now ce replica_id = do
  (d, t) ← receive_prepare now ce.duct replica_id
  assert (d.message_size == sizeof_msg)
  (t', found) ← receive_message d t
  (d', _) ← receive_commit d t'
  let taken = accept_message (ce.mut_replicas replica_id) found
  ok (record ce { duct = d'; mut_replicas = update ce.mut_replicas replica_id taken.0 }, taken.1)

-- The message for a status.
abbrev pub reply_message : ℕ → TlmTxn → CmdEndpoint → EndpointState → CmdStatus → Outcome TlmTxn
reply_message epoch telem ce m status_unrecognized =
    tlm_cmd_not_recognized epoch telem (of_le64 m.last_received) ce.cid m.last_data_length
reply_message epoch telem ce m status_ok =
    tlm_cmd_completed epoch telem (of_le64 m.last_received) ce.cid true
reply_message epoch telem ce m status_fail =
    tlm_cmd_completed epoch telem (of_le64 m.last_received) ce.cid false
reply_message epoch telem ce m status_other = aborted

unfoldable pub command_reply :
    ℕ → CmdEndpoint → ℕ → TlmTxn → CmdStatus → Outcome (CmdEndpoint × TlmTxn)
command_reply epoch ce replica_id telem status = do
  let m = ce.mut_replicas replica_id
  assert m.has_outstanding_reply
  telem' ← reply_message epoch telem ce m status
  ok (
    record ce {
      mut_replicas = update ce.mut_replicas replica_id (record m { has_outstanding_reply = false });
    },
    telem',
  )

-- `pingback_replica_t`
pub record Pingback : Type 0 where
  pub telemetry : TlmEndpoint
  pub command : CmdEndpoint
  pub replica_id : ℕ

-- What the clip does with a command's data.
unfoldable pub answer_ping :
    ℕ → ℕ → CmdEndpoint → TlmTxn → Option (List ℕ) → Outcome (CmdEndpoint × TlmTxn)
unfolding command_reply
answer_ping epoch replica_id ce telem none = ok (ce, telem)
answer_ping epoch replica_id ce telem (some data_bytes) =
    let pong =
      (tlm_pong epoch telem (of_be32 data_bytes) >>= λ telem'.
      command_reply epoch ce replica_id telem' status_ok) in
    if length data_bytes == 4
    then pong
    else command_reply epoch ce replica_id telem status_unrecognized

unfoldable pub pingback_clip : (ℕ → ℕ) → ℕ → Pingback → Outcome Pingback
unfolding command_receive answer_ping
pingback_clip now epoch p = do
  telem ← telemetry_prepare now p.telemetry p.replica_id
  (command, data_bytes) ← command_receive now p.command p.replica_id
  (command', telem') ← answer_ping epoch p.replica_id command telem data_bytes
  telemetry ← telemetry_commit telem'
  ok (record p { telemetry = telemetry; command = command' })
