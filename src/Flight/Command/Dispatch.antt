-- ===== src/Flight/Command/Dispatch.antt =====
-- A telecommand goes to the endpoints that it names, and is reported.
use mathlib.Core.List.{map}
use hailburst.Prelude.{
  ℕ, ◌≤◌, ◌<◌, ◌≡◌, refl, Bool, true, false, ◌||◌, List, [], ◌∷◌, ◌++◌, Option, none, some, inl,
  inr, Bool-cases, length, be32, be64, le64, leb, ◌==◌, ◌&&◌, if◌then◌else◌, ok, arith,
}
use hailburst.Synch.Duct.{Duct}
use hailburst.Synch.Duct.Offer.{IsValid}
use hailburst.Synch.Duct.Send.{Outgoing, after_send}
use hailburst.Synch.Duct.Session.{send_prepare-opened, send_message-opened, send_commit-opened}
use hailburst.Flight.Comm.{CommPacket}
use hailburst.Flight.Telemetry.{
  tlm_cmd_received, tlm_cmd_not_recognized, cmd_received_tid, cmd_not_recognized_tid,
}
use hailburst.Flight.Telemetry.Session.{
  carrying, small, sizeof_async, telemetry_small_submit-carrying,
}
use hailburst.Flight.Command.Defs.{
  CmdEndpoint, dispatch, execute_command, report_received, report_unmatched, sizeof_msg,
}

-- A command that names the endpoint, with the data of at most one 32-bit argument.
abbrev pub names : CommPacket → CmdEndpoint → Bool
names packet ce = packet.cmd_tlm_id == ce.cid && leb (length packet.data_bytes) 4

-- Such a command is handed over as the eight bytes of its time, lowest first, and the data.
abbrev pub commands : Option CommPacket → CmdEndpoint → List Outgoing
commands none ce = []
commands (some packet) ce =
    if names packet ce then (le64 packet.timestamp_ns ++ packet.data_bytes, 0) ∷ [] else []

abbrev pub any_named : Option CommPacket → List CmdEndpoint → Bool
any_named none eps = false
any_named (some packet) [] = false
any_named (some packet) (ce ∷ rest) = names packet ce || any_named (some packet) rest

-- What is reported of it.
abbrev pub reports : ℕ → Option CommPacket → Bool → List Outgoing
reports epoch none matched = []
reports epoch (some p) matched =
    small epoch cmd_received_tid (be64 p.timestamp_ns ++ be32 p.cmd_tlm_id)
    ∷ (if matched
        then []
        else small epoch cmd_not_recognized_tid
            (be64 p.timestamp_ns ++ be32 p.cmd_tlm_id ++ be32 (length p.data_bytes))
          ∷ [])

-- A duct of an endpoint, as COMMAND_ENDPOINT lays it out.
abbrev pub IsEndpoint : ℕ → CmdEndpoint → Type 0
IsEndpoint replica_id ce =
    IsValid ce.duct × (replica_id < ce.duct.sender_replicas) × (ce.duct.message_size ≡ sizeof_msg)

abbrev pub AllEndpoints : ℕ → List CmdEndpoint → Type 0
AllEndpoints replica_id [] = Unit {0}
AllEndpoints replica_id (ce ∷ rest) = IsEndpoint replica_id ce × AllEndpoints replica_id rest

module _ (now : ℕ → ℕ) (replica_id : ℕ) (found : Option CommPacket) where
  abbrev pub handed : CmdEndpoint → CmdEndpoint
  handed ce = record ce { duct = after_send now ce.duct replica_id (commands found ce) }

or-true : (a : Bool) → (a || true) ≡ true
or-true true = refl
or-true false = refl

or-false : (a : Bool) → (a || false) ≡ a
or-false true = refl
or-false false = refl

module _ (now : ℕ → ℕ) (replica_id : ℕ) where
  dispatch-none :
      (eps : List CmdEndpoint) (matched : Bool)
      → AllEndpoints replica_id eps
      → dispatch now replica_id none eps matched
        ≡ ok (map (handed now replica_id none) eps, matched)
  unfolding dispatch
  dispatch-none [] matched v = refl
  dispatch-none (ce ∷ rest) matched v =
      rw
        (
          send_prepare-opened now ce.duct v.0.0 replica_id v.0.1,
          send_commit-opened now ce.duct v.0.0 replica_id v.0.1 [] (omega arith),
          dispatch-none rest matched v.1,
        )
        refl

  dispatch-some :
      (packet : CommPacket) (eps : List CmdEndpoint) (matched : Bool)
      → AllEndpoints replica_id eps
      → dispatch now replica_id (some packet) eps matched
        ≡ ok (map (handed now replica_id (some packet)) eps, any_named (some packet) eps || matched)
  unfolding dispatch
  dispatch-some packet [] matched v = refl
  dispatch-some packet (ce ∷ rest) matched v = elim (Bool-cases (names packet ce)) [
    | inl e ↦
        let own = le64 packet.timestamp_ns ++ packet.data_bytes in
        let short : length packet.data_bytes ≤ 4 = ground arith in
        rw
          (
            e,
            send_prepare-opened now ce.duct v.0.0 replica_id v.0.1,
            send_message-opened now ce.duct v.0.0 replica_id v.0.1 [] own 0 v.0.0.some_flow
                (omega arith) (omega (arith, short, v.0.2)),
            send_commit-opened now ce.duct v.0.0 replica_id v.0.1 ((own, 0) ∷ []) v.0.0.some_flow,
            dispatch-some packet rest true v.1,
            or-true (any_named (some packet) rest),
          )
          refl
    | inr e ↦
        rw
          (
            e,
            send_prepare-opened now ce.duct v.0.0 replica_id v.0.1,
            send_commit-opened now ce.duct v.0.0 replica_id v.0.1 [] (omega arith),
            dispatch-some packet rest matched v.1,
          )
          refl
  ]

  -- The reports of the clip, on a duct with the flow that COMMAND_SYSTEM_REGISTER gives it.
  module _ (epoch : ℕ) (d : Duct) (v : IsValid d) (own : replica_id < d.sender_replicas)
      (sized : d.message_size ≡ sizeof_async) (two : 2 ≤ d.max_flow) where
    report_received-carrying :
        (p : CommPacket)
        → report_received epoch (carrying now d replica_id []) (some p)
          ≡ ok (carrying now d replica_id (reports epoch (some p) true))
    unfolding tlm_cmd_received
    report_received-carrying p =
        rw
          (telemetry_small_submit-carrying now d v sized replica_id own epoch [] cmd_received_tid
            (be64 p.timestamp_ns ++ be32 p.cmd_tlm_id) (omega arith) (omega arith))
          refl

    report_unmatched-carrying :
        (p : CommPacket) (matched : Bool)
        → report_unmatched epoch
            (carrying now d replica_id (reports epoch (some p) true))
            (some p)
            matched
          ≡ ok (carrying now d replica_id (reports epoch (some p) matched))
    unfolding tlm_cmd_not_recognized
    report_unmatched-carrying p true = refl
    report_unmatched-carrying p false =
        rw
          (telemetry_small_submit-carrying now d v sized replica_id own epoch
            (reports epoch (some p) true) cmd_not_recognized_tid
            (be64 p.timestamp_ns ++ be32 p.cmd_tlm_id ++ be32 (length p.data_bytes)) (omega arith)
            (omega arith))
          refl

    pub execute_command-eq :
        (found : Option CommPacket) (eps : List CmdEndpoint)
        → AllEndpoints replica_id eps
        → execute_command now epoch replica_id found (carrying now d replica_id []) eps
          ≡ ok (
            map (handed now replica_id found) eps,
            carrying now d replica_id (reports epoch found (any_named found eps)),
          )
    unfolding execute_command
    execute_command-eq none eps w = rw (dispatch-none eps false w) refl
    execute_command-eq (some p) eps w =
        rw
          (
            report_received-carrying p,
            dispatch-some p eps false w,
            or-false (any_named (some p) eps),
            report_unmatched-carrying p (any_named (some p) eps),
          )
          refl
