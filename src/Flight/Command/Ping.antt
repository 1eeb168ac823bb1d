-- ===== src/Flight/Command/Ping.antt =====
-- The clip of flight/pingback.c: every ping is answered, and replied to.
use mathlib.Core.List.{map}
use hailburst.Prelude.{
  ℕ, ◌^◌, ◌≤◌, ◌<◌, ◌≡◌, refl, Bool, false, List, [], ◌∷◌, ◌++◌, Option, none, some, inl, inr,
  Bool-cases, length, get_elem?, drop, of_le64, of_le64-le64, be32, of_be32, be64, ◌==◌, ==_refl,
  if◌then◌else◌, ok, arith,
}
use hailburst.Synch.Duct.{Duct, Packet, majority_threshold}
use hailburst.Synch.Duct.Offer.{IsValid, offered}
use hailburst.Synch.Duct.Send.{Outgoing, AllFit, sent, after_send, offered-own}
use hailburst.Synch.Duct.Receive.{Offers, count_good}
use hailburst.Synch.Duct.Session.{singleton}
use hailburst.Flight.Comm.{CommPacket}
use hailburst.Flight.Telemetry.{
  async, tlm_pong, tlm_cmd_completed, tlm_cmd_not_recognized, pong_tid, cmd_completed_tid,
  cmd_not_recognized_tid,
}
use hailburst.Flight.Telemetry.Session.{
  carrying, small, sizeof_async, telemetry_prepare-carrying, telemetry_small_submit-carrying,
  telemetry_commit-carrying,
}
use hailburst.Flight.Command.Defs.{
  CmdEndpoint, status_ok, status_unrecognized, EndpointState, Pingback, duct_msg, sizeof_msg,
  command_receive, answer_ping, pingback_clip,
}
use hailburst.Flight.Command.Reply.{
  kept, answered, command_reply-eq, update_here, command_receive-eq, command_receive-command, given,
  holding,
}

-- What the pingback clip tells of a command.
abbrev pub ping_reports : ℕ → ℕ → Option CommPacket → List Outgoing
ping_reports epoch cid none = []
ping_reports epoch cid (some packet) =
    if length packet.data_bytes == 4
    then small epoch pong_tid (be32 (of_be32 packet.data_bytes))
      ∷ small epoch cmd_completed_tid (be64 packet.timestamp_ns ++ be32 cid ++ 1 ∷ [])
      ∷ []
    else small epoch cmd_not_recognized_tid
        (be64 packet.timestamp_ns ++ be32 cid ++ be32 (length packet.data_bytes))
      ∷ []

-- The packets in which the command replicas send a command.
abbrev pub command_packet : Option CommPacket → Option Packet
command_packet none = none
command_packet (some packet) = some (sent (duct_msg packet, 0))

module _ (now : ℕ → ℕ) (epoch : ℕ) (r : ℕ) (d : Duct) (v : IsValid d) (own : r < d.sender_replicas)
    (sized : d.message_size ≡ sizeof_async) (two : 2 ≤ d.max_flow) where
  answer_ping-carrying :
      (e : CmdEndpoint) (m : EndpointState) (packet : CommPacket)
      → packet.timestamp_ns < 2 ^ 64
      → e.mut_replicas r ≡ kept m packet
      → answer_ping epoch r e (carrying now d r []) (some packet.data_bytes)
        ≡ ok (
          answered e r (kept m packet),
          carrying now d r (ping_reports epoch e.cid (some packet)),
        )
  unfolding answer_ping tlm_pong tlm_cmd_completed tlm_cmd_not_recognized
  answer_ping-carrying e m packet range mine =
      let time : of_le64 (kept m packet).last_received ≡ packet.timestamp_ns =
        of_le64-le64 packet.timestamp_ns
          (packet.data_bytes ++ drop (length (duct_msg packet)) m.last_received) range in
      let pong = small epoch pong_tid (be32 (of_be32 packet.data_bytes)) in
      elim (Bool-cases (length packet.data_bytes == 4)) [
        | inl four ↦
            rw
              (
                four,
                telemetry_small_submit-carrying now d v sized r own epoch [] pong_tid
                    (be32 (of_be32 packet.data_bytes)) (omega arith) (omega arith),
                command_reply-eq epoch e r (kept m packet) (carrying now d r (pong ∷ [])) mine refl
                    status_ok,
                time,
                telemetry_small_submit-carrying now d v sized r own epoch (pong ∷ [])
                    cmd_completed_tid (be64 packet.timestamp_ns ++ be32 e.cid ++ 1 ∷ [])
                    (omega arith) (omega arith),
              )
              refl
        | inr other ↦
            rw
              (
                other,
                command_reply-eq epoch e r (kept m packet) (carrying now d r []) mine refl
                    status_unrecognized,
                time,
                telemetry_small_submit-carrying now d v sized r own epoch [] cmd_not_recognized_tid
                    (be64 packet.timestamp_ns ++ be32 e.cid ++ be32 (length packet.data_bytes))
                    (omega arith) (omega arith),
              )
              refl
      ]

  pings-Suits :
      (cid : ℕ) (found : Option CommPacket)
      → (length (ping_reports epoch cid found) ≤ d.max_flow)
        × AllFit d.message_size (ping_reports epoch cid found)
  pings-Suits cid none = (omega arith, tt)
  pings-Suits cid (some packet) = elim (Bool-cases (length packet.data_bytes == 4)) [
    | inl four ↦
        rw four (two, (omega arith, omega (arith, sized), (omega arith, omega (arith, sized), tt)))
    | inr other ↦ rw other (v.some_flow, (omega arith, omega (arith, sized), tt))
  ]

abbrev InTime : Option CommPacket → Type 0
InTime none = Unit {0}
InTime (some packet) = packet.timestamp_ns < 2 ^ 64

module _ (now : ℕ → ℕ) (epoch : ℕ) (p : Pingback) (d : Duct) (tl : p.telemetry ≡ async d)
    (v : IsValid d) (own : p.replica_id < d.sender_replicas) (sized : d.message_size ≡ sizeof_async)
    (two : 2 ≤ d.max_flow) (w : IsValid p.command.duct)
    (command_sized : p.command.duct.message_size ≡ sizeof_msg)
    (command_own : p.replica_id < p.command.duct.receiver_replicas) (good : ℕ → Bool)
    (quorum : majority_threshold p.command.duct
      ≤ count_good good p.command.duct.sender_replicas 0) where
  abbrev answered_for : Option CommPacket → CmdEndpoint
  answered_for none = given now p.command p.replica_id none
  answered_for (some packet) =
      answered (holding now p.command p.replica_id packet) p.replica_id
        (kept (p.command.mut_replicas p.replica_id) packet)

  abbrev taken_for : Option CommPacket → CmdEndpoint × Option (List ℕ)
  taken_for none = (given now p.command p.replica_id none, none)
  taken_for (some packet) = (holding now p.command p.replica_id packet, some packet.data_bytes)

  take-eq :
      (found : Option CommPacket)
      → Offers p.command.duct p.replica_id good (singleton (command_packet found))
      → command_receive now p.command p.replica_id ≡ ok (taken_for found)
  take-eq none all =
      command_receive-eq now p.command w command_sized p.replica_id command_own good quorum none all
  take-eq (some packet) all =
      command_receive-command now p.command w command_sized p.replica_id command_own good quorum
        packet all

  answer-eq :
      (found : Option CommPacket)
      → InTime found
      → answer_ping epoch p.replica_id
          (taken_for found).0
          (carrying now d p.replica_id [])
          (taken_for found).1
        ≡ ok (
          answered_for found,
          carrying now d p.replica_id (ping_reports epoch p.command.cid found),
        )
  unfolding answer_ping
  answer-eq none range = refl
  answer-eq (some packet) range =
      answer_ping-carrying now epoch p.replica_id d v own sized two
        (holding now p.command p.replica_id packet) (p.command.mut_replicas p.replica_id) packet
        range
        (update_here p.command.mut_replicas p.replica_id
          (kept (p.command.mut_replicas p.replica_id) packet))

  replied :
      (found : Option CommPacket)
      → (p.command.mut_replicas p.replica_id).has_outstanding_reply ≡ false
      → ((answered_for found).mut_replicas p.replica_id).has_outstanding_reply ≡ false
  replied none free =
      rw (update_here p.command.mut_replicas p.replica_id (p.command.mut_replicas p.replica_id))
        free
  replied (some packet) free = rw (==_refl p.replica_id) refl

  -- On valid ducts, the clip aborts nowhere. If a strict majority of the command replicas send no
  -- command, it offers no telemetry; if they send one with a 64-bit time, it offers, for four bytes of
  -- data, a pong with their number and a report that the command is completed with success, and for any
  -- other length a report that it is not recognised, with the command's time in each report. No reply
  -- is outstanding then.
  pub pingback_clip_lem :
      (found : Option CommPacket)
      → InTime found
      → Offers p.command.duct p.replica_id good (singleton (command_packet found))
      → (p.command.mut_replicas p.replica_id).has_outstanding_reply ≡ false
      → (p' : Pingback) × (d' : Duct) × (pingback_clip now epoch p ≡ ok p')
        × (p'.telemetry ≡ async d')
        × ((p'.command.mut_replicas p.replica_id).has_outstanding_reply ≡ false)
        × ((s k : ℕ)
            → s < d.receiver_replicas
            → offered d' s k p.replica_id
              ≡ get_elem? (map sent (ping_reports epoch p.command.cid found)) k)
  unfolding pingback_clip
  pingback_clip_lem found range all free =
      let fit = pings-Suits now epoch p.replica_id d v own sized two p.command.cid found in
      let msgs = ping_reports epoch p.command.cid found in
      let d' = after_send now d p.replica_id msgs in
      (
        record p { telemetry = async d'; command = answered_for found },
        d',
        rw
            (
              tl,
              telemetry_prepare-carrying now d v sized p.replica_id own,
              take-eq found all,
              answer-eq found range,
              telemetry_commit-carrying now d v sized p.replica_id own msgs fit.0,
            )
            refl,
        refl,
        replied found free,
        λ s k h. offered-own now d v p.replica_id own msgs fit.0 fit.1 s k h,
      )
