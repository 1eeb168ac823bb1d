-- ===== src/Flight/Command/Clip.antt =====
-- The clip of flight/command.c as a whole.
use mathlib.Core.List.{map}
use hailburst.Prelude.{
  ℕ, ◌≤◌, ◌<◌, ◌≡◌, refl, Bool, true, false, List, Option, none, some, inl, inr, Bool-cases, length,
  get_elem?, if◌then◌else◌, ok, arith,
}
use hailburst.Synch.Duct.{Duct}
use hailburst.Synch.Duct.Offer.{IsValid, offered}
use hailburst.Synch.Duct.Send.{Outgoing, AllFit, sent, after_send, offered-own}
use hailburst.Synch.Pipe.{Pipe}
use hailburst.Flight.Comm.{
  CommPacket, CommDec, comm_dec_reset, comm_dec_prepare, comm_dec_decode, comm_dec_commit,
}
use hailburst.Flight.Telemetry.{async}
use hailburst.Flight.Telemetry.Session.{
  sizeof_async, telemetry_prepare-carrying, telemetry_commit-carrying,
}
use hailburst.Flight.Command.Defs.{CmdEndpoint, CmdReplica, command_execution_clip}
use hailburst.Flight.Command.Dispatch.{
  names, commands, any_named, reports, IsEndpoint, AllEndpoints, handed, execute_command-eq,
}

abbrev Suits : Duct → List Outgoing → Type 0
Suits d ms = (length ms ≤ d.max_flow) × AllFit d.message_size ms

commands-Suits :
    (replica_id : ℕ) (found : Option CommPacket) (ce : CmdEndpoint)
    → IsEndpoint replica_id ce
    → Suits ce.duct (commands found ce)
commands-Suits replica_id none ce v = (omega arith, tt)
commands-Suits replica_id (some packet) ce v = elim (Bool-cases (names packet ce)) [
  | inl e ↦
      let short : length packet.data_bytes ≤ 4 = ground arith in
      rw e (v.0.some_flow, (omega arith, omega (arith, short, v.2), tt))
  | inr e ↦ rw e (omega arith, tt)
]

reports-Suits :
    (d : Duct) (epoch : ℕ) (found : Option CommPacket) (matched : Bool)
    → d.message_size ≡ sizeof_async
    → 2 ≤ d.max_flow
    → Suits d (reports epoch found matched)
reports-Suits d epoch none matched sized two = (omega arith, tt)
reports-Suits d epoch (some p) true sized two = (omega arith, (omega arith, omega arith, tt))
reports-Suits d epoch (some p) false sized two =
    (omega arith, (omega arith, omega arith, (omega arith, omega arith, tt)))

-- On valid ducts of the registered sizes, if the decoder prepares, finds a command or none, and
-- commits, the clip aborts nowhere. Each endpoint with the command's number is offered the eight
-- bytes of its time and the data, if the data is at most four bytes, and every other endpoint is
-- offered nothing; the telemetry is offered a report of the reception and, exactly if no endpoint
-- is offered the command, a report that it is not recognised.
pub command_execution_clip_lem :
    (crc32 : ℕ → List ℕ → ℕ) (now : ℕ → ℕ) (epoch : ℕ) (restart : Bool)
    (uplink uplink₁ uplink₂ : Pipe) (cr : CmdReplica) (d : Duct) (dec₁ dec₂ : CommDec)
    (found : Option CommPacket)
    → cr.telemetry ≡ async d
    → IsValid d
    → cr.replica_id < d.sender_replicas
    → d.message_size ≡ sizeof_async
    → 2 ≤ d.max_flow
    → AllEndpoints cr.replica_id cr.endpoints
    → comm_dec_prepare now uplink (if restart then comm_dec_reset cr.decoder else cr.decoder)
      ≡ ok (uplink₁, dec₁)
    → comm_dec_decode crc32 dec₁ ≡ ok (dec₂, found)
    → comm_dec_commit now uplink₁ dec₂ ≡ ok uplink₂
    → (d' : Duct) × (command_execution_clip crc32 now epoch restart uplink cr
        ≡ ok (
          uplink₂,
          record cr {
            endpoints = map (handed now cr.replica_id found) cr.endpoints;
            telemetry = async d';
            decoder = dec₂;
          },
        ))
      × ((r k : ℕ)
          → r < d.receiver_replicas
          → offered d' r k cr.replica_id
            ≡ get_elem? (map sent (reports epoch found (any_named found cr.endpoints))) k)
      × ((ce : CmdEndpoint) (r k : ℕ)
          → IsEndpoint cr.replica_id ce
          → r < ce.duct.receiver_replicas
          → offered (handed now cr.replica_id found ce).duct r k cr.replica_id
            ≡ get_elem? (map sent (commands found ce)) k)
unfolding command_execution_clip
command_execution_clip_lem crc32 now epoch restart uplink uplink₁ uplink₂ cr d dec₁ dec₂ found tl v
      own sized two eps prep dec done =
    let rep = reports epoch found (any_named found cr.endpoints) in
    let fit = reports-Suits d epoch found (any_named found cr.endpoints) sized two in
    (
      after_send now d cr.replica_id rep,
      rw
          (
            tl,
            prep,
            telemetry_prepare-carrying now d v sized cr.replica_id own,
            dec,
            execute_command-eq now cr.replica_id epoch d v own sized two found cr.endpoints eps,
            telemetry_commit-carrying now d v sized cr.replica_id own rep fit.0,
            done,
          )
          refl,
      (λ r k h. offered-own now d v cr.replica_id own rep fit.0 fit.1 r k h),
      λ ce r k w h.
          let suits = commands-Suits cr.replica_id found ce w in
          offered-own now ce.duct w.0 cr.replica_id w.1 (commands found ce) suits.0 suits.1 r k h,
    )
