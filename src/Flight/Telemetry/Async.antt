-- ===== src/Flight/Telemetry/Async.antt =====
-- Stage 2 of telemetry_pump: every message of asynchronous telemetry is transmitted or counted as
-- dropped.
use mathlib.Core.List.{map, map-append}
use hailburst.Prelude.{
  ℕ, zero, suc, ◌+◌, ◌≤◌, ◌<◌, ◌≡◌, refl, Bool, List, [], ◌∷◌, ◌++◌, length, length-map, get_elem?,
  get_elem?-some, drop, drop-cons, drop-nil, lt→ltb, ok, arith, none,
}
use hailburst.Synch.Duct.{Duct, Txn, Packet, majority_threshold, receive_prepare, mark_consumed}
use hailburst.Synch.Duct.Offer.{IsValid}
use hailburst.Synch.Duct.Send.{sent}
use hailburst.Synch.Duct.Vote.{IsReceiving}
use hailburst.Synch.Duct.Receive.{
  reading_at, Offers, count_good, prepared, prepared-IsValid, prepared-Offers, receive_next,
  receive_last, receive_commit-eq,
}
use hailburst.Synch.Pipe.{Pipe}
use hailburst.Synch.Circular.{CircBuf}
use hailburst.Flight.Comm.Frame.{Extends}
use hailburst.Flight.Clock.{Clock}
use hailburst.Flight.Telemetry.Submit.{max_async_size}
use hailburst.Flight.Telemetry.Pump.{
  TlmRegistration, on_duct, on_pipe, Sending, drain_duct, pump_async,
}
use hailburst.Flight.Telemetry.Packets.{Telemetry, outgoing, AllInBounds, packet_of}
use hailburst.Flight.Telemetry.Account.{
  IsReady, Account, Account-refl, Account-trans, transmit_async_lem,
}

module _ (crc32 : ℕ → List ℕ → ℕ) (extends : Extends crc32) (clock : Clock) where
  abbrev packets : List Telemetry → List Packet
  packets ms = map sent (map outgoing ms)

  module _ (d : Duct) (v : IsValid d) (good : ℕ → Bool) (ms : List Telemetry)
      (quorum : majority_threshold d ≤ count_good good d.sender_replicas 0)
      (few : length (packets ms) ≤ d.max_flow) where
    drain_duct_lem :
        (fuel : ℕ) (rest : List Telemetry) (t : Txn) (s : Sending)
        → IsReceiving d t
        → Offers d t.replica_id good (packets ms)
        → drop t.flow_current (packets ms) ≡ packets rest
        → AllInBounds max_async_size rest
        → length rest < fuel
        → IsReady s
        → (s' : Sending) × (drain_duct crc32 clock fuel d t s
            ≡ ok (record t { flow_current = t.flow_current + length rest }, s'))
          × (get_elem? (packets ms) (t.flow_current + length rest) ≡ none)
          × Account crc32 s (map (packet_of clock) rest) s'
    unfolding drain_duct
    drain_duct_lem zero rest t s u all split range h w = absurd (omega arith)
    drain_duct_lem (suc fuel) [] t s u all split range h w =
        let over = drop-nil t.flow_current (packets ms) split in
        let same : t.flow_current + 0 ≡ t.flow_current = omega arith in
        (
          s,
          rw (receive_last d v good (packets ms) quorum few t u all over, same) refl,
          rw same over,
          Account-refl crc32 s w,
        )
    drain_duct_lem (suc fuel) (m ∷ rest) t s u all split range h w =
        let (here, later) =
          drop-cons t.flow_current (packets ms) (sent (outgoing m)) (packets rest) split in
        let inside = get_elem?-some (packets ms) t.flow_current (sent (outgoing m)) here in
        let t' = record t { flow_current = t.flow_current + 1 } in
        let (s₁, e₁, a₁) = transmit_async_lem crc32 extends clock s m w range.0 in
        let (s₂, e₂, over, a₂) =
          drain_duct_lem fuel rest t' s₁
            (record { receiving = u.receiving; replica_in = u.replica_in; flow_in = omega arith })
            all later range.1 (omega arith) a₁.still in
        let shift : t.flow_current + suc (length rest) ≡ t.flow_current + 1 + length rest =
          omega arith in
        (
          s₂,
          rw
              (
                receive_next d v good (packets ms) quorum few t u all (sent (outgoing m)) here
                    (omega arith),
                e₁,
                e₂,
                shift,
              )
              refl,
          rw shift over,
          Account-trans crc32 s s₁ s₂ (packet_of clock m ∷ []) (map (packet_of clock) rest) a₁ a₂,
        )

-- Each duct of the registrations is valid, and a strict majority of its senders offer the pump's replica
-- the same messages; `ms` are those of all ducts in order.
pub data Gathers (replica_id : ℕ) : List TlmRegistration → List Telemetry → Type 0 where
  none_left : Gathers replica_id [] []
  pipe_next :
      (p : Pipe) (circ : CircBuf Packet) (rest : List TlmRegistration) (ms : List Telemetry)
      → Gathers replica_id rest ms
      → Gathers replica_id (on_pipe p circ ∷ rest) ms
  duct_next :
      (d : Duct) (good : ℕ → Bool) (own ms : List Telemetry) (rest : List TlmRegistration)
      → IsValid d
      → replica_id < d.receiver_replicas
      → majority_threshold d ≤ count_good good d.sender_replicas 0
      → length (map sent (map outgoing own)) ≤ d.max_flow
      → AllInBounds max_async_size own
      → Offers d replica_id good (map sent (map outgoing own))
      → Gathers replica_id rest ms
      → Gathers replica_id (on_duct d ∷ rest) (own ++ ms)

module _ (crc32 : ℕ → List ℕ → ℕ) (extends : Extends crc32) (now : ℕ → ℕ) (clock : Clock)
    (replica_id : ℕ) where
  -- On valid ducts of which a strict majority of the senders offer the same messages, whose data is at
  -- most 16 bytes, and with an encoder that has room for 76 bytes in all, stage 2 of the pump aborts
  -- nowhere. Each message, in order, is appended to the downlink as the frame of the packet with its
  -- number, its data and the mission time of its timestamp, if that fits; the count of dropped messages
  -- grows by exactly the number of the others; and the watchdog is told of progress exactly if one was
  -- transmitted or it would have been before.
  pub pump_async_lem :
      (regs : List TlmRegistration) (ms : List Telemetry) (s : Sending)
      → Gathers replica_id regs ms
      → IsReady s
      → (regs' : List TlmRegistration) × (s' : Sending) × (pump_async crc32 now clock replica_id
            regs s
          ≡ ok (regs', s'))
        × Account crc32 s (map (packet_of clock) ms) s'
  unfolding pump_async receive_prepare
  pump_async_lem _ _ s none_left w = ([], s, refl, Account-refl crc32 s w)
  pump_async_lem _ ms s (pipe_next p circ rest _ g) w =
      let (regs', s', e, a) = pump_async_lem rest ms s g w in
      (on_pipe p circ ∷ regs', s', rw e refl, a)
  pump_async_lem _ _ s (duct_next d good own ms rest v mine quorum few range all g) w =
      let d₁ = prepared now d replica_id in
      let v₁ = prepared-IsValid now d replica_id v in
      let offers = prepared-Offers now d replica_id good (map sent (map outgoing own)) all in
      let (s₁, e₁, over, a₁) =
        drain_duct_lem crc32 extends clock d₁ v₁ good own quorum few (d.max_flow + 1) own
          (reading_at replica_id 0) s
          (record { receiving = refl; replica_in = mine; flow_in = omega arith }) offers refl range
          (omega (arith, few, length-map sent (map outgoing own), length-map outgoing own)) w in
      let (regs', s₂, e₂, a₂) = pump_async_lem rest ms s₁ g a₁.still in
      let closed =
        receive_commit-eq d₁ v₁ good (map sent (map outgoing own)) quorum few
          (reading_at replica_id (0 + length own))
          (record {
            receiving = refl;
            replica_in = mine;
            flow_in =
                omega (arith, few, length-map sent (map outgoing own), length-map outgoing own);
          })
          offers over in
      (
        on_duct (record d₁ { flow_status = mark_consumed d₁ replica_id }) ∷ regs',
        s₂,
        rw (lt→ltb _ _ mine, e₁, closed, e₂) refl,
        rw (map-append (packet_of clock) own ms) (
            Account-trans crc32 s s₁ s₂ (map (packet_of clock) own) (map (packet_of clock) ms) a₁
              a₂),
      )
