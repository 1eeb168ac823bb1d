-- ===== src/Flight/Telemetry/Tests.antt =====
-- A pump of one duct and one buffer on which the theorems about the pump are applied.
use mathlib.Core.List.{map}
use hailburst.Prelude.{
  ℕ, ◌+◌, ◌==◌, if◌then◌else◌, ◌≡◌, refl, List, [], ◌∷◌, ◌++◌, ok, false, arith,
}
use hailburst.Synch.Duct.{Packet}
use hailburst.Synch.Duct.Send.{sent}
use hailburst.Synch.Circular.Segment.{segment}
use hailburst.Synch.Duct.Solo.{
  loaded, loaded-IsValid, loaded-quorum, loaded-Offers, everyone, zero_clock,
}
use hailburst.Synch.Circular.{CircBuf}
use hailburst.Synch.Circular.Represents.{Represents}
use hailburst.Flight.Comm.{CommEnc}
use hailburst.Flight.Clock.{Clock}
use hailburst.Flight.Telemetry.Pump.{TlmRegistration, on_duct, Sending, pump_async, push_slots}
use hailburst.Flight.Telemetry.Packets.{Telemetry, outgoing, packet_of}
use hailburst.Flight.Telemetry.Account.{Account}
use hailburst.Flight.Telemetry.Async.{Gathers, none_left, duct_next, pump_async_lem}
use hailburst.Flight.Telemetry.Buffered.{Pushed, push_slots_lem, slots}

-- A checksum that the tests can compute with: it extends, as zlib's does.
abbrev sum_bytes : ℕ → List ℕ → ℕ
sum_bytes c [] = c
sum_bytes c (b ∷ bs) = sum_bytes (c + b) bs

sum_bytes-append : (c : ℕ) (xs ys : List ℕ) → sum_bytes (sum_bytes c xs) ys ≡ sum_bytes c (xs ++ ys)
sum_bytes-append c [] ys = refl
sum_bytes-append c (x ∷ xs) ys = sum_bytes-append (c + x) xs ys

abbrev test_clock : Clock
test_clock = record {
  replicas = 1;
  offset_adj_slow = λ _. 7;
  offset_adj_fast = 7;
  calibration_required = false;
}

abbrev pong : Telemetry
pong = record { telemetry_id = 0x01000005; timestamp = 40; data_bytes = 1 ∷ 2 ∷ 255 ∷ 4 ∷ [] }

abbrev beat : Telemetry
beat = record { telemetry_id = 0x01000007; timestamp = 41; data_bytes = [] }

-- Room for one of the two.
abbrev encoder : CommEnc
encoder = record { downlink = record { replica_id = 0; scratch_capacity = 80; scratch = [] } }

abbrev before : Sending
before = record { encoder = encoder; dropped = 3; watchdog_ok = false }

abbrev registrations : List TlmRegistration
registrations = on_duct (loaded 20 2 (map outgoing (pong ∷ beat ∷ []))) ∷ []

abbrev both : List Telemetry
both = (pong ∷ beat ∷ []) ++ []

registrations-Gathers : Gathers 0 registrations both
registrations-Gathers =
    let ms = map outgoing (pong ∷ beat ∷ []) in
    duct_next (loaded 20 2 ms) everyone (pong ∷ beat ∷ []) [] []
      (loaded-IsValid 20 2 (omega arith) (omega arith) ms) (omega arith)
      (loaded-quorum 20 2 (omega arith) (omega arith) ms) (omega arith)
      ((omega arith, omega arith), ((omega arith, omega arith), tt))
      (loaded-Offers 20 2 (omega arith) (omega arith) ms (omega arith)
        (omega arith, omega arith, (omega arith, omega arith, tt)))
      none_left

pump_async_lem_example :
    (regs' : List TlmRegistration) × (s' : Sending) × (pump_async sum_bytes zero_clock test_clock 0
        registrations before
      ≡ ok (regs', s'))
    × Account sum_bytes before (map (packet_of test_clock) both) s'
pump_async_lem_example =
    pump_async_lem sum_bytes (sum_bytes-append 0) zero_clock test_clock 0 registrations both before
      registrations-Gathers
      (record { roomy = omega arith; inside = omega arith; counter = omega arith })

-- A buffer of three slots, of which two are filled, in front of its end.
abbrev buffer : CircBuf Packet
buffer = record {
  element_count = 3;
  element_storage = λ p. if p == 2 then sent (outgoing pong) else sent (outgoing beat);
  next_read = 2;
  next_write = 4;
}

buffer-Represents : Represents buffer (slots (pong ∷ beat ∷ [])) 9
unfolding segment
buffer-Represents = record {
  positive = omega arith;
  small = omega arith;
  ahead = refl;
  fits = omega arith;
  unwrapped = omega arith;
  contents = refl;
}

push_slots_lem_example :
    (circ' : CircBuf Packet) × (enc' : CommEnc) × (push_slots sum_bytes test_clock 4 buffer encoder
      ≡ ok (circ', enc'))
    × Pushed sum_bytes test_clock (pong ∷ beat ∷ []) 9 encoder circ' enc'
push_slots_lem_example =
    push_slots_lem sum_bytes (sum_bytes-append 0) test_clock 9 4 (pong ∷ beat ∷ []) buffer encoder
      buffer-Represents
      ((omega arith, omega arith), omega arith, ((omega arith, omega arith), omega arith, tt))
      (omega arith) (omega arith)
