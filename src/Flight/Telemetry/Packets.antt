-- ===== src/Flight/Telemetry/Packets.antt =====
-- Telemetry messages as the packets of a duct or a pipe, the downlink packets that the pump makes of
-- them, and the encoder's account of a sequence of packets.
use mathlib.Core.Path.{subst}
use hailburst.Prelude.{
  ℕ, suc, ◌+◌, ◌-◌, ◌%◌, ◌^◌, ◌≤◌, ◌<◌, ◌≡◌, refl, List, [], ◌∷◌, ◌++◌, length, take_all, le32,
  of_le32-le32, le→leb, ok, arith,
}
use hailburst.Synch.Duct.Send.{Outgoing, sent}
use hailburst.Flight.Comm.{CommPacket, expected_length, comm_tlm_magic_num}
use hailburst.Flight.Comm.Frame.{frame}
use hailburst.Flight.Clock.{Clock, clock_mission_adjust}
use hailburst.Flight.Telemetry.Submit.{max_sync_size}
use hailburst.Flight.Telemetry.Pump.{packet_for}

-- A telemetry message: what a sender submits.
pub record Telemetry : Type 0 where
  pub telemetry_id : ℕ
  pub timestamp : ℕ
  pub data_bytes : List ℕ

abbrev pub outgoing : Telemetry → Outgoing
outgoing m = (le32 m.telemetry_id ++ m.data_bytes, m.timestamp)

abbrev pub InBounds : ℕ → Telemetry → Type 0
InBounds max_size m = (m.telemetry_id < 2 ^ 32) × (length m.data_bytes ≤ max_size)

abbrev pub AllInBounds : ℕ → List Telemetry → Type 0
AllInBounds max_size [] = Unit {0}
AllInBounds max_size (m ∷ ms) = InBounds max_size m × AllInBounds max_size ms

-- The packet of the downlink that it becomes.
abbrev pub packet_of : Clock → Telemetry → CommPacket
packet_of clock m = record {
  cmd_tlm_id = m.telemetry_id;
  timestamp_ns = clock_mission_adjust clock m.timestamp;
  data_bytes = m.data_bytes;
}

-- Reading a message's number and data back out of its bytes gives those that the sender laid out, at
-- the mission time of its timestamp.
pub packet_for-outgoing :
    (clock : Clock) (max_size : ℕ) (m : Telemetry)
    → max_size ≤ max_sync_size
    → InBounds max_size m
    → packet_for clock max_size (sent (outgoing m)) ≡ ok (packet_of clock m)
unfolding packet_for
packet_for-outgoing clock max_size m small range =
    let data_len : (suc (suc (suc (suc (length m.data_bytes)))) + (2 ^ 32 - 4)) % 2 ^ 32
        ≡ length m.data_bytes =
      omega (arith, range.1, small) in
    rw
      (
        data_len,
        le→leb _ _ range.1,
        of_le32-le32 m.telemetry_id range.0,
        take_all (length m.data_bytes) m.data_bytes (omega arith),
      )
      refl

-- The encoder's account of a sequence of packets: each is appended as a frame where its estimated
-- length fits, and left out where it does not. The last number counts those left out.
pub data Transmits (crc32 : ℕ → List ℕ → ℕ) (capacity : ℕ)
    : List ℕ → List CommPacket → List ℕ → ℕ → Type 0 where
  done : (scratch : List ℕ) → Transmits crc32 capacity scratch [] scratch 0
  fits :
      (scratch : List ℕ) (p : CommPacket) (ps : List CommPacket) (after : List ℕ) (n : ℕ)
      → length scratch + expected_length p ≤ capacity
      → Transmits crc32 capacity (scratch ++ frame crc32 comm_tlm_magic_num p) ps after n
      → Transmits crc32 capacity scratch (p ∷ ps) after n
  full :
      (scratch : List ℕ) (p : CommPacket) (ps : List CommPacket) (after : List ℕ) (n : ℕ)
      → capacity < length scratch + expected_length p
      → Transmits crc32 capacity scratch ps after n
      → Transmits crc32 capacity scratch (p ∷ ps) after (suc n)

pub recount :
    {crc32 : ℕ → List ℕ → ℕ} {capacity : ℕ} {a b : List ℕ} {ps : List CommPacket} {n k : ℕ}
    → n ≡ k
    → Transmits crc32 capacity a ps b n
    → Transmits crc32 capacity a ps b k
recount {crc32} {capacity} {a} {b} {ps} e t = subst (λ x. Transmits crc32 capacity a ps b x) e t

pub Transmits_append :
    (crc32 : ℕ → List ℕ → ℕ) (capacity : ℕ) (a b c : List ℕ) (ps qs : List CommPacket) (n k : ℕ)
    → Transmits crc32 capacity a ps b n
    → Transmits crc32 capacity b qs c k
    → Transmits crc32 capacity a (ps ++ qs) c (n + k)
Transmits_append crc32 capacity a _ c _ qs _ k (done _) u = recount (omega arith) u
Transmits_append crc32 capacity a b c _ qs n k (fits _ p ps _ _ h t) u =
    fits a p (ps ++ qs) c (n + k) h (Transmits_append crc32 capacity _ b c ps qs n k t u)
Transmits_append crc32 capacity a b c _ qs _ k (full _ p ps _ n h t) u =
    recount (omega arith)
      (full a p (ps ++ qs) c (n + k) h (Transmits_append crc32 capacity a b c ps qs n k t u))
