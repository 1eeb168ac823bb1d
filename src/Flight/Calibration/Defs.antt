-- ===== src/Flight/Calibration/Defs.antt =====
-- The clips of flight/clock.c. Offsets are 64-bit two's complement numbers.
use hailburst.Prelude.{
  ℕ, zero, suc, ◌+◌, ◌-◌, ◌*◌, ◌/◌, ◌%◌, ◌^◌, Bool, true, false, not, ◌||◌, List, [], ◌∷◌, ◌++◌,
  Option, none, some, ◌==◌, ltb, if◌then◌else◌, get_or, drop, update, le32, of_le32, of_be32,
  Outcome, ok, aborted, ◌>>=◌,
}
use hailburst.Synch.Duct.{Duct}
use hailburst.Synch.Notepad.{Notepad, notepad_feedforward}
use hailburst.Bus.Rmap.{
  RmapReplica, RmapTxn, rmap_synch_reset, rs_ok, rmap_epoch_prepare, rmap_epoch_commit,
  rmap_read_start, rmap_read_complete,
}
use hailburst.Flight.Clock.{Clock, clock_uncalibrated, clock_offset_adj_vote}
use hailburst.Flight.Telemetry.{
  TlmEndpoint, TlmTxn, telemetry_prepare, telemetry_commit, tlm_clock_calibrated,
}

abbrev pub clock_magic_num : ℕ
clock_magic_num = 0x71CC70CC

abbrev pub reg_magic : ℕ
reg_magic = 0x00

abbrev pub reg_clock : ℕ
reg_clock = 0x04

-- The offset that `clock_configure` stores; 0 is reserved for no calibration.
abbrev pub adjustment : ℕ → ℕ → ℕ
adjustment received_timestamp network_timestamp =
    let difference = (received_timestamp + (2 ^ 64 - network_timestamp)) % 2 ^ 64 in
    if difference == clock_uncalibrated then difference + 1 else difference

unfoldable pub clock_configure : ℕ → Clock → TlmTxn → ℕ → ℕ → ℕ → Outcome (Clock × TlmTxn)
clock_configure epoch clock telem replica_id received_timestamp network_timestamp = do
  let offset = adjustment received_timestamp network_timestamp
  telem' ← tlm_clock_calibrated epoch telem offset
  ok (record clock { offset_adj_slow = update clock.offset_adj_slow replica_id offset }, telem')

-- The loop of `clock_voter_clip` over the replicas from `i` on.
unfoldable pub count_mismatches : Clock → ℕ → ℕ → ℕ → ℕ
count_mismatches clock fast zero i = 0
count_mismatches clock fast (suc n) i =
    (if fast == clock.offset_adj_slow i then 0 else 1) + count_mismatches clock fast n (i + 1)

unfoldable pub clock_voter_clip : Clock → Clock
unfolding count_mismatches
clock_voter_clip clock =
    let fast = clock_offset_adj_vote clock in
    record clock {
      offset_adj_fast = fast;
      calibration_required =
          fast == clock_uncalibrated || ltb 0 (count_mismatches clock fast clock.replicas 0);
    }

-- `enum clock_state`
pub data ClockState : Type 0 where
  clock_idle clock_read_magic_number clock_read_current_time clock_calibrated : ClockState

abbrev pub state_of : ℕ → Option ClockState
state_of zero = some clock_idle
state_of (suc zero) = some clock_read_magic_number
state_of (suc (suc zero)) = some clock_read_current_time
state_of (suc (suc (suc zero))) = some clock_calibrated
state_of (suc (suc (suc (suc n)))) = none

abbrev pub number_of : ClockState → ℕ
number_of clock_idle = 0
number_of clock_read_magic_number = 1
number_of clock_read_current_time = 2
number_of clock_calibrated = 3

-- `struct clock_replica_note`: the state, and the number of the last RMAP transaction behind it.
abbrev pub checked_note : List ℕ → Bool → ClockState × ℕ
checked_note note false = (clock_idle, rmap_synch_reset)
checked_note note true = elim (state_of (of_le32 note)) [
  | none ↦ (clock_idle, rmap_synch_reset)
  | some state ↦ (state, get_or note 4 0 + get_or note 5 0 * 2 ^ 8)
]

-- The bytes of the structure behind its two fields are not written.
abbrev pub note_bytes : ClockState → ℕ → List ℕ → List ℕ
note_bytes state txn_id note =
    le32 (number_of state) ++ txn_id % 256 ∷ txn_id / 2 ^ 8 % 256 ∷ [] ++ drop 6 note

-- What the first switch works on.
pub record Cycle : Type 0 where
  pub state : ClockState
  pub rmap_txn : RmapTxn
  pub telem_txn : TlmTxn
  pub clock : Clock

abbrev pub network_time : Option ℕ → ℕ
network_time none = 0
network_time (some t) = t

abbrev pub of_be64 : List ℕ → ℕ
of_be64 bs = of_be32 bs * 2 ^ 32 + of_be32 (drop 4 bs)

-- The first switch: the reply to the last request.
unfoldable pub take_reply : ℕ → ℕ → Cycle → ClockState → Outcome Cycle
unfolding clock_configure
take_reply epoch replica_id c clock_read_magic_number = do
  (txn, status, data_bytes, _) ← rmap_read_complete c.rmap_txn 4
  let c' = record c { rmap_txn = txn }
  if not (status == rs_ok)
      then ok c'
      else if not (of_be32 data_bytes == clock_magic_num)
      then aborted
      else ok (record c' { state = clock_read_current_time })
take_reply epoch replica_id c clock_read_current_time = do
  (txn, status, data_bytes, network_timestamp) ← rmap_read_complete c.rmap_txn 8
  let c' = record c { rmap_txn = txn }
  let configured =
      (clock_configure epoch c.clock c.telem_txn replica_id (of_be64 data_bytes)
          (network_time network_timestamp)
        >>= λ (clock, telem).
            ok (record c' { state = clock_calibrated; telem_txn = telem; clock = clock }))
  if status == rs_ok then configured else ok c'
take_reply epoch replica_id c _ = ok c

-- Between the switches.
abbrev pub next_state : Bool → ClockState → ClockState
next_state required clock_idle = if required then clock_read_magic_number else clock_idle
next_state required clock_calibrated = clock_idle
next_state required state = state

-- The second switch: the next request.
abbrev pub start_request : RmapTxn → ClockState → Outcome RmapTxn
start_request txn clock_read_magic_number = rmap_read_start txn 0x00 reg_magic 4
start_request txn clock_read_current_time = rmap_read_start txn 0x00 reg_clock 8
start_request txn _ = ok txn

-- `clock_replica_t`, with what it points to
pub record ClockReplica : Type 0 where
  pub replica_id : ℕ
  pub synch : Notepad
  pub rmap : RmapReplica
  pub rx_duct : Duct
  pub tx_duct : Duct
  pub telem : TlmEndpoint

unfoldable pub clock_start_clip :
    (ℕ → ℕ) → ℕ → Clock → ClockReplica → Outcome (Clock × ClockReplica)
unfolding take_reply
clock_start_clip now epoch clock cr = do
  (notepad, note, valid) ← notepad_feedforward cr.synch cr.replica_id
  let checked = checked_note note valid
  rmap_txn ← rmap_epoch_prepare now cr.rmap checked.1 cr.rx_duct cr.tx_duct
  telem_txn ← telemetry_prepare now cr.telem cr.replica_id
  c ←
      take_reply epoch cr.replica_id
        (record { state = checked.0; rmap_txn = rmap_txn; telem_txn = telem_txn; clock = clock })
        checked.0
  let state = next_state clock.calibration_required c.state
  rmap_txn' ← start_request c.rmap_txn state
  telem ← telemetry_commit c.telem_txn
  rmap_txn'' ← rmap_epoch_commit rmap_txn'
  let place = cr.replica_id * 2 + notepad.flip_states cr.replica_id
  let next = note_bytes state rmap_txn''.current_txn_id note
  ok (
    c.clock,
    record cr {
      synch = record notepad { mutable_state = update notepad.mutable_state place next };
      rx_duct = rmap_txn''.rx_duct;
      tx_duct = rmap_txn''.tx_duct;
      telem = telem;
    },
  )
