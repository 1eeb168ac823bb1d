-- ===== src/Flight/Heartbeat/Defs.antt =====
-- The clip of flight/heartbeat.c. Times are 64-bit.
use hailburst.Prelude.{
  ℕ, ◌+◌, ◌-◌, ◌*◌, ◌%◌, ◌^◌, Bool, not, ◌&&◌, ◌||◌, List, ltb, leb, if◌then◌else◌, update, le64,
  of_le64, Outcome, ok, ◌>>=◌,
}
use hailburst.Synch.Duct.{Duct}
use hailburst.Synch.Notepad.{Notepad, notepad_feedforward}
use hailburst.Flight.Clock.{Clock, clock_is_calibrated}
use hailburst.Flight.Telemetry.{TlmEndpoint, telemetry_prepare, telemetry_commit, tlm_heartbeat}
use hailburst.Vivid.Watchdog.{watchdog_indicate}

-- HEARTBEAT_PERIOD, in nanoseconds
abbrev pub heartbeat_period : ℕ
heartbeat_period = 120 * 1000000

-- `heartbeat_replica_t`, with what it points to
pub record Heartbeat : Type 0 where
  pub replica_id : ℕ
  pub mut_synch : Notepad
  pub telemetry : TlmEndpoint
  pub aspect : Duct

-- The time of the last heartbeat, after the check of the note.
abbrev pub checked_time : ℕ → List ℕ → Bool → ℕ
checked_time now note valid =
    if not valid || ltb now (of_le64 note)
    then (now + (2 ^ 64 - heartbeat_period)) % 2 ^ 64
    else of_le64 note

abbrev pub is_due : Clock → ℕ → ℕ → Bool
is_due clock now last_heartbeat_time =
    clock_is_calibrated clock && leb ((last_heartbeat_time + heartbeat_period) % 2 ^ 64) now

-- `now` is what timer_epoch_ns() gives, and `clock_now` the clock of the flags of ducts.
unfoldable pub heartbeat_main_clip : (ℕ → ℕ) → Clock → ℕ → Heartbeat → Outcome Heartbeat
heartbeat_main_clip clock_now clock now h = do
  (notepad, note, valid) ← notepad_feedforward h.mut_synch h.replica_id
  let last_heartbeat_time = checked_time now note valid
  telem ← telemetry_prepare clock_now h.telemetry h.replica_id
  let due = is_due clock now last_heartbeat_time
  telem' ← if due then tlm_heartbeat now telem else ok telem
  aspect ← watchdog_indicate clock_now h.aspect h.replica_id due
  telemetry ← telemetry_commit telem'
  let place = h.replica_id * 2 + notepad.flip_states h.replica_id
  let next = le64 (if due then now else last_heartbeat_time)
  ok (record h {
    mut_synch = record notepad { mutable_state = update notepad.mutable_state place next };
    telemetry = telemetry;
    aspect = aspect;
  })
