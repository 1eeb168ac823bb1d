-- ===== src/Flight/Telemetry/Messages.antt =====
-- The telemetry messages of flight/telemetry.c, by the bytes of their packed structures.
use hailburst.Prelude.{
  ℕ, zero, suc, ◌+◌, ◌-◌, ◌*◌, ◌/◌, ◌%◌, ◌^◌, Bool, ◌&&◌, List, [], ◌∷◌, ◌++◌, ◌==◌, leb,
  if◌then◌else◌, length, be32, be64, Outcome, ok, ◌>>=◌, ◌>>◌, assert,
}
use hailburst.Flight.Telemetry.Submit.{
  TlmTxn, telemetry_small_submit, telemetry_large_start, telemetry_large_submit,
}

abbrev pub cmd_received_tid : ℕ
cmd_received_tid = 0x01000001

abbrev pub cmd_completed_tid : ℕ
cmd_completed_tid = 0x01000002

abbrev pub cmd_not_recognized_tid : ℕ
cmd_not_recognized_tid = 0x01000003

abbrev pub tlm_dropped_tid : ℕ
tlm_dropped_tid = 0x01000004

abbrev pub pong_tid : ℕ
pong_tid = 0x01000005

abbrev pub clock_calibrated_tid : ℕ
clock_calibrated_tid = 0x01000006

abbrev pub heartbeat_tid : ℕ
heartbeat_tid = 0x01000007

abbrev pub mag_pwr_state_changed_tid : ℕ
mag_pwr_state_changed_tid = 0x02000001

abbrev pub mag_readings_array_tid : ℕ
mag_readings_array_tid = 0x02000002

module _ (epoch : ℕ) where
  unfoldable pub tlm_cmd_received : TlmTxn → ℕ → ℕ → Outcome TlmTxn
  tlm_cmd_received txn original_timestamp original_command_id =
      telemetry_small_submit epoch txn cmd_received_tid
        (be64 original_timestamp ++ be32 original_command_id)

  unfoldable pub tlm_cmd_completed : TlmTxn → ℕ → ℕ → Bool → Outcome TlmTxn
  tlm_cmd_completed txn original_timestamp original_command_id success =
      telemetry_small_submit epoch txn cmd_completed_tid
        (be64 original_timestamp ++ be32 original_command_id ++ (if success then 1 else 0) ∷ [])

  unfoldable pub tlm_cmd_not_recognized : TlmTxn → ℕ → ℕ → ℕ → Outcome TlmTxn
  tlm_cmd_not_recognized txn original_timestamp original_command_id len =
      telemetry_small_submit epoch txn cmd_not_recognized_tid
        (be64 original_timestamp ++ be32 original_command_id ++ be32 len)

  unfoldable pub tlm_pong : TlmTxn → ℕ → Outcome TlmTxn
  tlm_pong txn ping_id = telemetry_small_submit epoch txn pong_tid (be32 ping_id)

  unfoldable pub tlm_clock_calibrated : TlmTxn → ℕ → Outcome TlmTxn
  tlm_clock_calibrated txn adjustment =
      telemetry_small_submit epoch txn clock_calibrated_tid (be64 adjustment)

  unfoldable pub tlm_heartbeat : TlmTxn → Outcome TlmTxn
  tlm_heartbeat txn = telemetry_small_submit epoch txn heartbeat_tid []

  unfoldable pub tlm_mag_pwr_state_changed : TlmTxn → Bool → Outcome TlmTxn
  tlm_mag_pwr_state_changed txn power_state =
      telemetry_small_submit epoch txn mag_pwr_state_changed_tid
        ((if power_state then 1 else 0) ∷ [])

-- `tlm_mag_reading_t`: the field strengths are 16-bit two's complement numbers.
pub record Reading : Type 0 where
  pub reading_time : ℕ
  pub mag_x : ℕ
  pub mag_y : ℕ
  pub mag_z : ℕ

-- htobe16
abbrev pub be16 : ℕ → List ℕ
be16 x = x / 2 ^ 8 % 256 ∷ x % 256 ∷ []

abbrev pub reading_bytes : Reading → List ℕ
reading_bytes rd =
    be16 (rd.reading_time / 2 ^ 48)
    ++ be16 (rd.reading_time / 2 ^ 32)
    ++ be16 (rd.reading_time / 2 ^ 16)
    ++ be16 rd.reading_time
    ++ be16 rd.mag_x
    ++ be16 rd.mag_y
    ++ be16 rd.mag_z

-- The loop over the readings from `i` on: the bytes that it writes.
unfoldable pub readings_bytes : (ℕ → Outcome Reading) → ℕ → ℕ → Outcome (List ℕ)
readings_bytes fetch zero i = ok []
readings_bytes fetch (suc n) i = do
  rd ← fetch i
  rest ← readings_bytes fetch n (i + 1)
  ok (reading_bytes rd ++ rest)

abbrev pub max_readings_per_map : ℕ
max_readings_per_map = (65536 - 2 * 8) / 14

unfoldable pub tlm_mag_readings_map :
    ℕ → TlmTxn → ℕ → ℕ → ℕ → (ℕ → Outcome Reading) → Outcome TlmTxn
tlm_mag_readings_map epoch txn earliest_time latest_time fetch_count fetch = do
  assert (leb 1 fetch_count && leb fetch_count max_readings_per_map)
  telemetry_large_start txn
  readings ← readings_bytes fetch fetch_count 0
  let data_bytes = be64 earliest_time ++ be64 latest_time ++ readings
  assert (length data_bytes == fetch_count * 14 + 16)
  telemetry_large_submit epoch txn mag_readings_array_tid data_bytes
