-- ===== src/Flight/Heartbeat/Tests.antt =====
-- A heartbeat replica on which the theorem about the clip is applied.
use mathlib.Core.List.{map}
use hailburst.Prelude.{
  ℕ, ◌<◌, ◌≤◌, ◌≡◌, refl, Bool, true, false, if◌then◌else◌, [], ◌∷◌, get_elem?, update, le64, ok,
  le→ltb, arith,
}
use hailburst.Synch.Duct.{Duct}
use hailburst.Synch.Duct.Offer.{offered}
use hailburst.Synch.Duct.Send.{sent}
use hailburst.Synch.Duct.Receive.{count_good}
use hailburst.Synch.Duct.Solo.{solo, solo-IsValid, everyone, zero_clock}
use hailburst.Synch.Notepad.{Notepad, notepad_feedforward, majority}
use hailburst.Synch.Notepad.Feedforward.{notepad_feedforward-eq}
use hailburst.Flight.Clock.{Clock}
use hailburst.Flight.Telemetry.{async, heartbeat_tid}
use hailburst.Flight.Telemetry.Session.{small}
use hailburst.Flight.Heartbeat.Defs.{Heartbeat, heartbeat_main_clip}
use hailburst.Flight.Heartbeat.Beat.{due, heartbeat_main_clip_lem}

abbrev clock : Clock
clock = record {
  replicas = 1;
  offset_adj_slow = λ _. 7;
  offset_adj_fast = 7;
  calibration_required = false;
}

abbrev notepad : Notepad
notepad = record {
  num_replicas = 1;
  state_size = 8;
  flip_states = λ _. 0;
  mutable_state = λ _. le64 5000;
}

abbrev heartbeat : Heartbeat
heartbeat = record {
  replica_id = 0;
  mut_synch = notepad;
  telemetry = async (solo 20 1);
  aspect = solo 1 1;
}

everyone-quorum : majority notepad ≤ count_good everyone 1 0
unfolding count_good
everyone-quorum = omega arith

notepad-fed :
    notepad_feedforward notepad 0
    ≡ ok (
      record notepad {
        flip_states = update notepad.flip_states 0 1;
        mutable_state = update notepad.mutable_state 1 (le64 5000);
      },
      le64 5000,
      true,
    )
notepad-fed =
    notepad_feedforward-eq notepad 0 0 (le64 5000) everyone (omega arith) (omega arith)
      (omega arith) refl everyone-quorum (λ s h g. rw (le→ltb s 0 (omega arith)) refl)
      (λ s h g. refl)

abbrev after : Notepad
after = record notepad {
  flip_states = update notepad.flip_states 0 1;
  mutable_state = update notepad.mutable_state 1 (le64 5000);
}

abbrev is_due_at : Bool
is_due_at =
    due zero_clock clock 120005000 heartbeat (solo 20 1) refl
      (solo-IsValid 20 1 (omega arith) (omega arith)) refl (omega arith)
      (solo-IsValid 1 1 (omega arith) (omega arith)) refl (omega arith) 5000 true

heartbeat_main_clip_lem_example :
    (h' : Heartbeat) × (d' : Duct) × (heartbeat_main_clip zero_clock clock 120005000 heartbeat
      ≡ ok h')
    × (h'.telemetry ≡ async d')
    × ((r k : ℕ)
        → r < 1
        → offered d' r k 0
          ≡ get_elem?
              (map sent (if is_due_at then small 120005000 heartbeat_tid [] ∷ [] else []))
              k)
    × ((r k : ℕ)
        → r < 1
        → offered h'.aspect r k 0
          ≡ get_elem? (map sent (((if is_due_at then 1 else 0) ∷ [], 0) ∷ [])) k)
    × (is_due_at ≡ true → h'.mut_synch.mutable_state 1 ≡ le64 120005000)
    × (is_due_at ≡ false
        → true ≡ true
        → 5000 ≤ 120005000
        → h'.mut_synch.mutable_state 1 ≡ le64 5000)
heartbeat_main_clip_lem_example =
    heartbeat_main_clip_lem zero_clock clock 120005000 heartbeat (solo 20 1) refl
      (solo-IsValid 20 1 (omega arith) (omega arith)) refl (omega arith)
      (solo-IsValid 1 1 (omega arith) (omega arith)) refl (omega arith) after 5000 true notepad-fed
      (omega arith) (omega arith)
