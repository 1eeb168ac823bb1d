-- ===== src/Vivid/Watchdog/Tests.antt =====
-- A voter, a monitor and a device on which the theorems are applied.
use mathlib.Core.List.{map}
use hailburst.Prelude.{
  ℕ, ◌+◌, ◌<◌, ◌≡◌, ◌%◌, ◌^◌, refl, true, false, List, [], ◌∷◌, Option, some, get_elem?, le32, ok,
  arith,
}
use hailburst.Synch.Duct.{Packet}
use hailburst.Synch.Duct.Offer.{offered}
use hailburst.Synch.Duct.Send.{AllFit, sent}
use hailburst.Synch.Duct.Solo.{
  solo, solo-IsValid, loaded, loaded-IsValid, loaded-quorum, loaded-Offers, everyone, zero_clock,
}
use hailburst.Vivid.Watchdog.Food.{integer_power_truncated}
use hailburst.Vivid.Watchdog.Power.{integer_power_truncated_lem}
use hailburst.Vivid.Watchdog.Voter.{
  Aspect, WatchdogVoter, WatchdogDevice, WatchdogMonitor, watchdog_voter_clip, food_bytes,
}
use hailburst.Vivid.Watchdog.Vote.{Hears, told, all_alive, verdict, watchdog_voter_clip_lem}
use hailburst.Vivid.Watchdog.Monitor.{Ends, watchdog_monitor_clip_lem}

integer_power_truncated_lem_example :
    integer_power_truncated 0x1234567 1000 ≡ 0x1234567 ^ 1000 % 2 ^ 32
integer_power_truncated_lem_example = integer_power_truncated_lem 0x1234567 1000 (omega arith)

loaded-Hears :
    (size : ℕ) (message : List ℕ)
    → AllFit size ((message, 0) ∷ [])
    → Hears (loaded size 1 ((message, 0) ∷ [])) 0 (some (sent (message, 0)))
loaded-Hears size message fit = record {
  valid = loaded-IsValid size 1 (omega arith) (omega arith) ((message, 0) ∷ []);
  mine = omega arith;
  good = everyone;
  quorum = loaded-quorum size 1 (omega arith) (omega arith) ((message, 0) ∷ []);
  all = loaded-Offers size 1 (omega arith) (omega arith) ((message, 0) ∷ []) (omega arith) fit;
}

abbrev aspect : ℕ → Aspect
aspect byte = record { last_known_ok = 3; duct = loaded 1 1 ((byte ∷ [], 0) ∷ []); timeout_ns = 5 }

abbrev voter : WatchdogVoter
voter = record {
  replica_id = 0;
  aspects = aspect 1 ∷ aspect 0 ∷ [];
  recipe_duct = loaded 4 1 ((le32 77, 0) ∷ []);
  food_duct = solo 5 1;
}

abbrev heard : List (Option Packet)
heard = some (sent (1 ∷ [], 0)) ∷ some (sent (0 ∷ [], 0)) ∷ []

-- At the time 7 the second aspect, which is not confirmed, is within its time.
watchdog_voter_clip_lem_example :
    (w' : WatchdogVoter) × (watchdog_voter_clip zero_clock 7 voter ≡ ok w')
    × (w'.aspects ≡ told zero_clock 7 0 voter.aspects heard)
    × ((r k : ℕ)
        → r < 1
        → offered w'.food_duct r k 0
          ≡ get_elem?
              (map sent (verdict (all_alive 7 voter.aspects heard) (some (sent (le32 77, 0)))))
              k)
watchdog_voter_clip_lem_example =
    watchdog_voter_clip_lem zero_clock 7 voter (some (sent (le32 77, 0))) heard
      (loaded-Hears 4 (le32 77) (omega arith, omega arith, tt))
      (
        loaded-Hears 1 (1 ∷ []) (omega arith, omega arith, tt),
        (loaded-Hears 1 (0 ∷ []) (omega arith, omega arith, tt), tt),
      )
      (solo-IsValid 5 1 (omega arith) (omega arith)) refl (omega arith)

-- A device whose state is its deadline, which each feeding moves.
abbrev device : WatchdogDevice
device = record {
  State = ℕ;
  r_greet = λ _. 77;
  r_deadline = λ s. s;
  r_early_offset = λ _. 10;
  feed = λ food s. s + 100;
}

abbrev monitor : WatchdogMonitor
monitor = record { recipe_duct = solo 4 1; food_duct = loaded 5 1 ((food_bytes 9 false, 0) ∷ []) }

abbrev fed_packet : Option Packet
fed_packet = some (sent (9 ∷ 0 ∷ 0 ∷ 0 ∷ 0 ∷ [], 0))

fed_packet-Hears : Hears monitor.food_duct 0 fed_packet
fed_packet-Hears = loaded-Hears 5 (food_bytes 9 false) (omega arith, omega arith, tt)

-- At the time 95, which is past 90, the earliest, the device is fed.
watchdog_monitor_clip_lem_example :
    Ends device zero_clock 95 monitor 100 fed_packet fed_packet-Hears
      (solo-IsValid 4 1 (omega arith) (omega arith))
      refl
      (some (9, false))
      true
watchdog_monitor_clip_lem_example =
    watchdog_monitor_clip_lem device zero_clock 95 monitor 100 fed_packet fed_packet-Hears
      (solo-IsValid 4 1 (omega arith) (omega arith)) refl 100 refl (omega arith) (omega arith)
      (omega arith) (omega arith) (some (9, false)) (omega arith, refl)
