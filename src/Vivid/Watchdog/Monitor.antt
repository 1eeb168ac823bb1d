-- ===== src/Vivid/Watchdog/Monitor.antt =====
-- The monitor's clip: what reaches the watchdog device, and when.
use mathlib.Core.List.{map}
use hailburst.Prelude.{
  ℕ, ◌+◌, ◌-◌, ◌%◌, ◌^◌, ◌≤◌, ◌<◌, ◌≡◌, refl, ap, ◌∙◌, ◌++◌, ◌∷◌, le32, Bool, true, false, ◌==◌,
  leb, List, [], Option, none, some, inl, inr, Bool-cases, get_elem?, if◌then◌else◌, Outcome, ok,
  aborted, arith,
}
use hailburst.Synch.Duct.{Packet}
use hailburst.Synch.Duct.Offer.{IsValid, offered}
use hailburst.Synch.Duct.Send.{AllFit, sent, after_send}
use hailburst.Synch.Duct.Session.{consumed}
use hailburst.Vivid.Watchdog.Voter.{
  WatchdogDevice, WatchdogMonitor, food_of, watchdog_check_can_feed_yet, follow_food,
  recipe_message, watchdog_monitor_clip,
}
use hailburst.Vivid.Watchdog.Vote.{Hears, receive_one-eq, unstamped, send_one-eq, send_one-offered}

module _ (device : WatchdogDevice) where
  open device use {State, r_greet, r_deadline, r_early_offset, feed}

  -- The 32-bit comparison gives the order of the 64-bit times, if the earliest time for feeding, which is
  -- the deadline less the offset, is less than 2 ^ 31 nanoseconds away.
  pub watchdog_check_can_feed_yet_lem :
      (now_full deadline : ℕ) (mmio : State)
      → r_deadline mmio ≡ deadline % 2 ^ 32
      → r_early_offset mmio < 2 ^ 32
      → r_early_offset mmio ≤ deadline
      → deadline - r_early_offset mmio < now_full + 2 ^ 31
      → now_full < deadline - r_early_offset mmio + 2 ^ 31
      → watchdog_check_can_feed_yet device now_full mmio
        ≡ leb (deadline - r_early_offset mmio) now_full
  unfolding watchdog_check_can_feed_yet
  watchdog_check_can_feed_yet_lem now_full deadline mmio e small before near far = ground arith

  module _ (now : ℕ → ℕ) (now_full : ℕ) (w : WatchdogMonitor) (mmio : State) (o : Option Packet)
      (hears : Hears w.food_duct 0 o) (v : IsValid w.recipe_duct)
      (sized : w.recipe_duct.message_size ≡ 4) where
    abbrev run : Outcome (WatchdogMonitor × State)
    run = watchdog_monitor_clip device now now_full w mmio

    -- The clip leaves the device so, and offers every voter these messages.
    abbrev pub Leaves : State → List (List ℕ) → Type 0
    Leaves mmio' messages =
        (w' : WatchdogMonitor) × (run ≡ ok (w', mmio'))
        × ((r k : ℕ)
            → r < w.recipe_duct.receiver_replicas
            → offered w'.recipe_duct r k 0 ≡ get_elem? (map sent (unstamped messages)) k)

    recipe-AllFit :
        (ask : Bool) (recipe : ℕ)
        → AllFit w.recipe_duct.message_size (unstamped (recipe_message ask recipe))
    recipe-AllFit true recipe = (omega arith, omega (arith, sized), tt)
    recipe-AllFit false recipe = tt

    run-Leaves :
        (mmio' : State) (ask : Bool)
        → follow_food device (watchdog_check_can_feed_yet device now_full mmio) (food_of o) mmio
          ≡ ok (mmio', ask)
        → Leaves mmio' (recipe_message ask (r_greet mmio'))
    unfolding watchdog_monitor_clip
    run-Leaves mmio' ask e =
        let messages = recipe_message ask (r_greet mmio') in
        let fit = recipe-AllFit ask (r_greet mmio') in
        (
          record {
            recipe_duct = after_send now w.recipe_duct 0 (unstamped messages);
            food_duct = consumed now w.food_duct 0;
          },
          rw
              (
                receive_one-eq now w.food_duct 0 o hears,
                e,
                send_one-eq now w.recipe_duct v 0 v.some_sender messages fit,
              )
              refl,
          λ r k h. send_one-offered now w.recipe_duct v 0 v.some_sender messages r k fit h,
        )

    -- Five bytes are food, lowest byte first, and a flag for the reset; of another size they are nothing.
    abbrev pub Says : Option Packet → Option (ℕ × Bool) → Type 0
    Says none none = Unit {0}
    Says (some p) none = ¬ (p.size ≡ 5)
    Says packet (some (food, reset)) =
        (food < 2 ^ 32) × (packet ≡ some (sent (le32 food ++ (if reset then 1 else 0) ∷ [], 0)))

    food_of-eq :
        (message : Option (ℕ × Bool)) (p : Option Packet) → Says p message → food_of p ≡ message
    food_of-eq none none says = refl
    food_of-eq none (some p) says = elim (Bool-cases (p.size == 5)) [
      | inl five ↦ absurd (says (ground arith))
      | inr other ↦ rw other refl
    ]
    food_of-eq (some (food, true)) p says =
        ap food_of says.1 ∙ ap (λ n. some (n, true)) (omega (arith, says.0))
    food_of-eq (some (food, false)) p says =
        ap food_of says.1 ∙ ap (λ n. some (n, false)) (omega (arith, says.0))

    -- How the clip ends, for a message and for whether the earliest time for feeding has come.
    abbrev pub Ends : Option (ℕ × Bool) → Bool → Type 0
    Ends (some (food, true)) _ = run ≡ aborted
    Ends (some (food, false)) true =
        if r_deadline (feed food mmio) == r_deadline mmio
        then run ≡ aborted
        else Leaves (feed food mmio) []
    Ends (some (food, false)) false = Leaves mmio []
    Ends none true = Leaves mmio (le32 (r_greet mmio) ∷ [])
    Ends none false = Leaves mmio []

    ends :
        (message : Option (ℕ × Bool)) (can : Bool)
        → food_of o ≡ message
        → watchdog_check_can_feed_yet device now_full mmio ≡ can
        → Ends message can
    unfolding watchdog_monitor_clip
    ends (some (food, true)) can e c = rw (receive_one-eq now w.food_duct 0 o hears, e) refl
    ends (some (food, false)) true e c =
        elim (Bool-cases (r_deadline (feed food mmio) == r_deadline mmio)) [
          | inl same ↦ rw same (rw (receive_one-eq now w.food_duct 0 o hears, e, c, same) refl)
          | inr moved ↦ rw moved (run-Leaves (feed food mmio) false (rw (e, c, moved) refl))
        ]
    ends (some (food, false)) false e c = run-Leaves mmio false (rw (e, c) refl)
    ends none true e c = run-Leaves mmio true (rw (e, c) refl)
    ends none false e c = run-Leaves mmio false (rw (e, c) refl)

    module _ (deadline : ℕ) (reads : r_deadline mmio ≡ deadline % 2 ^ 32)
        (small : r_early_offset mmio < 2 ^ 32) (before : r_early_offset mmio ≤ deadline)
        (near : deadline - r_early_offset mmio < now_full + 2 ^ 31)
        (far : now_full < deadline - r_early_offset mmio + 2 ^ 31) where
      -- On valid ducts, with recipe messages of four bytes, where a strict majority of the voters
      -- offers the monitor one and the same message, or nothing, let the deadline that the device
      -- shows be a time modulo 2^32, and the earliest time for feeding that time less the device's
      -- early offset, of 32 bits, not below 0 and less than 2^31 nanoseconds from now. If the
      -- message is food with the flag for a reset, the clip aborts, which resets the system. If it
      -- is food without it, the device is fed exactly that if the earliest time has come, where the
      -- clip aborts unless that moves the deadline, and is not touched before; no recipe is sent.
      -- If there is no message of five bytes, the device is not touched, and its recipe is offered
      -- to the voters, lowest byte first, exactly if the earliest time has come.
      pub watchdog_monitor_clip_lem :
          (message : Option (ℕ × Bool))
          → Says o message
          → Ends message (leb (deadline - r_early_offset mmio) now_full)
      watchdog_monitor_clip_lem message says =
          ends message (leb (deadline - r_early_offset mmio) now_full) (food_of-eq message o says)
            (watchdog_check_can_feed_yet_lem now_full deadline mmio reads small before near far)
