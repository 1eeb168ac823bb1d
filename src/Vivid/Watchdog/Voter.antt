-- ===== src/Vivid/Watchdog/Voter.antt =====
-- The clips of the watchdog.
use hailburst.Prelude.{
  ℕ, ◌+◌, ◌-◌, ◌%◌, ◌^◌, Bool, true, false, not, ◌&&◌, ◌||◌, List, [], ◌∷◌, ◌++◌, Option, none,
  some, ◌==◌, ltb, leb, if◌then◌else◌, le32, of_le32, get_or, Outcome, ok, aborted, ◌>>=◌, ◌>>◌,
  assert,
}
use hailburst.Synch.Duct.{
  Duct, Txn, Packet, send_prepare, send_message, send_commit, receive_prepare, receive_message,
  receive_commit,
}
use hailburst.Vivid.Watchdog.Food.{wdt_strict_food_from_recipe}

unfoldable pub watchdog_indicate : (ℕ → ℕ) → Duct → ℕ → Bool → Outcome Duct
watchdog_indicate now aspect replica_id good = do
  (d, t) ← send_prepare now aspect replica_id
  (d', t') ← send_message d t ((if good then 1 else 0) ∷ []) 0
  (d'', _) ← send_commit d' t'
  ok d''

-- `watchdog_aspect_replica_t`
pub record Aspect : Type 0 where
  pub last_known_ok : ℕ
  pub duct : Duct
  pub timeout_ns : ℕ

-- Every replica of every aspect is given one timeout from `now`, what timer_now_ns() gives.
abbrev populate_replicas : ℕ → List Aspect → List Aspect
populate_replicas now [] = []
populate_replicas now (a ∷ rest) = record a { last_known_ok = now } ∷ populate_replicas now rest

unfoldable pub watchdog_populate_aspect_timeouts : ℕ → List (List Aspect) → List (List Aspect)
watchdog_populate_aspect_timeouts now [] = []
watchdog_populate_aspect_timeouts now (replicas ∷ rest) =
    populate_replicas now replicas ∷ watchdog_populate_aspect_timeouts now rest

-- A receiving transaction of a message: prepare, receive, commit.
unfoldable pub receive_one : (ℕ → ℕ) → Duct → ℕ → Outcome (Duct × Option Packet)
receive_one now d receiver_id = do
  (d', t) ← receive_prepare now d receiver_id
  (t', found) ← receive_message d' t
  (d'', _) ← receive_commit d' t'
  ok (d'', found)

-- Whether the byte 1 was received.
abbrev pub confirmed : Option Packet → Bool
confirmed none = false
confirmed (some p) = p.size == 1 && get_or p.bytes 0 0 == 1

-- Local times are 64-bit.
abbrev pub expired : ℕ → Aspect → Bool
expired now a = ltb now a.last_known_ok || ltb ((a.last_known_ok + a.timeout_ns) % 2 ^ 64) now

-- The loop of `watchdog_aspects_ok`; `epoch` is what timer_epoch_ns() gives.
unfoldable pub watchdog_aspects_ok :
    (ℕ → ℕ) → ℕ → ℕ → List Aspect → Bool → Outcome (List Aspect × Bool)
watchdog_aspects_ok now epoch replica_id [] all_ok = ok ([], all_ok)
watchdog_aspects_ok now epoch replica_id (a ∷ rest) all_ok = do
  (d, found) ← receive_one now a.duct replica_id
  let a' = record a { duct = d; last_known_ok = if confirmed found then epoch else a.last_known_ok }
  let still = if confirmed found then all_ok else if expired epoch a then false else all_ok
  (rest', result) ← watchdog_aspects_ok now epoch replica_id rest still
  ok (a' ∷ rest', result)

-- `struct watchdog_food_message`, as its five bytes
abbrev pub food_bytes : ℕ → Bool → List ℕ
food_bytes food force_reset = le32 food ++ (if force_reset then 1 else 0) ∷ []

-- The recipe of a message of the right size.
abbrev pub recipe_of : Option Packet → Option ℕ
recipe_of none = none
recipe_of (some p) = if p.size == 4 then some (of_le32 p.bytes) else none

-- What the voter sends.
abbrev pub food_message : Bool → Option ℕ → List (List ℕ)
food_message false recipe = food_bytes 0 true ∷ []
food_message true (some recipe) = food_bytes (wdt_strict_food_from_recipe recipe) false ∷ []
food_message true none = []

-- duct_send_message for what there is to send.
abbrev pub send_optional : Duct → Txn → List (List ℕ) → Outcome (Duct × Txn)
send_optional d t [] = ok (d, t)
send_optional d t (message ∷ _) = send_message d t message 0

-- A sending transaction of at most one message.
unfoldable pub send_one : (ℕ → ℕ) → Duct → ℕ → List (List ℕ) → Outcome Duct
send_one now d sender_id messages = do
  (d', t) ← send_prepare now d sender_id
  (d'', t') ← send_optional d' t messages
  (d''', _) ← send_commit d'' t'
  ok d'''

-- `watchdog_voter_replica_t`
pub record WatchdogVoter : Type 0 where
  pub replica_id : ℕ
  pub aspects : List Aspect
  pub recipe_duct : Duct
  pub food_duct : Duct

unfoldable pub watchdog_voter_clip : (ℕ → ℕ) → ℕ → WatchdogVoter → Outcome WatchdogVoter
watchdog_voter_clip now epoch w = do
  (recipe_duct, found) ← receive_one now w.recipe_duct w.replica_id
  (aspects, aspects_ok) ← watchdog_aspects_ok now epoch w.replica_id w.aspects true
  food_duct ← send_one now w.food_duct w.replica_id (food_message aspects_ok (recipe_of found))
  ok (record w { aspects = aspects; recipe_duct = recipe_duct; food_duct = food_duct })

-- The device: what its registers read, and what a write to `r_feed` makes of it.
pub record WatchdogDevice : Type 1 where
  pub State : Type 0
  pub r_greet : State → ℕ
  pub r_deadline : State → ℕ
  pub r_early_offset : State → ℕ
  pub feed : ℕ → State → State

-- `watchdog_monitor_t`
pub record WatchdogMonitor : Type 0 where
  pub recipe_duct : Duct
  pub food_duct : Duct

-- The food and the reset flag of a message of the right size.
abbrev pub food_of : Option Packet → Option (ℕ × Bool)
food_of none = none
food_of (some p) =
    if p.size == 5 then some (of_le32 p.bytes, not (get_or p.bytes 4 0 == 0)) else none

abbrev pub recipe_message : Bool → ℕ → List (List ℕ)
recipe_message can_feed_yet recipe = if can_feed_yet then le32 recipe ∷ [] else []

module _ (device : WatchdogDevice) where
  open device use {State, r_greet, r_deadline, r_early_offset, feed}

  -- A 32-bit difference is not above 0 as a two's complement number; `now_full` is the 64-bit time.
  unfoldable pub watchdog_check_can_feed_yet : ℕ → State → Bool
  watchdog_check_can_feed_yet now_full mmio =
      let earliest = (r_deadline mmio + (2 ^ 32 - r_early_offset mmio)) % 2 ^ 32 in
      let delay_until_earliest = (earliest + (2 ^ 32 - now_full % 2 ^ 32)) % 2 ^ 32 in
      delay_until_earliest == 0 || leb (2 ^ 31) delay_until_earliest

  -- What the monitor does with a message: the device, and whether a recipe may be sent.
  abbrev pub follow_food : Bool → Option (ℕ × Bool) → State → Outcome (State × Bool)
  follow_food can_feed_yet none mmio = ok (mmio, can_feed_yet)
  follow_food can_feed_yet (some (food, true)) mmio = aborted
  follow_food false (some (food, false)) mmio = ok (mmio, false)
  follow_food true (some (food, false)) mmio =
      assert (not (r_deadline (feed food mmio) == r_deadline mmio)) >> ok (feed food mmio, false)

  unfoldable pub watchdog_monitor_clip :
      (ℕ → ℕ) → ℕ → WatchdogMonitor → State → Outcome (WatchdogMonitor × State)
  unfolding watchdog_check_can_feed_yet
  watchdog_monitor_clip now now_full w mmio = do
    (food_duct, found) ← receive_one now w.food_duct 0
    let can_feed_yet = watchdog_check_can_feed_yet now_full mmio
    (mmio', can_ask) ← follow_food can_feed_yet (food_of found) mmio
    recipe_duct ← send_one now w.recipe_duct 0 (recipe_message can_ask (r_greet mmio'))
    ok (record { recipe_duct = recipe_duct; food_duct = food_duct }, mmio')
