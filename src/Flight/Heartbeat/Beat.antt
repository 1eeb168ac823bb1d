-- ===== src/Flight/Heartbeat/Beat.antt =====
-- When the clip of flight/heartbeat.c beats.
use mathlib.Core.List.{map}
use hailburst.Prelude.{
  ℕ, ◌+◌, ◌-◌, ◌*◌, ◌%◌, ◌^◌, ◌≤◌, ◌<◌, ◌≡◌, refl, ap, ◌∙◌, Bool, true, false, not, ◌&&◌, ◌||◌,
  List, [], ◌∷◌, ltb, leb, ◌==◌, ==_refl, le→ltb, length, get_elem?, if◌then◌else◌, update, le64,
  of_le64, of_le64-le64, ok, arith,
}
use hailburst.Synch.Duct.{Duct}
use hailburst.Synch.Duct.Offer.{IsValid, offered}
use hailburst.Synch.Duct.Send.{Outgoing, AllFit, sent, after_send, offered-own}
use hailburst.Synch.Duct.Session.{send_prepare-opened, send_message-opened, send_commit-opened}
use hailburst.Synch.Notepad.{Notepad, notepad_feedforward}
use hailburst.Flight.Clock.{Clock, clock_is_calibrated}
use hailburst.Flight.Telemetry.{async, heartbeat_tid, tlm_heartbeat}
use hailburst.Flight.Telemetry.Session.{
  carrying, small, sizeof_async, telemetry_prepare-carrying, telemetry_small_submit-carrying,
  telemetry_commit-carrying,
}
use hailburst.Vivid.Watchdog.{watchdog_indicate}
use hailburst.Flight.Heartbeat.Defs.{
  Heartbeat, heartbeat_period, checked_time, is_due, heartbeat_main_clip,
}

-- The note is not to be trusted, or the period since the heartbeat of the time `last` is over.
abbrev pub over : ℕ → ℕ → Bool → Bool
over now last valid = not valid || ltb now last || leb (last + 120000000) now

due_lem :
    (calibrated valid : Bool) (now last : ℕ)
    → now + 120000000 < 2 ^ 64
    → (calibrated
        && leb
            (((if not valid || ltb now last
                  then (now + (2 ^ 64 - heartbeat_period)) % 2 ^ 64
                  else last)
                + heartbeat_period)
              % 2 ^ 64)
            now)
      ≡ (calibrated && over now last valid)
due_lem false valid now last later = refl
due_lem true false now last later = ground arith
due_lem true true now last later = ground arith

is_due-over :
    (clock : Clock) (now last : ℕ) (valid : Bool)
    → last < 2 ^ 64
    → now + 120000000 < 2 ^ 64
    → is_due clock now (checked_time now (le64 last) valid)
      ≡ (clock_is_calibrated clock && over now last valid)
is_due-over clock now last valid range later =
    ap
      (λ t.
        clock_is_calibrated clock
        && leb
            (((if not valid || ltb now t then (now + (2 ^ 64 - heartbeat_period)) % 2 ^ 64 else t)
                + heartbeat_period)
              % 2 ^ 64)
            now)
      (of_le64-le64 last [] range)
    ∙ due_lem (clock_is_calibrated clock) valid now last later

checked_time-valid :
    (now last : ℕ) (valid : Bool)
    → last < 2 ^ 64
    → valid ≡ true
    → last ≤ now
    → checked_time now (le64 last) valid ≡ last
checked_time-valid now last valid range sure past =
    let read = of_le64-le64 last [] range in
    let known : ltb now (of_le64 (le64 last)) ≡ false = le→ltb _ _ (omega (arith, read)) in
    rw (sure, known) read

abbrev beats : ℕ → Bool → List Outgoing
beats now due = if due then small now heartbeat_tid [] ∷ [] else []

module _ (clock_now : ℕ → ℕ) (d : Duct) (v : IsValid d) (r : ℕ) (own : r < d.sender_replicas) where
  watchdog_indicate-eq :
      (good : Bool)
      → d.message_size ≡ 1
      → watchdog_indicate clock_now d r good
        ≡ ok (after_send clock_now d r (((if good then 1 else 0) ∷ [], 0) ∷ []))
  unfolding watchdog_indicate
  watchdog_indicate-eq good sized =
      rw
        (
          send_prepare-opened clock_now d v r own,
          send_message-opened clock_now d v r own [] ((if good then 1 else 0) ∷ []) 0 v.some_flow
              (omega arith) (omega (arith, sized)),
          send_commit-opened clock_now d v r own (((if good then 1 else 0) ∷ [], 0) ∷ [])
              v.some_flow,
        )
        refl

  beats-carrying :
      (now : ℕ) (due : Bool)
      → d.message_size ≡ sizeof_async
      → (if due
          then tlm_heartbeat now (carrying clock_now d r [])
          else ok (carrying clock_now d r []))
        ≡ ok (carrying clock_now d r (beats now due))
  unfolding tlm_heartbeat
  beats-carrying now true sized =
      telemetry_small_submit-carrying clock_now d v sized r own now [] heartbeat_tid [] v.some_flow
        (omega arith)
  beats-carrying now false sized = refl

  beats-Suits :
      (now : ℕ) (due : Bool)
      → d.message_size ≡ sizeof_async
      → (length (beats now due) ≤ d.max_flow) × AllFit d.message_size (beats now due)
  beats-Suits now true sized = (v.some_flow, (omega arith, omega (arith, sized), tt))
  beats-Suits now false sized = (omega arith, tt)

module _ (clock_now : ℕ → ℕ) (clock : Clock) (now : ℕ) (h : Heartbeat) (d : Duct)
    (tl : h.telemetry ≡ async d) (v : IsValid d) (sized : d.message_size ≡ sizeof_async)
    (own : h.replica_id < d.sender_replicas) (w : IsValid h.aspect)
    (aspect_sized : h.aspect.message_size ≡ 1)
    (aspect_own : h.replica_id < h.aspect.sender_replicas) where
  abbrev pub due : ℕ → Bool → Bool
  due last valid = clock_is_calibrated clock && over now last valid

  -- On valid ducts of the registered sizes, if the notepad gives the note of the time `last`, which
  -- is below 2^64, and the time of this cycle plus the period of 120 milliseconds is below 2^64,
  -- the clip aborts nowhere. It offers one heartbeat message exactly if the clock is calibrated and
  -- the note is not valid, is from the future, or is from at least the period of 120 milliseconds
  -- ago, and none otherwise, and it tells the watchdog which of the two. Where it offers one, its
  -- next note holds the time of this cycle, and where the note was valid and not from the future
  -- and it offers none, the next note holds the same time.
  pub heartbeat_main_clip_lem :
      (notepad : Notepad) (last : ℕ) (valid : Bool)
      → notepad_feedforward h.mut_synch h.replica_id ≡ ok (notepad, le64 last, valid)
      → last < 2 ^ 64
      → now + 120000000 < 2 ^ 64
      → (h' : Heartbeat) × (d' : Duct) × (heartbeat_main_clip clock_now clock now h ≡ ok h')
        × (h'.telemetry ≡ async d')
        × ((r k : ℕ)
            → r < d.receiver_replicas
            → offered d' r k h.replica_id
              ≡ get_elem?
                  (map sent (if due last valid then small now heartbeat_tid [] ∷ [] else []))
                  k)
        × ((r k : ℕ)
            → r < h.aspect.receiver_replicas
            → offered h'.aspect r k h.replica_id
              ≡ get_elem? (map sent (((if due last valid then 1 else 0) ∷ [], 0) ∷ [])) k)
        × (due last valid ≡ true
            → h'.mut_synch.mutable_state (h.replica_id * 2 + notepad.flip_states h.replica_id)
              ≡ le64 now)
        × (due last valid ≡ false
            → valid ≡ true
            → last ≤ now
            → h'.mut_synch.mutable_state (h.replica_id * 2 + notepad.flip_states h.replica_id)
              ≡ le64 last)
  unfolding heartbeat_main_clip
  heartbeat_main_clip_lem notepad last valid fed range later =
      let e = is_due-over clock now last valid range later in
      let fit = beats-Suits clock_now d v h.replica_id own now (due last valid) sized in
      let msgs = beats now (due last valid) in
      let told : List Outgoing = ((if due last valid then 1 else 0) ∷ [], 0) ∷ [] in
      let place = h.replica_id * 2 + notepad.flip_states h.replica_id in
      let next = le64 (if due last valid then now else checked_time now (le64 last) valid) in
      let here : (place == place) ≡ true = ==_refl place in
      (
        record h {
          mut_synch = record notepad { mutable_state = update notepad.mutable_state place next };
          telemetry = async (after_send clock_now d h.replica_id msgs);
          aspect = after_send clock_now h.aspect h.replica_id told;
        },
        after_send clock_now d h.replica_id msgs,
        rw
            (
              fed,
              tl,
              telemetry_prepare-carrying clock_now d v sized h.replica_id own,
              e,
              beats-carrying clock_now d v h.replica_id own now (due last valid) sized,
              watchdog_indicate-eq clock_now h.aspect w h.replica_id aspect_own (due last valid)
                  aspect_sized,
              telemetry_commit-carrying clock_now d v sized h.replica_id own msgs fit.0,
            )
            refl,
        refl,
        (λ r k hr. offered-own clock_now d v h.replica_id own msgs fit.0 fit.1 r k hr),
        (λ r k hr.
            offered-own clock_now h.aspect w h.replica_id aspect_own told w.some_flow
              (omega arith, omega (arith, aspect_sized), tt) r k hr),
        (λ yes. rw (here, yes) refl),
        λ none_due sure past.
            rw (here, none_due) (ap le64 (checked_time-valid now last valid range sure past)),
      )
