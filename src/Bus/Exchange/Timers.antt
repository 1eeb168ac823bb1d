-- ===== src/Bus/Exchange/Timers.antt =====
-- The timer of an exchange over several ticks (bus/exchange.c).
use hailburst.Prelude.{
  ℕ, zero, suc, ◌-◌, ◌≤◌, ◌≡◌, refl, ap, Bool, true, false, ◌||◌, if◌then◌else◌, arith, Bool-cases,
  inl, inr,
}
use hailburst.Bus.Exchange.Defs.{
  Note, is_connecting, is_handshaking, is_operating, check_timers, handshake_period_ticks,
}

-- So many ticks, with nothing else between them.
unfoldable pub ticks : ℕ → Note → Note
ticks zero n = n
ticks (suc k) n = ticks k (check_timers n)

-- The reminders that are due when the timer has run out: both counters while operating, and a handshake
-- while not. The timer starts again.
abbrev pub reminded : Note → ℕ → Note
reminded n period =
    if is_operating n.exc_state
    then record n { resend_fcts = true; resend_pkts = true; countdown_timeout = period }
    else record n { send_primary_handshake = true; countdown_timeout = period }

abbrev pub waiting : Note → ℕ → Note
waiting n left = record n { countdown_timeout = left }

abbrev pub running : Note → Bool
running n = is_connecting n.exc_state || is_handshaking n.exc_state || is_operating n.exc_state

early : (n : Note) (c : ℕ) → check_timers (waiting n (suc (suc c))) ≡ waiting n (suc c)
unfolding check_timers
early n c = ground arith

other_state : (c h o : Bool) → (c || h || o) ≡ true → o ≡ false → (h || c) ≡ true
other_state c true o r e = refl
other_state true false o r e = refl
other_state false false o r e = cc

due :
    (n : Note)
    → running n ≡ true
    → check_timers (waiting n 1) ≡ reminded n (handshake_period_ticks n)
unfolding check_timers handshake_period_ticks
due n r = elim (Bool-cases (is_operating n.exc_state)) [
  | inl e ↦ rw e refl
  | inr e ↦
      rw
        (
          e,
          other_state (is_connecting n.exc_state) (is_handshaking n.exc_state)
              (is_operating n.exc_state) r e,
        )
        refl
]

ticks-waiting : (j c : ℕ) (n : Note) → j ≤ c → ticks j (waiting n (suc c)) ≡ waiting n (suc c - j)
unfolding ticks
ticks-waiting zero c n h = ap (λ k. waiting n k) (omega arith)
ticks-waiting (suc j) zero n h = absurd (omega arith)
ticks-waiting (suc j) (suc c) n h =
    let less : suc (suc c) - suc j ≡ suc c - j = omega arith in
    rw (early n c, less) (ticks-waiting j c n (omega arith))

ticks-reminded :
    (c : ℕ) (n : Note)
    → running n ≡ true
    → ticks (suc c) (waiting n (suc c)) ≡ reminded n (handshake_period_ticks n)
unfolding ticks
ticks-reminded zero n r = due n r
ticks-reminded (suc c) n r = rw (early n c) (ticks-reminded c n r)

-- The note with `left` ticks to go is `waiting n left`. For an exchange in one of its three states, whose
-- countdown stands at some number of ticks above zero: before that many ticks only the countdown moves; at that tick, the reminders for both counters
-- are due while operating, and a handshake while not; and the countdown starts again at one to four
-- ticks, so that more reminders follow.
pub ticks-reminded_lem :
    (n : Note) (c : ℕ)
    → running n ≡ true
    → ((j : ℕ) → j ≤ c → ticks j (waiting n (suc c)) ≡ waiting n (suc c - j))
      × (ticks (suc c) (waiting n (suc c)) ≡ reminded n (handshake_period_ticks n))
      × (1 ≤ handshake_period_ticks n)
      × (handshake_period_ticks n ≤ 4)
unfolding handshake_period_ticks
ticks-reminded_lem n c r =
    ((λ j h. ticks-waiting j c n h), ticks-reminded c n r, omega arith, omega arith)
