-- ===== src/Synch/Duct/Round.antt =====
-- A scheduling round of a duct: every sender replica sends, then a receiver receives.
use mathlib.Core.List.{map}
use native.Mathlib.Decide.{ℕ_discrete}
use hailburst.Prelude.{
  ℕ, zero, suc, ◌+◌, ◌≤◌, ◌<◌, ◌≡◌, refl, ap, ◌∙◌, Bool, true, List, Outcome, ok, ◌>>=◌, arith,
  length, get_elem?, length-map,
}
use hailburst.Synch.Duct.Defs.{Duct, Packet, majority_threshold, offset, missing_flow}
use hailburst.Synch.Duct.Offer.{IsValid, offered}
use hailburst.Synch.Duct.Send.{
  Outgoing, AllFit, sent, send_all, SameShape, SameShape-IsValid, send_all_lem,
}
use hailburst.Synch.Duct.Receive.{receive_all, receive_all_lem, count_good}

-- The `n` sender replicas from `i` on run their clips in order, each with messages of its own.
unfoldable pub send_round : (ℕ → ℕ) → (ℕ → List Outgoing) → ℕ → ℕ → Duct → Outcome Duct
send_round now script zero i d = ok d
send_round now script (suc n) i d =
    send_all now d i (script i) >>= λ d'. send_round now script n (i + 1) d'

-- What each replica sends is of legal number and size. It may differ from replica to replica.
abbrev pub Legal : Duct → (ℕ → List Outgoing) → Type 0
Legal d script = (s : ℕ) → (length (script s) ≤ d.max_flow) × AllFit d.message_size (script s)

-- What holds of the duct once replicas `i` to `i + n - 1` have sent.
abbrev Sent : (ℕ → List Outgoing) → ℕ → ℕ → Duct → Duct → Type 0
Sent script n i d d' =
    SameShape d d'
    × ((s r k : ℕ)
        → i ≤ s
        → s < i + n
        → r < d.receiver_replicas
        → offered d' r k s ≡ get_elem? (map sent (script s)) k)
    × ((s r k : ℕ) → s < i → r < d.receiver_replicas → offered d' r k s ≡ offered d r k s)

send_round-Sent :
    (now : ℕ → ℕ) (script : ℕ → List Outgoing) (n i : ℕ) (d : Duct)
    → IsValid d
    → Legal d script
    → i + n ≤ d.sender_replicas
    → (d' : Duct) × (send_round now script n i d ≡ ok d') × Sent script n i d d'
unfolding send_round
send_round-Sent now script zero i d v legal h =
    (d, refl, (omega arith, (λ s r k l u _. absurd (omega arith)), λ s r k l _. refl))
send_round-Sent now script (suc n) i d v legal h =
    let (d₁, e₁, same, own, other) =
      send_all_lem now d v i (omega arith) (script i) (legal i).0 (legal i).1 in
    let legal₁ : Legal d₁ script =
      (λ s. (rw same.same_flow (legal s).0, rw same.same_size (legal s).1)) in
    let (d₂, e₂, sent₂) =
      send_round-Sent now script n (i + 1) d₁ (SameShape-IsValid d d₁ same v) legal₁
        (omega arith) in
    let room : (r : ℕ) → r < d.receiver_replicas → r < d₁.receiver_replicas =
      (λ r h. omega arith) in
    (
      d₂,
      rw e₁ e₂,
      (
        omega arith,
        (λ s r k l u hr. elim (ℕ_discrete s i) [
          | yes e ↦ rw e (sent₂.2 i r k (omega arith) (room r hr) ∙ own r k hr)
          | no ne ↦ sent₂.1 s r k (omega arith) (omega arith) (room r hr)
        ]),
        λ s r k l hr. sent₂.2 s r k (omega arith) (room r hr) ∙ other s r k (omega arith) hr,
      ),
    )

-- One round of a duct from the first replica to the last, and a receiver's transaction in it.
unfoldable pub round : (ℕ → ℕ) → (ℕ → List Outgoing) → Duct → ℕ → Outcome (Duct × List Packet)
round now script d r = send_round now script d.sender_replicas 0 d >>= λ d'. receive_all now d' r

-- On a valid duct, if a strict majority of the sender replicas send the same messages, no more than the
-- flow allows, then, whatever legal messages the other replicas send and whatever the duct held before,
-- no call aborts, the receiver gets exactly those messages in order, and the round leaves every count
-- for this receiver free for the next one.
pub round_lem :
    (now : ℕ → ℕ) (script : ℕ → List Outgoing) (good : ℕ → Bool) (messages : List Outgoing)
    (d : Duct) (r : ℕ)
    → IsValid d
    → Legal d script
    → r < d.receiver_replicas
    → majority_threshold d ≤ count_good good d.sender_replicas 0
    → ((s : ℕ) → good s ≡ true → script s ≡ messages)
    → length messages ≤ d.max_flow
    → (d' : Duct) × (round now script d r ≡ ok (d', map sent messages))
      × ((s : ℕ) → s < d.sender_replicas → d'.flow_status (offset d s r) ≡ missing_flow)
unfolding round
round_lem now script good messages d r v legal hr quorum agree few =
    let (d₁, e₁, sent₁) = send_round-Sent now script d.sender_replicas 0 d v legal (omega arith) in
    let same = sent₁.0 in
    let (d₂, e₂, free) =
      receive_all_lem now d₁ (SameShape-IsValid d d₁ same v) r (omega arith) good
        (map sent messages) (rw same.same_senders quorum) (omega (arith, length-map sent messages))
        (λ s k h g.
          sent₁.1 s r k (omega arith) (omega arith) hr
          ∙ ap (λ m. get_elem? (map sent m) k) (agree s g)) in
    (d₂, rw e₁ e₂, λ s h. rw same.same_receivers at (free s (omega arith)))
