-- ===== src/Synch/Duct/Tests.antt =====
-- Small ducts on which the theorems about ducts are applied.
use mathlib.Core.List.{map}
use hailburst.Prelude.{
  ℕ, zero, suc, ◌≤◌, ◌<◌, ◌≡◌, refl, ◌≢◌, ◌↔◌, Bool, true, not, List, [], ◌∷◌, some, leb, ◌==◌,
  if◌then◌else◌, ok, arith, Bool-cases, inl, inr, get_elem?,
}
use hailburst.Synch.Flag.{initial_flag}
use hailburst.Synch.Duct.Defs.{
  Duct, Packet, Txn, txn_recv, missing_flow, majority_threshold, offset, receive_message,
}
use hailburst.Synch.Duct.Offer.{IsValid, support, offered}
use hailburst.Synch.Duct.Vote.{IsReceiving, votes, receive_message-majority}
use hailburst.Synch.Duct.Send.{Outgoing, AllFit, sent, send_all, SameShape, send_all_lem}
use hailburst.Synch.Duct.Receive.{receive_all, receive_all_lem, count_good, Offers}
use hailburst.Synch.Duct.Round.{round, Legal, round_lem}

-- Three senders, one receiver, two messages of up to two bytes; every slot holds one message, and
-- `status` is the count of every sender.
abbrev duct_with : ℕ → Duct
duct_with status = record {
  sender_replicas = 3;
  receiver_replicas = 1;
  max_flow = 2;
  message_size = 2;
  message_buffer = λ _. record { size = 1; timestamp = 5; body = 7 ∷ 0 ∷ [] };
  flow_status = λ _. status;
  flags_receive = λ _. initial_flag;
  flags_send = λ _. initial_flag;
}

duct_with-IsValid : (status : ℕ) → IsValid (duct_with status)
duct_with-IsValid status = record {
  some_sender = omega arith;
  few_senders = omega arith;
  some_receiver = omega arith;
  few_receivers = omega arith;
  some_flow = omega arith;
  little_flow = omega arith;
}

abbrev clock : ℕ → ℕ
clock _ = 0

-- The second replica sends something else.
abbrev right : List Outgoing
right = (7 ∷ 8 ∷ [], 3) ∷ (9 ∷ [], 4) ∷ []

abbrev script : ℕ → List Outgoing
script s = if s == 1 then (6 ∷ [], 3) ∷ [] else right

abbrev others : ℕ → Bool
others s = not (s == 1)

script-Legal : Legal (duct_with missing_flow) script
script-Legal s = elim (Bool-cases (s == 1)) [
  | inl e ↦ rw e (omega arith, (omega arith, omega arith, tt))
  | inr e ↦ rw e (omega arith, (omega arith, omega arith, (omega arith, omega arith, tt)))
]

others-quorum : majority_threshold (duct_with missing_flow) ≤ count_good others 3 0
unfolding count_good
others-quorum = omega arith

others-right : (s : ℕ) → others s ≡ true → script s ≡ right
others-right s h = ground arith

round_lem_example :
    (d' : Duct) × (round clock script (duct_with missing_flow) 0 ≡ ok (d', map sent right))
    × ((s : ℕ) → s < 3 → d'.flow_status (offset (duct_with missing_flow) s 0) ≡ missing_flow)
round_lem_example =
    round_lem clock script others right (duct_with missing_flow) 0 (duct_with-IsValid missing_flow)
      script-Legal (omega arith) others-quorum others-right (omega arith)

abbrev held : Packet
held = record { size = 1; timestamp = 5; bytes = 7 ∷ [] }

abbrev reading : Txn
reading = record { mode = txn_recv; replica_id = 0; flow_current = 0 }

reading-IsReceiving : (status : ℕ) → IsReceiving (duct_with status) reading
reading-IsReceiving status = record {
  receiving = refl;
  replica_in = omega arith;
  flow_in = omega arith;
}

receive_message-majority_example :
    (majority_threshold (duct_with 1) ≤ votes (duct_with 1) reading held)
    ↔ (receive_message (duct_with 1) reading ≡ ok (record reading { flow_current = 1 }, some held))
receive_message-majority_example =
    receive_message-majority (duct_with 1) reading (duct_with-IsValid 1) (reading-IsReceiving 1)
      (omega arith) held

no_votes :
    (p : Packet)
    → votes (duct_with missing_flow) reading p < majority_threshold (duct_with missing_flow)
unfolding support
no_votes p = omega arith

all_good : ℕ → Bool
all_good _ = true

held-Offers : Offers (duct_with 1) 0 all_good (held ∷ [])
held-Offers s zero h g = refl
held-Offers s (suc k) h g = let over : leb 1 (suc k) ≡ true = (ground arith) in rw over refl

held-quorum : majority_threshold (duct_with 1) ≤ count_good all_good 3 0
unfolding count_good all_good
held-quorum = omega arith

receive_all_lem_example :
    (d' : Duct) × (receive_all clock (duct_with 1) 0 ≡ ok (d', held ∷ []))
    × ((s : ℕ) → s < 3 → d'.flow_status (offset (duct_with 1) s 0) ≡ missing_flow)
receive_all_lem_example =
    receive_all_lem clock (duct_with 1) (duct_with-IsValid 1) 0 (omega arith) all_good (held ∷ [])
      held-quorum (omega arith) held-Offers

right-AllFit : AllFit 2 right
right-AllFit = (omega arith, omega arith, (omega arith, omega arith, tt))

send_all_lem_example :
    (d' : Duct) × (send_all clock (duct_with missing_flow) 2 right ≡ ok d')
    × SameShape (duct_with missing_flow) d'
    × ((r k : ℕ) → r < 1 → offered d' r k 2 ≡ get_elem? (map sent right) k)
    × ((s r k : ℕ) → s ≢ 2 → r < 1 → offered d' r k s ≡ offered (duct_with missing_flow) r k s)
send_all_lem_example =
    send_all_lem clock (duct_with missing_flow) (duct_with-IsValid missing_flow) 2 (omega arith)
      right (omega arith) right-AllFit
