-- ===== src/Synch/Duct/Solo.antt =====
-- A duct of synch/duct.c with one sender and one receiver, and its state behind the sender's
-- transaction: concrete ducts for the tests.
use mathlib.Core.List.{map}
use hailburst.Prelude.{ℕ, zero, suc, ◌≤◌, Bool, true, List, [], length, arith}
use hailburst.Synch.Flag.{initial_flag}
use hailburst.Synch.Duct.Defs.{Duct, missing_flow, majority_threshold}
use hailburst.Synch.Duct.Offer.{IsValid}
use hailburst.Synch.Duct.Send.{Outgoing, AllFit, sent, after_send, offered-own}
use hailburst.Synch.Duct.Receive.{Offers, count_good}

abbrev pub solo : ℕ → ℕ → Duct
solo size flow = record {
  sender_replicas = 1;
  receiver_replicas = 1;
  max_flow = flow;
  message_size = size;
  message_buffer = λ _. record { size = 0; timestamp = 0; body = [] };
  flow_status = λ _. missing_flow;
  flags_receive = λ _. initial_flag;
  flags_send = λ _. initial_flag;
}

abbrev pub zero_clock : ℕ → ℕ
zero_clock _ = 0

abbrev pub loaded : ℕ → ℕ → List Outgoing → Duct
loaded size flow ms = after_send zero_clock (solo size flow) 0 ms

abbrev pub everyone : ℕ → Bool
everyone _ = true

module _ (size flow : ℕ) (some : 1 ≤ flow) (few : flow ≤ 254) where
  pub solo-IsValid : IsValid (solo size flow)
  solo-IsValid = record {
    some_sender = omega arith;
    few_senders = omega arith;
    some_receiver = omega arith;
    few_receivers = omega arith;
    some_flow = some;
    little_flow = few;
  }

  pub loaded-IsValid : (ms : List Outgoing) → IsValid (loaded size flow ms)
  loaded-IsValid ms = record {
    some_sender = omega arith;
    few_senders = omega arith;
    some_receiver = omega arith;
    few_receivers = omega arith;
    some_flow = some;
    little_flow = few;
  }

  pub loaded-quorum :
      (ms : List Outgoing) → majority_threshold (loaded size flow ms) ≤ count_good everyone 1 0
  unfolding count_good
  loaded-quorum ms = omega arith

  pub loaded-Offers :
      (ms : List Outgoing)
      → length ms ≤ flow
      → AllFit size ms
      → Offers (loaded size flow ms) 0 everyone (map sent ms)
  loaded-Offers ms short fit zero k h g =
      offered-own zero_clock (solo size flow) solo-IsValid 0 (omega arith) ms short fit 0 k
        (omega arith)
  loaded-Offers ms short fit (suc s) k h g = absurd (omega arith)
