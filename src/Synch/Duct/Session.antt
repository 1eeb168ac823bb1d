-- ===== src/Synch/Duct/Session.antt =====
-- A transaction of synch/duct.c step by step, for the clips that do other things between the calls.
use hailburst.Prelude.{
  ℕ, suc, ◌+◌, ◌≤◌, ◌<◌, ◌≡◌, refl, Bool, List, [], ◌∷◌, ◌++◌, Option, none, some, ok, arith,
  le→leb, lt→ltb, length, length-append, get_elem?-ge,
}
use hailburst.Synch.Duct.Defs.{
  Message, Duct, Packet, Txn, txn_send, send_prepare, send_message, send_commit, emit_counts,
  check_consumed, cleared, receive_prepare, receive_message, receive_commit, majority_threshold,
  mark_consumed,
}
use hailburst.Synch.Duct.Offer.{IsValid}
use hailburst.Synch.Duct.Send.{Outgoing, written, send_message-eq, after_send}
use hailburst.Synch.Duct.Receive.{
  reading_at, Offers, count_good, prepared, prepared-IsValid, prepared-Offers, receive_next,
  receive_last, receive_commit-eq,
}

-- The duct and the transaction of a sender that has sent these messages so far.
abbrev pub opened : (ℕ → ℕ) → Duct → ℕ → List Outgoing → Duct
opened now d sender_id messages = record d {
  flags_send = check_consumed now d sender_id d.receiver_replicas 0 d.flags_send;
  message_buffer = written d.max_flow sender_id 0 messages d.message_buffer;
}

abbrev pub sending : ℕ → ℕ → Txn
sending sender_id n = record { mode = txn_send; replica_id = sender_id; flow_current = n }

written-append :
    (flow s k : ℕ) (ms ns : List Outgoing) (buffer : ℕ → Message)
    → written flow s k (ms ++ ns) buffer
      ≡ written flow s (k + length ms) ns (written flow s k ms buffer)
unfolding written
written-append flow s k [] ns buffer = let same : k + 0 ≡ k = omega arith in rw same refl
written-append flow s k ((message, timestamp) ∷ ms) ns buffer =
    let shift : k + suc (length ms) ≡ k + 1 + length ms = omega arith in
    rw shift (written-append flow s (k + 1) ms ns _)

module _ (now : ℕ → ℕ) (d : Duct) (v : IsValid d) (sender_id : ℕ)
    (own : sender_id < d.sender_replicas) where
  pub send_prepare-opened :
      send_prepare now d sender_id ≡ ok (opened now d sender_id [], sending sender_id 0)
  unfolding send_prepare written
  send_prepare-opened = rw (lt→ltb _ _ own) refl

  pub send_message-opened :
      (messages : List Outgoing) (message : List ℕ) (timestamp : ℕ)
      → length messages < d.max_flow
      → 1 ≤ length message
      → length message ≤ d.message_size
      → send_message
          (opened now d sender_id messages)
          (sending sender_id (length messages))
          message
          timestamp
        ≡ ok (
          opened now d sender_id (messages ++ (message, timestamp) ∷ []),
          sending sender_id (length (messages ++ (message, timestamp) ∷ [])),
        )
  send_message-opened messages message timestamp room pos fit =
      let one : length (messages ++ (message, timestamp) ∷ []) ≡ length messages + 1 =
        length-append messages ((message, timestamp) ∷ []) in
      let first : 0 + length messages ≡ length messages = omega arith in
      rw
        (
          send_message-eq (opened now d sender_id messages) (sending sender_id (length messages))
              message timestamp refl own room (omega (arith, v.little_flow)) pos fit,
          one,
          written-append d.max_flow sender_id 0 messages ((message, timestamp) ∷ [])
              d.message_buffer,
          first,
        )
        refl

  pub send_commit-opened :
      (messages : List Outgoing)
      → length messages ≤ d.max_flow
      → send_commit (opened now d sender_id messages) (sending sender_id (length messages))
        ≡ ok (after_send now d sender_id messages, cleared (sending sender_id (length messages)))
  unfolding send_commit emit_counts
  send_commit-opened messages few = rw (lt→ltb _ _ own, le→leb _ _ few) refl

-- At most one message.
abbrev pub singleton : Option Packet → List Packet
singleton none = []
singleton (some p) = p ∷ []

-- The duct behind a receiver's transaction.
abbrev pub consumed : (ℕ → ℕ) → Duct → ℕ → Duct
consumed now d r = record (prepared now d r) { flow_status = mark_consumed (prepared now d r) r }

abbrev pub received : Option Packet → ℕ
received o = length (singleton o)

module _ (now : ℕ → ℕ) (d : Duct) (v : IsValid d) (r : ℕ) (own : r < d.receiver_replicas)
    (good : ℕ → Bool) (o : Option Packet)
    (quorum : majority_threshold d ≤ count_good good d.sender_replicas 0)
    (all : Offers d r good (singleton o)) where
  pub receive_prepare-single : receive_prepare now d r ≡ ok (prepared now d r, reading_at r 0)
  unfolding receive_prepare
  receive_prepare-single = rw (lt→ltb _ _ own) refl

  single-few : (o : Option Packet) → received o ≤ d.max_flow
  single-few none = omega arith
  single-few (some p) = v.some_flow

  pub receive_message-single :
      receive_message (prepared now d r) (reading_at r 0) ≡ ok (reading_at r (received o), o)
  receive_message-single =
      elim o
          as (λ o.
            Offers d r good (singleton o)
            → receive_message (prepared now d r) (reading_at r 0)
              ≡ ok (reading_at r (received o), o)) [
                | none ↦ λ all.
                    receive_last (prepared now d r) (prepared-IsValid now d r v) good [] quorum
                      (omega arith) (reading_at r 0)
                      (record { receiving = refl; replica_in = own; flow_in = omega arith })
                      (prepared-Offers now d r good [] all) refl
                | some p ↦ λ all.
                    receive_next (prepared now d r) (prepared-IsValid now d r v) good (p ∷ [])
                      quorum v.some_flow (reading_at r 0)
                      (record { receiving = refl; replica_in = own; flow_in = omega arith })
                      (prepared-Offers now d r good (p ∷ []) all) p refl v.some_flow
              ]
        all

  pub receive_commit-single :
      receive_commit (prepared now d r) (reading_at r (received o))
      ≡ ok (consumed now d r, cleared (reading_at r (received o)))
  receive_commit-single =
      receive_commit-eq (prepared now d r) (prepared-IsValid now d r v) good (singleton o) quorum
        (single-few o) (reading_at r (received o))
        (record { receiving = refl; replica_in = own; flow_in = single-few o })
        (prepared-Offers now d r good (singleton o) all)
        (get_elem?-ge (singleton o) (received o) (omega arith))
