-- ===== src/Synch/Duct/Send.antt =====
-- A whole sending transaction of a duct (synch/duct.c), as a client runs it.
use mathlib.Core.List.{map}
use native.Mathlib.Decide.{dec_lt}
use native.Mathlib.Nat.{zero-add}
use hailburst.Prelude.{
  get_elem?-lt, get_elem?-ge, length-map, lt→leb, le→ltb, ℕ, zero, suc, ◌+◌, ◌*◌, ◌≤◌, ◌<◌, ◌≡◌,
  ◌≢◌, refl, sym, ◌∙◌, inl, inr, List, [], ◌∷◌, some, ok, Outcome, ◌>>=◌, arith, Bool-cases, le→leb,
  lt→ltb, length, get_elem?, drop, take-append_length, update, store_each-hit, store_each-miss,
  row_injective, lt→neq,
}
use hailburst.Synch.Duct.Defs.{
  Message, Duct, Packet, Txn, txn_send, slot, offset, overwrite, usable, send_prepare, send_message,
  send_commit, lookup_message, emit_counts, check_consumed,
}
use hailburst.Synch.Duct.Offer.{IsValid, packets, offered, unsent, unsent-lt}

-- A message with its timestamp, as a client passes it in.
abbrev pub Outgoing : Type 0
Outgoing = List ℕ × ℕ

-- duct_send_message for each message in turn.
unfoldable pub send_each : Duct → Txn → List Outgoing → Outcome (Duct × Txn)
send_each d t [] = ok (d, t)
send_each d t ((message, timestamp) ∷ rest) =
    send_message d t message timestamp >>= λ s. send_each s.0 s.1 rest

-- A client's transaction: prepare, send the messages, commit.
unfoldable pub send_all : (ℕ → ℕ) → Duct → ℕ → List Outgoing → Outcome Duct
send_all now d sender_id messages = send_prepare now d sender_id >>= λ s.
    send_each s.0 s.1 messages >>= λ s'. send_commit s'.0 s'.1 >>= λ s''. ok s''.0

-- The sizes that `duct_send_message` accepts.
abbrev pub AllFit : ℕ → List Outgoing → Type 0
AllFit size [] = Unit {0}
AllFit size ((message, timestamp) ∷ rest) =
    (1 ≤ length message) × (length message ≤ size) × AllFit size rest

abbrev pub sent : Outgoing → Packet
sent (message, timestamp) = record { size = length message; timestamp = timestamp; bytes = message }

-- The buffer after the messages went into the slots of `sender_id` from index `k` on, where a sender
-- has `flow` slots.
unfoldable pub written : ℕ → ℕ → ℕ → List Outgoing → (ℕ → Message) → ℕ → Message
written flow sender_id k [] buffer = buffer
written flow sender_id k ((message, timestamp) ∷ rest) buffer =
    let place = sender_id * flow + k in
    written flow sender_id (k + 1) rest (
      update buffer place (record {
        size = length message;
        timestamp = timestamp;
        body = overwrite message (buffer place).body;
      }))

pub send_message-eq :
    (d : Duct) (t : Txn) (message : List ℕ) (timestamp : ℕ)
    → t.mode ≡ txn_send
    → t.replica_id < d.sender_replicas
    → t.flow_current < d.max_flow
    → d.max_flow < 255
    → 1 ≤ length message
    → length message ≤ d.message_size
    → send_message d t message timestamp
      ≡ ok (
        record d {
          message_buffer =
              written d.max_flow t.replica_id t.flow_current
                ((message, timestamp) ∷ [])
                d.message_buffer;
        },
        record t { flow_current = t.flow_current + 1 },
      )
unfolding send_message lookup_message written
send_message-eq d t message timestamp m s f small pos fit =
    rw (m, lt→ltb _ _ s, lt→ltb _ _ f, le→leb _ _ pos, le→leb _ _ fit) (ground arith)

send_each-eq :
    (messages : List Outgoing) (d : Duct) (t : Txn)
    → t.mode ≡ txn_send
    → t.replica_id < d.sender_replicas
    → t.flow_current + length messages ≤ d.max_flow
    → d.max_flow < 255
    → AllFit d.message_size messages
    → send_each d t messages
      ≡ ok (
        record d {
          message_buffer = written d.max_flow t.replica_id t.flow_current messages d.message_buffer;
        },
        record t { flow_current = t.flow_current + length messages },
      )
unfolding send_each written
send_each-eq [] d t m s f small fit = ground arith
send_each-eq ((message, timestamp) ∷ rest) d t m s f small fit =
    rw (send_message-eq d t message timestamp m s (omega arith) small fit.0 fit.1) (
      send_each-eq rest _ (record t { flow_current = t.flow_current + 1 }) m s (omega arith) small
        fit.2
      ∙ ground arith)

module _ (d : Duct) (sender_id : ℕ) where
  written-miss :
      (messages : List Outgoing) (k x : ℕ) (buffer : ℕ → Message)
      → ((j : ℕ) → k ≤ j → j < k + length messages → slot d sender_id j ≢ x)
      → written d.max_flow sender_id k messages buffer x ≡ buffer x
  unfolding written
  written-miss [] k x buffer h = refl
  written-miss ((message, timestamp) ∷ rest) k x buffer h =
      written-miss rest (k + 1) x _ (λ j l u. h j (omega arith) (omega arith))
      ∙ ground (arith, h k (omega arith) (omega arith))

  written-at :
      (messages : List Outgoing) (k j : ℕ) (p : Packet) (buffer : ℕ → Message)
      → AllFit d.message_size messages
      → get_elem? (map sent messages) j ≡ some p
      → packets
          (usable d (written d.max_flow sender_id k messages buffer (slot d sender_id (k + j))))
        ≡ some p
  unfolding written
  written-at [] k j p buffer fit e = cc
  written-at ((message, timestamp) ∷ rest) k zero p buffer fit e =
      rw (written-miss rest (k + 1) (slot d sender_id (k + 0)) _ (λ j l u. omega arith)) (
        ground (
          arith,
          take-append_length message (drop (length message) (buffer (slot d sender_id k)).body),
        ))
  written-at ((message, timestamp) ∷ rest) k (suc j) p buffer fit e =
      let shift : k + suc j ≡ k + 1 + j = omega arith in
      rw shift (written-at rest (k + 1) j p _ fit.2 e)

-- The sizes of a duct, which no call changes.
pub record SameShape (d d' : Duct) : Type 0 where
  pub same_senders : d'.sender_replicas ≡ d.sender_replicas
  pub same_receivers : d'.receiver_replicas ≡ d.receiver_replicas
  pub same_flow : d'.max_flow ≡ d.max_flow
  pub same_size : d'.message_size ≡ d.message_size

pub SameShape-IsValid : (d d' : Duct) → SameShape d d' → IsValid d → IsValid d'
SameShape-IsValid d d' same v = omega arith

-- The duct that `send_all` leaves.
abbrev pub after_send : (ℕ → ℕ) → Duct → ℕ → List Outgoing → Duct
after_send now d sender_id messages = record d {
  flags_send = check_consumed now d sender_id d.receiver_replicas 0 d.flags_send;
  message_buffer = written d.max_flow sender_id 0 messages d.message_buffer;
  flow_status = emit_counts d sender_id (length messages);
}

module _ (now : ℕ → ℕ) (d : Duct) (v : IsValid d) (sender_id : ℕ)
    (own : sender_id < d.sender_replicas) (messages : List Outgoing)
    (few : length messages ≤ d.max_flow) (fit : AllFit d.message_size messages) where
  send_all-eq : send_all now d sender_id messages ≡ ok (after_send now d sender_id messages)
  unfolding send_all send_prepare send_commit emit_counts
  send_all-eq =
      rw
        (
          lt→ltb _ _ own,
          send_each-eq messages prepared opened refl own (omega arith) (omega arith) fit,
          zero-add,
        )
        (rw (lt→ltb _ _ own, le→leb _ _ few))
    where
      prepared : Duct
      prepared = record d {
        flags_send = check_consumed now d sender_id d.receiver_replicas 0 d.flags_send;
      }

      opened : Txn
      opened = record { mode = txn_send; replica_id = sender_id; flow_current = 0 }

  count-hit :
      (r : ℕ)
      → r < d.receiver_replicas
      → emit_counts d sender_id (length messages) (offset d sender_id r) ≡ length messages
  unfolding emit_counts
  count-hit r h =
      store_each-hit (offset d sender_id) (length messages) d.receiver_replicas 0 r d.flow_status
        (omega arith) (omega arith)

  count-miss :
      (s r : ℕ)
      → s ≢ sender_id
      → r < d.receiver_replicas
      → emit_counts d sender_id (length messages) (offset d s r) ≡ d.flow_status (offset d s r)
  unfolding emit_counts
  count-miss s r ne h =
      store_each-miss (offset d sender_id) (length messages) d.receiver_replicas 0 (offset d s r)
        d.flow_status
        λ j l u e. ne (sym (row_injective d.receiver_replicas sender_id s j r (omega arith) h e).0)

  pub offered-own :
      (r k : ℕ)
      → r < d.receiver_replicas
      → offered (after_send now d sender_id messages) r k sender_id
        ≡ get_elem? (map sent messages) k
  offered-own r k h = elim (dec_lt k (length messages)) [
    | yes lt ↦
        let (p, e) = get_elem?-lt (map sent messages) k (omega (arith, length-map sent messages)) in
        rw
          (
            count-hit r h,
            lt→neq (length messages) 255 (omega arith),
            lt→leb _ _ lt,
            le→ltb _ _ few,
            e,
          )
          (rw zero-add at (written-at d sender_id messages 0 k p d.message_buffer fit e))
    | no ge ↦
        rw
          (
            count-hit r h,
            lt→neq (length messages) 255 (omega arith),
            le→leb (length messages) k (omega arith),
          )
          (sym (get_elem?-ge (map sent messages) k (omega (arith, length-map sent messages))))
  ]

  pub offered-other :
      (s r k : ℕ)
      → s ≢ sender_id
      → r < d.receiver_replicas
      → offered (after_send now d sender_id messages) r k s ≡ offered d r k s
  offered-other s r k ne h = rw (count-miss s r ne h) (elim (Bool-cases (unsent d r k s)) [
    | inl e ↦ rw e
    | inr e ↦ rw (
      e,
      written-miss d sender_id messages 0 (slot d s k) d.message_buffer λ j l u f.
          ne (
            sym (row_injective d.max_flow sender_id s j k (omega arith) (unsent-lt d r k s e) f).0),
    )
  ])

  -- On a valid duct, if a sender replica sends at most as many messages as the flow allows, each of
  -- legal size, its transaction aborts nowhere, every receiver is then offered exactly those messages
  -- by it, and what the other senders offer is unchanged.
  pub send_all_lem :
      (d' : Duct) × (send_all now d sender_id messages ≡ ok d')
      × SameShape d d'
      × ((r k : ℕ)
          → r < d.receiver_replicas
          → offered d' r k sender_id ≡ get_elem? (map sent messages) k)
      × ((s r k : ℕ) → s ≢ sender_id → r < d.receiver_replicas → offered d' r k s ≡ offered d r k s)
  send_all_lem =
      (after_send now d sender_id messages, send_all-eq, omega arith, offered-own, offered-other)
