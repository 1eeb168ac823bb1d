-- ===== src/Synch/Duct/Vote.antt =====
-- The vote of `duct_receive_message` against its specification: the packet that a strict majority of
-- the sender replicas offer.
use mathlib.Core.Path.{subst}
use hailburst.Prelude.{
  ◌↔◌, leb-false, lt→ltb, lt→neq, ℕ, zero, suc, ◌+◌, ◌≤◌, ◌<◌, ◌≡◌, refl, ap, sym, ◌∙◌, inl, inr,
  Option, none, some, leb, ok, arith, Bool-cases, Option-cases, le→leb,
}
use hailburst.Synch.Duct.Defs.{
  Message, Duct, Packet, Txn, txn_recv, count_votes, pick_candidate, receive_message, delivered,
  packet_of, majority_threshold,
}
use hailburst.Synch.Duct.Offer.{
  IsValid, peek, packets, offered, packet_eq, packet_eq→eq, packet_eq_refl, support, vote_for,
  check_message-eq, tally-eq, majority_unique, vote_for-le,
}

module _ (d : Duct) (v : IsValid d) (r idx : ℕ) where
  count_votes-eq :
      (c : Message) (n i votes : ℕ)
      → i + n ≤ d.sender_replicas
      → votes + n ≤ 4
      → count_votes d r idx c n i votes ≡ ok (votes + support d r idx (packet_of c) n i)
  unfolding count_votes support
  count_votes-eq c zero i votes h k = ap ok (omega arith)
  count_votes-eq c (suc n) i votes h k =
      rw (check_message-eq d i r idx (omega arith), tally-eq c votes (peek d r idx i) (omega arith))
        (count_votes-eq c n (i + 1) (votes + vote_for (packet_of c) (offered d r idx i))
            (omega arith) (omega (arith, vote_for-le (packet_of c) (offered d r idx i)))
          ∙ ap ok (omega arith))

  -- The outcome of an election among the `n` senders from `i` on.
  abbrev pub Elects : ℕ → ℕ → Option Packet → Type 0
  Elects n i none = (p : Packet) → support d r idx p n i < majority_threshold d
  Elects n i (some p) = majority_threshold d ≤ support d r idx p n i

  -- A sender whose offer has no majority leaves the election to the senders behind it.
  Elects-suc :
      (n i : ℕ) (here : Option Packet) (o : Option Packet)
      → offered d r idx i ≡ here
      → ((q : Packet) → here ≡ some q → support d r idx q (suc n) i < majority_threshold d)
      → Elects n (i + 1) o
      → Elects (suc n) i o
  unfolding support
  Elects-suc n i here (some p) eq small el = omega arith
  Elects-suc n i none none eq small el = λ p. rw eq (omega (arith, el p))
  Elects-suc n i (some q) none eq small el = λ p. elim (Bool-cases (packet_eq p q)) [
    | inl e ↦
        subst (λ x. support d r idx x (suc n) i < majority_threshold d) (sym (packet_eq→eq p q e))
          (small q refl)
    | inr e ↦ rw (eq, e) (omega (arith, el p))
  ]

  pick_candidate-Elects :
      (n i : ℕ)
      → i + n ≤ d.sender_replicas
      → (o : Option Message) × (pick_candidate d r idx n i ≡ ok o) × Elects n i (packets o)
  unfolding pick_candidate support
  pick_candidate-Elects zero i h = (none, refl, λ p. omega arith)
  pick_candidate-Elects (suc n) i h =
      let (o, f, el) = pick_candidate-Elects n (i + 1) (omega arith) in
      elim (Option-cases (peek d r idx i)) [
        | inl e ↦ (
          o,
          rw (check_message-eq d i r idx (omega arith), e) f,
          Elects-suc n i none (packets o) (rw e) (λ q k. cc) el,
        )
        | inr (c, e) ↦
            let own : support d r idx (packet_of c) (suc n) i
                ≡ 1 + support d r idx (packet_of c) n (i + 1) =
              rw (e, packet_eq_refl (packet_of c)) in
            let tallied = count_votes-eq c n (i + 1) 1 (omega arith) (omega arith) in
            elim (Bool-cases
              (leb (majority_threshold d) (1 + support d r idx (packet_of c) n (i + 1)))) [
                | inl w ↦ (
                  some c,
                  rw (check_message-eq d i r idx (omega arith), e, tallied, w),
                  ground arith,
                )
                | inr w ↦ (
                  o,
                  rw (check_message-eq d i r idx (omega arith), e, tallied, w) f,
                  Elects-suc n i (some (packet_of c)) (packets o) (rw e)
                      (λ q k.
                        subst (λ x. support d r idx x (suc n) i < majority_threshold d)
                          {x = packet_of c} {y = q} (cc) (omega (arith, own, leb-false _ _ w)))
                      el,
                )
              ]
      ]

-- A receiver's transaction that is open.
pub record IsReceiving (d : Duct) (t : Txn) : Type 0 where
  pub receiving : t.mode ≡ txn_recv
  pub replica_in : t.replica_id < d.receiver_replicas
  pub flow_in : t.flow_current ≤ d.max_flow

module _ (d : Duct) (t : Txn) where
  -- How many sender replicas offer `p` at the transaction's index.
  abbrev pub votes : Packet → ℕ
  votes p = support d t.replica_id t.flow_current p d.sender_replicas 0

  pub receive_message_lem :
      (v : IsValid d)
      → IsReceiving d t
      → t.flow_current < d.max_flow
      → (o : Option Message) × (receive_message d t ≡ ok (delivered t o))
        × Elects d v t.replica_id t.flow_current d.sender_replicas 0 (packets o)
  unfolding receive_message
  receive_message_lem v u h =
      let (o, f, el) =
        pick_candidate-Elects d v t.replica_id t.flow_current d.sender_replicas 0 (omega arith) in
      (o, rw (u.receiving, lt→ltb _ _ u.replica_in, le→leb _ _ u.flow_in, lt→neq _ _ h, f), el)

  module _ (v : IsValid d) (u : IsReceiving d t) (more : t.flow_current < d.max_flow) where
    abbrev Chosen : Option Message → Type 0
    Chosen o = Elects d v t.replica_id t.flow_current d.sender_replicas 0 (packets o)

    elected-same :
        (p : Packet) (c : Message)
        → majority_threshold d ≤ votes p
        → Chosen (some c)
        → p ≡ packet_of c
    elected-same p c m el = packet_eq→eq p (packet_of c) (
        majority_unique d t.replica_id t.flow_current p (packet_of c) d.sender_replicas 0
          (omega arith) m el)

    elected_of_majority :
        (p : Packet) (o : Option Message)
        → majority_threshold d ≤ votes p
        → Chosen o
        → delivered t o ≡ (record t { flow_current = t.flow_current + 1 }, some p)
    elected_of_majority p none m el = absurd (omega (arith, el p))
    elected_of_majority p (some c) m el = ground (arith, elected-same p c m el)

    majority_of_elected :
        (p : Packet) (t' : Txn) (o : Option Message)
        → Chosen o
        → ok (delivered t o) ≡ ok (t', some p)
        → majority_threshold d ≤ votes p
    majority_of_elected p t' none el e = cc
    majority_of_elected p t' (some c) el e =
        let same : packet_of c ≡ p = cc in subst (λ x. majority_threshold d ≤ votes x) same el

    none_of_minorities :
        (o : Option Message)
        → ((p : Packet) → votes p < majority_threshold d)
        → Chosen o
        → delivered t o ≡ (t, none)
    none_of_minorities none small el = refl
    none_of_minorities (some c) small el = absurd (omega (arith, small (packet_of c), el))

    -- On a valid duct, a receiver whose transaction is open and not at its last index takes the packet
    -- `p`, and moves on by one, exactly when a strict majority of the sender replicas offer `p` at that
    -- index, whatever the others have written.
    pub receive_message-majority :
        (p : Packet)
        → (majority_threshold d ≤ votes p)
          ↔ (receive_message d t ≡ ok (record t { flow_current = t.flow_current + 1 }, some p))
    receive_message-majority p =
        let (o, f, el) = receive_message_lem v u more in
        (
          λ m. f ∙ ap ok (elected_of_majority p o m el),
          λ e. majority_of_elected p _ o el (sym f ∙ e),
        )

    -- On a valid duct, for a receiver whose transaction is open and not at its last index: if no packet
    -- has a strict majority at that index, the transaction ends there, and nothing is copied out.
    pub receive_message-minority :
        ((p : Packet) → votes p < majority_threshold d) → receive_message d t ≡ ok (t, none)
    receive_message-minority small =
        let (o, f, el) = receive_message_lem v u more in f ∙ ap ok (none_of_minorities o small el)

  pub receive_message-full :
      IsReceiving d t → t.flow_current ≡ d.max_flow → receive_message d t ≡ ok (t, none)
  unfolding receive_message
  receive_message-full u e =
      rw (u.receiving, lt→ltb _ _ u.replica_in, le→leb _ _ u.flow_in) (ground arith)
