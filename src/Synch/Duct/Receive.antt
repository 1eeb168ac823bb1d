-- ===== src/Synch/Duct/Receive.antt =====
-- A whole receiving transaction of a duct (synch/duct.c), as a client runs it.
use native.Mathlib.Decide.{dec_lt, ℕ_discrete}
use hailburst.Prelude.{
  drop_all, drop-get_elem?, get_elem?-none, get_elem?-some, ℕ, zero, suc, ◌+◌, ◌≤◌, ◌<◌, ◌≡◌, refl,
  ap, ◌∙◌, inl, inr, Bool, true, List, [], ◌∷◌, Option, none, some, ltb, ◌==◌, if◌then◌else◌, ok,
  aborted, Outcome, ◌>>=◌, arith, Bool-cases, Option-cases, le→leb, lt→ltb, length, get_elem?, drop,
  update, store_each-hit, ◌||◌, ◌⊎◌, get_elem?-ge,
}
use hailburst.Synch.Flag.{Flag}
use hailburst.Synch.Duct.Defs.{
  Duct, Packet, Txn, txn_recv, offset, missing_flow, majority_threshold, receive_prepare,
  receive_message, receive_commit, check_sent, mark_consumed, cleared, is_recv,
}
use hailburst.Synch.Duct.Offer.{IsValid, offered, support, unsent, vote_for-le, packet_eq_refl}
use hailburst.Synch.Duct.Vote.{
  IsReceiving, receive_message-majority, receive_message-minority, receive_message-full,
}

-- The loop in which a client drains a duct: while ((size = duct_receive_message(...)) != 0).
unfoldable pub receive_each : ℕ → Duct → Txn → Outcome (Txn × List Packet)
receive_each zero d t = aborted
receive_each (suc fuel) d t = receive_message d t >>= λ (t', found). elim found [
  | none ↦ ok (t', [])
  | some p ↦ receive_each fuel d t' >>= λ (t'', rest). ok (t'', p ∷ rest)
]

-- The transaction of receiver `r` that has read `n` messages.
abbrev pub reading_at : ℕ → ℕ → Txn
reading_at r n = record { mode = txn_recv; replica_id = r; flow_current = n }

-- How many of the `n` senders from `i` on are in the set `good`.
unfoldable pub count_good : (ℕ → Bool) → ℕ → ℕ → ℕ
count_good good zero i = 0
count_good good (suc n) i = (if good i then 1 else 0) + count_good good n (i + 1)

-- Every sender in the set offers receiver `r` exactly the packets `ps`.
abbrev pub Offers : Duct → ℕ → (ℕ → Bool) → List Packet → Type 0
Offers d r good ps =
    (s k : ℕ) → s < d.sender_replicas → good s ≡ true → offered d r k s ≡ get_elem? ps k

module _ (d : Duct) (r k : ℕ) (good : ℕ → Bool) (here : Option Packet)
    (same : (s : ℕ) → s < d.sender_replicas → good s ≡ true → offered d r k s ≡ here) where
  support-ge :
      (p : Packet) (n i : ℕ)
      → i + n ≤ d.sender_replicas
      → here ≡ some p
      → count_good good n i ≤ support d r k p n i
  unfolding support count_good
  support-ge p zero i h e = omega arith
  support-ge p (suc n) i h e = elim (Bool-cases (good i)) [
    | inl g ↦
        rw (g, same i (omega arith) g, e, packet_eq_refl p)
          (omega (arith, support-ge p n (i + 1) (omega arith) e))
    | inr g ↦ rw g (omega (arith, support-ge p n (i + 1) (omega arith) e))
  ]

  support-lt :
      (p : Packet) (n i : ℕ)
      → i + n ≤ d.sender_replicas
      → here ≡ none
      → count_good good n i + support d r k p n i ≤ n
  unfolding support count_good
  support-lt p zero i h e = omega arith
  support-lt p (suc n) i h e = elim (Bool-cases (good i)) [
    | inl g ↦
        rw (g, same i (omega arith) g, e) (omega (arith, support-lt p n (i + 1) (omega arith) e))
    | inr g ↦
        rw g
          (omega (arith, vote_for-le p (offered d r k i), support-lt p n (i + 1) (omega arith) e))
  ]

module _ (d : Duct) (v : IsValid d) (good : ℕ → Bool) (ps : List Packet)
    (quorum : majority_threshold d ≤ count_good good d.sender_replicas 0)
    (few : length ps ≤ d.max_flow) where
  pub receive_next :
      (t : Txn)
      → IsReceiving d t
      → Offers d t.replica_id good ps
      → (p : Packet) → get_elem? ps t.flow_current ≡ some p
      → t.flow_current < d.max_flow
      → receive_message d t ≡ ok (record t { flow_current = t.flow_current + 1 }, some p)
  receive_next t u all p e more = (receive_message-majority d t v u more p).0 (
      omega (
        arith,
        support-ge d t.replica_id t.flow_current good (get_elem? ps t.flow_current)
            (λ s h g. all s t.flow_current h g) p d.sender_replicas 0 (omega arith) e,
      ))

  pub receive_last :
      (t : Txn)
      → IsReceiving d t
      → Offers d t.replica_id good ps
      → get_elem? ps t.flow_current ≡ none
      → receive_message d t ≡ ok (t, none)
  receive_last t u all e = elim (dec_lt t.flow_current d.max_flow) [
    | yes more ↦ receive_message-minority d t v u more λ p. omega (
      arith,
      support-lt d t.replica_id t.flow_current good (get_elem? ps t.flow_current)
          (λ s h g. all s t.flow_current h g) p d.sender_replicas 0 (omega arith) e,
    )
    | no stop ↦ receive_message-full d t u (omega (arith, u.flow_in))
  ]

  -- A transaction in which every message was read can be closed.
  pub receive_commit-eq :
      (t : Txn)
      → IsReceiving d t
      → Offers d t.replica_id good ps
      → get_elem? ps t.flow_current ≡ none
      → receive_commit d t ≡ ok (record d { flow_status = mark_consumed d t.replica_id }, cleared t)
  unfolding receive_commit
  receive_commit-eq t u all e =
      let mode : is_recv t.mode ≡ true = ap is_recv u.receiving in
      rw (mode, lt→ltb _ _ u.replica_in, le→leb _ _ u.flow_in, receive_last t u all e) refl

  receive_each_lem :
      (fuel : ℕ) (t : Txn)
      → IsReceiving d t
      → Offers d t.replica_id good ps
      → t.flow_current ≤ length ps
      → length ps < t.flow_current + fuel
      → receive_each fuel d t ≡ ok (record t { flow_current = length ps }, drop t.flow_current ps)
  unfolding receive_each
  receive_each_lem zero t u all h k = absurd (omega arith)
  receive_each_lem (suc fuel) t u all h k = elim (Option-cases (get_elem? ps t.flow_current)) [
    | inl e ↦
        let over = get_elem?-none ps t.flow_current e in
        let at_end : t.flow_current ≡ length ps = omega arith in
        rw (receive_last t u all e, drop_all t.flow_current ps over) (ground arith)
    | inr (p, e) ↦
        let inside = get_elem?-some ps t.flow_current p e in
        rw (
          receive_next t u all p e (omega arith),
          receive_each_lem fuel (record t { flow_current = t.flow_current + 1 })
              (record { receiving = u.receiving; replica_in = u.replica_in; flow_in = omega arith })
              all (omega arith) (omega arith),
          drop-get_elem? t.flow_current ps p e,
        )
  ]

-- What a count may become when a receiver finds that a sender has deviated from its schedule.
abbrev deviates : Duct → ℕ → Bool
deviates d count = count == missing_flow || ltb d.max_flow count

abbrev Kept : Duct → ℕ → ℕ → Type 0
Kept d old new = (new ≡ old) ⊎ ((deviates d old ≡ true) × (new ≡ 0))

Kept-trans : (d : Duct) (a b c : ℕ) → Kept d a b → Kept d b c → Kept d a c
Kept-trans d a b c (inl e) (inl f) = inl (f ∙ e)
Kept-trans d a b c (inl e) (inr f) = inr (rw (← e) f.0, f.1)
Kept-trans d a b c (inr e) (inl f) = inr (e.0, f ∙ e.1)
Kept-trans d a b c (inr e) (inr f) = inr (e.0, f.1)

abbrev repaired : Duct → ℕ → (ℕ → ℕ) → ℕ → ℕ
repaired d o counts = if deviates d (counts o) then update counts o 0 else counts

repaired-Kept : (d : Duct) (o x : ℕ) (counts : ℕ → ℕ) → Kept d (counts x) (repaired d o counts x)
repaired-Kept d o x counts = elim (Bool-cases (deviates d (counts o))) [
  | inl e ↦ elim (ℕ_discrete x o) [
    | yes same ↦ rw e (inr (rw same e, ground arith))
    | no other ↦ rw e (inl (ground arith))
  ]
  | inr e ↦ rw e (inl refl)
]

check_sent-Kept :
    (now : ℕ → ℕ) (d : Duct) (r n i : ℕ) (counts : ℕ → ℕ) (flags : ℕ → Flag) (x : ℕ)
    → Kept d (counts x) ((check_sent now d r n i counts flags).0 x)
unfolding check_sent
check_sent-Kept now d r zero i counts flags x = inl refl
check_sent-Kept now d r (suc n) i counts flags x =
    Kept-trans d (counts x) (repaired d (offset d i r) counts x) _
      (repaired-Kept d (offset d i r) x counts)
      (check_sent-Kept now d r n (i + 1) (repaired d (offset d i r) counts) _ x)

-- Opening a transaction changes no offer: what it discards was not valid.
abbrev pub prepared : (ℕ → ℕ) → Duct → ℕ → Duct
prepared now d r =
    let checked = check_sent now d r d.sender_replicas 0 d.flow_status d.flags_receive in
    record d { flow_status = checked.0; flags_receive = checked.1 }

unsent-prepared :
    (now : ℕ → ℕ) (d : Duct) (r r' k s : ℕ) → unsent (prepared now d r) r' k s ≡ unsent d r' k s
unsent-prepared now d r r' k s = ground (
  arith,
  check_sent-Kept now d r d.sender_replicas 0 d.flow_status d.flags_receive (offset d s r'),
)

offered-prepared :
    (now : ℕ → ℕ) (d : Duct) (r r' k s : ℕ) → offered (prepared now d r) r' k s ≡ offered d r' k s
offered-prepared now d r r' k s = rw (unsent-prepared now d r r' k s)

pub prepared-IsValid : (now : ℕ → ℕ) (d : Duct) (r : ℕ) → IsValid d → IsValid (prepared now d r)
prepared-IsValid now d r v = omega (
  arith, v.some_sender, v.few_senders, v.some_receiver, v.few_receivers, v.some_flow, v.little_flow,
)

pub prepared-Offers :
    (now : ℕ → ℕ) (d : Duct) (r : ℕ) (good : ℕ → Bool) (ps : List Packet)
    → Offers d r good ps
    → Offers (prepared now d r) r good ps
prepared-Offers now d r good ps all s k h g = offered-prepared now d r r k s ∙ all s k h g

-- A client's transaction: prepare, drain the duct, commit.
unfoldable pub receive_all : (ℕ → ℕ) → Duct → ℕ → Outcome (Duct × List Packet)
receive_all now d r = receive_prepare now d r >>= λ (d', t).
    receive_each (d'.max_flow + 1) d' t >>= λ (t', ps).
    receive_commit d' t' >>= λ (d'', t''). ok (d'', ps)

module _ (now : ℕ → ℕ) (d : Duct) (v : IsValid d) (r : ℕ) (own : r < d.receiver_replicas)
    (good : ℕ → Bool) (ps : List Packet)
    (quorum : majority_threshold d ≤ count_good good d.sender_replicas 0)
    (few : length ps ≤ d.max_flow) (all : Offers d r good ps) where
  -- On a valid duct, if a strict majority of the sender replicas offer a receiver exactly the packets
  -- `ps`, no more than the flow allows, the receiver gets `ps` in order, whatever the other replicas
  -- have written; nothing aborts, and every sender's count for this receiver is then free again.
  pub receive_all_lem :
      (d' : Duct) × (receive_all now d r ≡ ok (d', ps))
      × ((s : ℕ) → s < d.sender_replicas → d'.flow_status (offset d s r) ≡ missing_flow)
  unfolding receive_all receive_prepare mark_consumed
  receive_all_lem =
      let d₁ = prepared now d r in
      let v₁ = prepared-IsValid now d r v in
      let t : Txn = record { mode = txn_recv; replica_id = r; flow_current = 0 } in
      let t' : Txn = record { mode = txn_recv; replica_id = r; flow_current = length ps } in
      let offers = prepared-Offers now d r good ps all in
      let drained =
        receive_each_lem d₁ v₁ good ps quorum few (d.max_flow + 1) t
          (record { receiving = refl; replica_in = own; flow_in = omega arith }) offers
          (omega arith) (omega arith) in
      let closed =
        receive_commit-eq d₁ v₁ good ps quorum few t'
          (record { receiving = refl; replica_in = own; flow_in = few }) offers
          (get_elem?-ge ps (length ps) (omega arith)) in
      (
        record d₁ { flow_status = mark_consumed d₁ r },
        rw (lt→ltb _ _ own, drained, closed) refl,
        λ s h.
            store_each-hit (λ s'. offset d s' r) missing_flow d.sender_replicas 0 s d₁.flow_status
              (omega arith) (omega arith),
      )
