-- ===== src/Synch/Pipe/Asking.antt =====
-- A receiver's end of a pipe closes its transaction and asks for what fits into its memory
-- (synch/pipebuf.c, synch/pipe.c).
use hailburst.Prelude.{
  ℕ, suc, ◌+◌, ◌≤◌, ◌<◌, ◌≡◌, ◌≢◌, refl, Bool, true, List, [], ◌∷◌, ◌==◌, length, get_elem?,
  get_elem?-ge, update, store_each-hit, Outcome, ok, aborted, ◌>>=◌, arith, le→leb,
}
use hailburst.Synch.Duct.{
  Duct, Packet, Txn, majority_threshold, mark_consumed, offset, missing_flow, send_prepare,
  send_message, send_commit,
}
use hailburst.Synch.Duct.Offer.{offered}
use hailburst.Synch.Duct.Vote.{IsReceiving}
use hailburst.Synch.Duct.Receive.{reading_at, Offers, count_good, receive_last, receive_commit-eq}
use hailburst.Synch.Duct.Send.{Outgoing, send_each, send_all, send_all_lem, AllFit}
use hailburst.Synch.Pipe.Defs.{
  Pipe, pipe_message_size, pipe_max_flow, sizeof_status, count_extra, pipe_receive_commit,
}
use hailburst.Synch.Pipe.Buffer.{PipeReceiver, pipe_receiver_commit}
use hailburst.Synch.Pipe.Commit.{IsPipe}
use hailburst.Synch.Pipe.Filling.{refills, IsReceiver, request_count-eq}

-- The status that asks for `n` messages.
abbrev pub asking : ℕ → Packet
asking n = record { size = 1; timestamp = 0; bytes = n ∷ [] }

-- A transaction of one message, with the rest of the call behind it or in it.
chain :
    (prepare : Outcome (Duct × Txn)) (message commit : Duct × Txn → Outcome (Duct × Txn))
    (f : Duct → Outcome Pipe)
    → (prepare >>= λ x. message x >>= λ y. commit y >>= λ z. f z.0)
      ≡ (prepare >>= (λ x. message x >>= (λ y. ok y) >>= λ y. commit y >>= λ z. ok z.0) >>= f)
chain aborted message commit f = refl
chain (ok x) message commit f = sent_one (message x)
  where
    committed : (c : Outcome (Duct × Txn)) → (c >>= λ z. f z.0) ≡ (c >>= (λ z. ok z.0) >>= f)
    committed aborted = refl
    committed (ok z) = refl

    sent_one :
        (m : Outcome (Duct × Txn))
        → (m >>= λ y. commit y >>= λ z. f z.0)
          ≡ (m >>= (λ y. ok y) >>= (λ y. commit y >>= λ z. ok z.0) >>= f)
    sent_one aborted = refl
    sent_one (ok y) = committed (commit y)

module _ (now : ℕ → ℕ) (pipe : Pipe) (v : IsPipe pipe) (r : PipeReceiver) (u : IsReceiver pipe r)
    (good : ℕ → Bool) (ps : List Packet)
    (quorum : majority_threshold pipe.dataflow ≤ count_good good pipe.dataflow.sender_replicas 0)
    (few : length ps ≤ pipe_max_flow pipe) (all : Offers pipe.dataflow r.replica_id good ps)
    (at_end : r.pipe_txn.data_txn ≡ reading_at r.replica_id (length ps)) where
  abbrev wanted : List Outgoing
  wanted = (refills pipe r ∷ [], 0) ∷ []

  abbrev closed : Duct → Pipe
  closed d = record {
    last_requested = update pipe.last_requested r.replica_id (refills pipe r);
    dataflow = record pipe.dataflow { flow_status = mark_consumed pipe.dataflow r.replica_id };
    pressure = d;
  }

  refills-flow : refills pipe r ≤ pipe_max_flow pipe
  refills-flow = ground arith

  finished : IsReceiving pipe.dataflow (reading_at r.replica_id (length ps))
  finished = record { receiving = refl; replica_in = u.own; flow_in = few }

  count_extra-eq :
      (n : ℕ)
      → count_extra (n + 1) pipe.dataflow (reading_at r.replica_id (length ps))
        ≡ ok (reading_at r.replica_id (length ps), 0)
  unfolding count_extra
  count_extra-eq n =
      let next : n + 1 ≡ suc n = omega arith in
      rw
        (
          next,
          receive_last pipe.dataflow v.dataflow_valid good ps quorum few
              (reading_at r.replica_id (length ps)) finished all
              (get_elem?-ge ps (length ps) (omega arith)),
        )
        refl

  pipe_receiver_commit-eq :
      pipe_receiver_commit now pipe r
      ≡ (send_all now pipe.pressure r.replica_id wanted >>= λ d. ok (closed d))
  unfolding pipe_receiver_commit pipe_receive_commit send_all send_each
  pipe_receiver_commit-eq =
      let right_size : (pipe.pressure.message_size == sizeof_status) ≡ true =
        rw v.status_size (ground arith) in
      rw
        (
          request_count-eq pipe r u,
          at_end,
          le→leb (pipe_message_size pipe) r.scratch_capacity (omega (arith, u.pipelined)),
          count_extra-eq (pipe_max_flow pipe),
          receive_commit-eq pipe.dataflow v.dataflow_valid good ps quorum few
              (reading_at r.replica_id (length ps)) finished all
              (get_elem?-ge ps (length ps) (omega arith)),
          le→leb _ _ refills-flow,
          right_size,
        )
        (chain (send_prepare now pipe.pressure r.replica_id)
          (λ x. send_message x.0 x.1 (refills pipe r ∷ []) 0) (λ x. send_commit x.0 x.1)
          (λ d. ok (closed d)))

  -- On a valid pipe, where a strict majority of the senders offer the receiver exactly the messages `ps`,
  -- no more than the flow, a receiver that has read all of these in its transaction commits without an
  -- abort; it then offers every sender, as its only status, the number of messages that fit into its
  -- memory, as far as the flow allows, and remembers that number; what the other receivers offer is
  -- unchanged, and every sender's count for this receiver is free again.
  pub pipe_receiver_commit_lem :
      (d : Duct) × (pipe_receiver_commit now pipe r ≡ ok (closed d))
      × ((s k : ℕ)
          → s < pipe.dataflow.sender_replicas
          → offered d s k r.replica_id ≡ get_elem? (asking (refills pipe r) ∷ []) k)
      × ((i s k : ℕ)
          → i ≢ r.replica_id
          → s < pipe.dataflow.sender_replicas
          → offered d s k i ≡ offered pipe.pressure s k i)
      × ((s : ℕ)
          → s < pipe.dataflow.sender_replicas
          → (closed d).dataflow.flow_status (offset pipe.dataflow s r.replica_id) ≡ missing_flow)
  unfolding mark_consumed
  pipe_receiver_commit_lem =
      let fit : AllFit pipe.pressure.message_size wanted =
        (omega arith, omega (arith, v.status_size), tt) in
      let (d, e, same, mine, others) =
        send_all_lem now pipe.pressure v.pressure_valid r.replica_id
          (omega (arith, u.own, v.back_senders)) wanted (omega (arith, v.pressure_valid.some_flow))
          fit in
      (
        d,
        rw (pipe_receiver_commit-eq, e) refl,
        (λ s k h. mine s k (omega (arith, v.back_receivers))),
        (λ i s k ne h. others i s k ne (omega (arith, v.back_receivers))),
        λ s h.
            store_each-hit (λ j. offset pipe.dataflow j r.replica_id) missing_flow
              pipe.dataflow.sender_replicas 0 s pipe.dataflow.flow_status (omega arith)
              (omega arith),
      )
