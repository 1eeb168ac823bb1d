-- ===== src/Synch/Pipe/Commit.antt =====
-- A sender's end of a pipe sends what its receivers asked for (synch/pipebuf.c, synch/pipe.c).
use mathlib.Core.List.{map}
use hailburst.Prelude.{
  get_or, ℕ, ◌+◌, ◌-◌, ◌≤◌, ◌<◌, ◌≡◌, ◌≢◌, refl, Bool, true, List, [], ◌∷◌, ◌++◌, Option, none,
  some, ◌==◌, length, get_elem?, Outcome, ok, aborted, ◌>>=◌, arith, get_elem?-ge, length-map,
  le→leb, lt→ltb,
}
use hailburst.Synch.Duct.{
  Duct, Packet, Txn, txn_send, majority_threshold, receive_prepare, receive_message, receive_commit,
  send_prepare, send_commit, mark_consumed, cleared, check_consumed,
}
use hailburst.Synch.Duct.Offer.{IsValid, offered}
use hailburst.Synch.Duct.Vote.{IsReceiving}
use hailburst.Synch.Duct.Receive.{
  reading_at, Offers, count_good, prepared, prepared-IsValid, prepared-Offers, receive_next,
  receive_last, receive_commit-eq,
}
use hailburst.Synch.Duct.Send.{Outgoing, send_each, send_all, send_all_lem, sent}
use hailburst.Synch.Pipe.Defs.{
  Pipe, PipeTxn, pipe_message_size, pipe_max_flow, allowed_flow, sizeof_status, pipe_send_prepare,
  pipe_send_commit,
}
use hailburst.Synch.Pipe.Buffer.{PipeSender, pipe_sender_commit}
use hailburst.Synch.Pipe.Sending.{
  chunks, concat, chunks-left_over, left_over, stamped, chunks-le, chunks-AllFit, send_scratch-eq,
}

-- What PIPE_REGISTER sets up: two ducts in opposite directions, of which one carries the status.
pub record IsPipe (pipe : Pipe) : Type 0 where
  pub dataflow_valid : IsValid pipe.dataflow
  pub pressure_valid : IsValid pipe.pressure
  pub some_size : 1 ≤ pipe_message_size pipe
  pub status_size : pipe.pressure.message_size ≡ sizeof_status
  pub back_senders : pipe.pressure.sender_replicas ≡ pipe.dataflow.receiver_replicas
  pub back_receivers : pipe.pressure.receiver_replicas ≡ pipe.dataflow.sender_replicas

abbrev pub statuses : Option Packet → List Packet
statuses none = []
statuses (some p) = p ∷ []

-- What the loop leaves, when it has sent the last message.
abbrev sent_in : Pipe → ℕ → List ℕ → Duct × Txn → Pipe × PipeTxn × List ℕ
sent_in pipe k rest (d, t) =
    (record pipe { dataflow = d }, record { available = k; data_txn = t }, rest)

abbrev with_txn : Pipe → PipeTxn → Duct × Txn → Pipe × PipeTxn
with_txn pipe txn (d, t) = (record pipe { dataflow = d }, record txn { data_txn = t })

abbrev with_dataflow : Pipe → PipeSender → Duct → Pipe × PipeSender
with_dataflow pipe s d = (record pipe { dataflow = d }, s)

abbrev left_in : PipeSender → List ℕ → Pipe × PipeTxn → Pipe × PipeSender
left_in s rest (pipe, txn) = (pipe, record s { scratch = rest })

-- The same calls, with their results put together sooner or later.
committed :
    (m : Outcome (Duct × Txn)) (pipe : Pipe) (txn : PipeTxn) (s : PipeSender)
    → (m >>= (λ x. ok (with_txn pipe txn x)) >>= λ x. ok (x.0, s))
      ≡ (m >>= (λ x. ok x.0) >>= λ d. ok (with_dataflow pipe s d))
committed (ok x) pipe txn s = refl
committed aborted pipe txn s = refl

commit_last :
    (m : Outcome (Duct × Txn)) (pipe : Pipe) (k : ℕ) (rest : List ℕ) (s : PipeSender)
    → (m >>= (λ x. ok (sent_in pipe k rest x)) >>= λ x.
        pipe_send_commit x.0 x.1 >>= λ y. ok (left_in s x.2 y))
      ≡ (m >>= (λ x. send_commit x.0 x.1 >>= λ y. ok y.0) >>= λ d.
          ok (with_dataflow pipe (record s { scratch = rest }) d))
unfolding pipe_send_commit
commit_last aborted pipe k rest s = refl
commit_last (ok (d, t)) pipe k rest s =
    committed (send_commit d t) pipe (record { available = k; data_txn = t })
      (record s { scratch = rest })

-- The status of a valid duct is read, and the duct closed again.
module _ (now : ℕ → ℕ) (d : Duct) (v : IsValid d) (r : ℕ) (own : r < d.receiver_replicas)
    (good : ℕ → Bool) (quorum : majority_threshold d ≤ count_good good d.sender_replicas 0) where
  reading-IsReceiving : (n : ℕ) → n ≤ 1 → IsReceiving (prepared now d r) (reading_at r n)
  reading-IsReceiving n h = record {
    receiving = refl;
    replica_in = own;
    flow_in = omega (arith, v.some_flow);
  }

  read_status :
      (status : Option Packet)
      → Offers d r good (statuses status)
      → receive_message (prepared now d r) (reading_at r 0)
        ≡ ok (reading_at r (length (statuses status)), status)
  read_status none all =
      receive_last (prepared now d r) (prepared-IsValid now d r v) good [] quorum (omega arith)
        (reading_at r 0) (reading-IsReceiving 0 (omega arith)) (prepared-Offers now d r good [] all)
        refl
  read_status (some p) all =
      receive_next (prepared now d r) (prepared-IsValid now d r v) good (p ∷ []) quorum
        (omega (arith, v.some_flow)) (reading_at r 0) (reading-IsReceiving 0 (omega arith))
        (prepared-Offers now d r good (p ∷ []) all) p refl (omega (arith, v.some_flow))

  statuses-le : (status : Option Packet) → length (statuses status) ≤ 1
  statuses-le none = omega arith
  statuses-le (some p) = omega arith

  close_status :
      (status : Option Packet)
      → Offers d r good (statuses status)
      → receive_commit (prepared now d r) (reading_at r (length (statuses status)))
        ≡ ok (
          record (prepared now d r) { flow_status = mark_consumed (prepared now d r) r },
          cleared (reading_at r 0),
        )
  close_status status all =
      receive_commit-eq (prepared now d r) (prepared-IsValid now d r v) good (statuses status)
        quorum (omega (arith, v.some_flow, statuses-le status))
        (reading_at r (length (statuses status)))
        (reading-IsReceiving (length (statuses status)) (statuses-le status))
        (prepared-Offers now d r good (statuses status) all)
        (get_elem?-ge (statuses status) (length (statuses status)) (omega arith))

-- How many messages a status allows: as many as its first byte says, and none where it is missing.
abbrev pub allowance : Option Packet → ℕ
allowance none = 0
allowance (some p) = get_or p.bytes 0 0

allowed_flow-allowance : (status : Option Packet) → allowed_flow status ≡ allowance status
allowed_flow-allowance none = refl
allowed_flow-allowance (some p) = refl

module _ (now : ℕ → ℕ) (pipe : Pipe) (v : IsPipe pipe) (s : PipeSender)
    (own : s.replica_id < pipe.dataflow.sender_replicas)
    (room : length s.scratch ≤ s.scratch_capacity) (good : ℕ → Bool)
    (quorum : majority_threshold pipe.pressure ≤ count_good good pipe.pressure.sender_replicas 0)
    (status : Option Packet) (all : Offers pipe.pressure s.replica_id good (statuses status))
    (allowed : allowance status ≤ pipe_max_flow pipe) where
  abbrev messages : List Outgoing
  messages = map stamped (chunks (pipe_message_size pipe) (allowance status) s.scratch)

  abbrev pressure' : Duct
  pressure' = record (prepared now pipe.pressure s.replica_id) {
    flow_status = mark_consumed (prepared now pipe.pressure s.replica_id) s.replica_id;
  }

  abbrev kept : PipeSender
  kept = record s { scratch = left_over (pipe_message_size pipe) (allowance status) s.scratch }

  right_size : (pipe.pressure.message_size == sizeof_status) ≡ true
  right_size = rw v.status_size (ground arith)

  abbrev prepared_pipe : Pipe
  prepared_pipe = record pipe {
    dataflow = record pipe.dataflow {
      flags_send =
          check_consumed now pipe.dataflow s.replica_id pipe.dataflow.receiver_replicas 0
            pipe.dataflow.flags_send;
    };
    pressure = pressure';
  }

  abbrev opened : Txn
  opened = record { mode = txn_send; replica_id = s.replica_id; flow_current = 0 }

  pipe_sender_commit-eq : pipe_sender_commit now pipe s ≡ (
      send_all now pipe.dataflow s.replica_id messages >>= λ d.
      ok (record pipe { dataflow = d; pressure = pressure' }, kept))
  unfolding pipe_sender_commit pipe_send_prepare pipe_send_commit send_all receive_prepare
      send_prepare
  pipe_sender_commit-eq =
      rw
        (
          le→leb _ _ room,
          lt→ltb s.replica_id pipe.pressure.receiver_replicas (omega (arith, v.back_receivers)),
          read_status now pipe.pressure v.pressure_valid s.replica_id
              (omega (arith, v.back_receivers)) good quorum status all,
          close_status now pipe.pressure v.pressure_valid s.replica_id
              (omega (arith, v.back_receivers)) good quorum status all,
          allowed_flow-allowance status,
          le→leb _ _ allowed,
          lt→ltb _ _ own,
          right_size,
          send_scratch-eq (length s.scratch + 1) (allowance status) prepared_pipe opened s.scratch
              (record {
                sending = refl;
                replica_in = own;
                flow_in = omega arith;
                little_flow = omega (arith, v.dataflow_valid.little_flow);
              })
              v.some_size (omega arith),
        )
        (commit_last (send_each prepared_pipe.dataflow opened messages) prepared_pipe
          (allowance status - length (chunks (pipe_message_size pipe) (allowance status) s.scratch))
          kept.scratch s)

  -- On a valid pipe, if a strict majority of the receivers give a sender the same status, which allows
  -- it no more messages than the pipe carries, the sender's commit aborts nowhere; it then offers
  -- every receiver the oldest of its bytes, cut into at most so many messages of the pipe's size, and
  -- keeps the other bytes, so that no byte is lost, doubled or moved; what the other senders offer is
  -- unchanged. A missing status allows none.
  pub pipe_sender_commit_lem :
      (pipe' : Pipe) × (pipe_sender_commit now pipe s ≡ ok (pipe', kept))
      × ((r k : ℕ)
          → r < pipe.dataflow.receiver_replicas
          → offered pipe'.dataflow r k s.replica_id ≡ get_elem? (map sent messages) k)
      × ((i r k : ℕ)
          → i ≢ s.replica_id
          → r < pipe.dataflow.receiver_replicas
          → offered pipe'.dataflow r k i ≡ offered pipe.dataflow r k i)
      × (concat (chunks (pipe_message_size pipe) (allowance status) s.scratch) ++ kept.scratch
          ≡ s.scratch)
  pipe_sender_commit_lem =
      let (d, e, same, mine, others) =
        send_all_lem now pipe.dataflow v.dataflow_valid s.replica_id own messages
          (omega (
            arith,
            length-map stamped (chunks (pipe_message_size pipe) (allowance status) s.scratch),
            chunks-le (pipe_message_size pipe) (allowance status) s.scratch,
          ))
          (chunks-AllFit (pipe_message_size pipe) (allowance status) s.scratch v.some_size) in
      (
        record pipe { dataflow = d; pressure = pressure' },
        rw (pipe_sender_commit-eq, e) refl,
        mine,
        others,
        chunks-left_over (pipe_message_size pipe) (allowance status) s.scratch,
      )
