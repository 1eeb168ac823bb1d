-- ===== src/Synch/Pipe/Tests.antt =====
-- Small pipes on which the theorems about pipes are applied.
use mathlib.Core.List.{map}
use hailburst.Prelude.{
  ℕ, zero, suc, ◌≤◌, ◌<◌, ◌≡◌, ◌≢◌, refl, Bool, true, List, [], ◌∷◌, ◌++◌, some, leb, ok, arith,
  get_elem?, length, update,
}
use hailburst.Synch.Flag.{initial_flag}
use hailburst.Synch.Duct.{Duct, Packet, missing_flow, majority_threshold, offset, mark_consumed}
use hailburst.Synch.Duct.Offer.{offered}
use hailburst.Synch.Duct.Send.{sent}
use hailburst.Synch.Duct.Receive.{reading_at, count_good, Offers, prepared}
use hailburst.Synch.Pipe.Defs.{Pipe}
use hailburst.Synch.Pipe.Buffer.{
  PipeSender, PipeReceiver, pipe_sender_commit, pipe_receiver_prepare, pipe_receiver_commit,
}
use hailburst.Synch.Pipe.Sending.{chunks, concat, left_over, stamped}
use hailburst.Synch.Pipe.Commit.{IsPipe, pipe_sender_commit_lem}
use hailburst.Synch.Pipe.Filling.{IsReceiver, pipe_receiver_prepare_lem}
use hailburst.Synch.Pipe.Asking.{asking, pipe_receiver_commit_lem}

-- A duct whose every slot holds the message of `body`, with the count `status` for everyone.
abbrev duct_of : ℕ → ℕ → ℕ → ℕ → ℕ → List ℕ → Duct
duct_of senders receivers flow size status body = record {
  sender_replicas = senders;
  receiver_replicas = receivers;
  max_flow = flow;
  message_size = size;
  message_buffer = λ _. record { size = length body; timestamp = 0; body = body };
  flow_status = λ _. status;
  flags_receive = λ _. initial_flag;
  flags_send = λ _. initial_flag;
}

-- Three senders and one receiver, which has asked for one message of at most two bytes.
abbrev pipe_with : ℕ → Pipe
pipe_with waiting = record {
  last_requested = λ _. 1;
  dataflow = duct_of 3 1 2 2 waiting (7 ∷ 8 ∷ []);
  pressure = duct_of 1 3 1 1 1 (1 ∷ []);
}

pipe_with-IsPipe : (waiting : ℕ) → IsPipe (pipe_with waiting)
pipe_with-IsPipe waiting = record {
  dataflow_valid = record {
    some_sender = omega arith;
    few_senders = omega arith;
    some_receiver = omega arith;
    few_receivers = omega arith;
    some_flow = omega arith;
    little_flow = omega arith;
  };
  pressure_valid = record {
    some_sender = omega arith;
    few_senders = omega arith;
    some_receiver = omega arith;
    few_receivers = omega arith;
    some_flow = omega arith;
    little_flow = omega arith;
  };
  some_size = omega arith;
  status_size = refl;
  back_senders = refl;
  back_receivers = refl;
}

abbrev clock : ℕ → ℕ
clock _ = 0

abbrev everyone : ℕ → Bool
everyone _ = true

abbrev three_bytes : PipeSender
three_bytes = record { replica_id = 2; scratch_capacity = 8; scratch = 4 ∷ 5 ∷ 6 ∷ [] }

asked-Offers : Offers (pipe_with missing_flow).pressure 2 everyone (asking 1 ∷ [])
asked-Offers s zero h g = refl
asked-Offers s (suc k) h g = let over : leb 1 (suc k) ≡ true = (ground arith) in rw over refl

one-quorum : majority_threshold (pipe_with missing_flow).pressure ≤ count_good everyone 1 0
unfolding count_good everyone
one-quorum = omega arith

pipe_sender_commit_lem_example :
    (pipe' : Pipe) × (pipe_sender_commit clock (pipe_with missing_flow) three_bytes
      ≡ ok (pipe', record three_bytes { scratch = 6 ∷ [] }))
    × ((r k : ℕ)
        → r < 1
        → offered pipe'.dataflow r k 2 ≡ get_elem? (map sent (map stamped ((4 ∷ 5 ∷ []) ∷ []))) k)
    × ((i r k : ℕ)
        → i ≢ 2
        → r < 1
        → offered pipe'.dataflow r k i ≡ offered (pipe_with missing_flow).dataflow r k i)
    × (concat ((4 ∷ 5 ∷ []) ∷ []) ++ 6 ∷ [] ≡ 4 ∷ 5 ∷ 6 ∷ [])
unfolding chunks left_over
pipe_sender_commit_lem_example =
    pipe_sender_commit_lem clock (pipe_with missing_flow) (pipe_with-IsPipe missing_flow)
      three_bytes (omega arith) (omega arith) everyone one-quorum (some (asking 1)) asked-Offers
      (omega arith)

-- Two bytes are not read yet, behind one that is.
abbrev half_read : ℕ → PipeReceiver
half_read n = record {
  replica_id = 0;
  scratch_capacity = 4;
  scratch_offset = 1;
  unread = 2 ∷ 3 ∷ [];
  pipe_txn = record { available = 0; data_txn = reading_at 0 n };
}

half_read-IsReceiver : (waiting n : ℕ) → IsReceiver (pipe_with waiting) (half_read n)
half_read-IsReceiver waiting n = record {
  inside = omega arith;
  pipelined = omega arith;
  own = omega arith;
}

abbrev waiting_message : Packet
waiting_message = record { size = 2; timestamp = 0; bytes = 7 ∷ 8 ∷ [] }

waiting-Offers : Offers (pipe_with 1).dataflow 0 everyone (waiting_message ∷ [])
waiting-Offers s zero h g = refl
waiting-Offers s (suc k) h g = let over : leb 1 (suc k) ≡ true = (ground arith) in rw over refl

three-quorum : majority_threshold (pipe_with 1).dataflow ≤ count_good everyone 3 0
unfolding count_good everyone
three-quorum = omega arith

pipe_receiver_prepare_lem_example :
    (r' : PipeReceiver) × (pipe_receiver_prepare clock (pipe_with 1) (half_read 0)
      ≡ ok (record (pipe_with 1) { dataflow = prepared clock (pipe_with 1).dataflow 0 }, r'))
    × (r'.unread ≡ 2 ∷ 3 ∷ 7 ∷ 8 ∷ [])
    × (r'.pipe_txn.data_txn ≡ reading_at 0 1)
    × IsReceiver (record (pipe_with 1) { dataflow = prepared clock (pipe_with 1).dataflow 0 }) r'
pipe_receiver_prepare_lem_example =
    pipe_receiver_prepare_lem clock (pipe_with 1) (pipe_with-IsPipe 1).dataflow_valid (omega arith)
      (half_read 0) (half_read-IsReceiver 1 0) everyone (waiting_message ∷ []) three-quorum
      (omega arith, tt) waiting-Offers (omega arith) (omega arith)

pipe_receiver_commit_lem_example :
    (d : Duct) × (pipe_receiver_commit clock (pipe_with 1) (half_read 1)
      ≡ ok (record {
        last_requested = update (λ _. 1) 0 1;
        dataflow = record (pipe_with 1).dataflow {
          flow_status = mark_consumed (pipe_with 1).dataflow 0;
        };
        pressure = d;
      }))
    × ((s k : ℕ) → s < 3 → offered d s k 0 ≡ get_elem? (asking 1 ∷ []) k)
    × ((i s k : ℕ) → i ≢ 0 → s < 3 → offered d s k i ≡ offered (pipe_with 1).pressure s k i)
    × ((s : ℕ)
        → s < 3
        → mark_consumed (pipe_with 1).dataflow 0 (offset (pipe_with 1).dataflow s 0) ≡ missing_flow)
pipe_receiver_commit_lem_example =
    pipe_receiver_commit_lem clock (pipe_with 1) (pipe_with-IsPipe 1) (half_read 1)
      (half_read-IsReceiver 1 1) everyone (waiting_message ∷ []) three-quorum (omega arith)
      waiting-Offers refl
