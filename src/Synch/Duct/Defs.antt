-- ===== src/Synch/Duct/Defs.antt =====
-- The data and the operations of synch/duct.c.
use hailburst.Prelude.{
  store_each, ℕ, zero, suc, ◌+◌, ◌*◌, ◌/◌, ◌%◌, Bool, true, false, not, ◌&&◌, ◌||◌, List, ◌++◌,
  Option, none, some, ltb, leb, ◌==◌, if◌then◌else◌, length, take, drop, update, bytes_eq, Outcome,
  ok, ◌>>=◌, ◌>>◌, assert,
}
use hailburst.Synch.Flag.{Flag, flag_raise_check, flag_recover_check}

-- DUCT_MAX_REPLICAS, DUCT_MAX_FLOW, DUCT_MISSING_FLOW
abbrev pub max_replicas : ℕ
max_replicas = 4

abbrev pub max_max_flow : ℕ
max_max_flow = 254

abbrev pub missing_flow : ℕ
missing_flow = 255

-- `duct_message_t`. The body is the slot's whole array of `message_size` bytes.
pub record Message : Type 0 where
  pub size : ℕ
  pub timestamp : ℕ
  pub body : List ℕ

-- `duct_t`: the fields that never change, then the arrays.
pub record Duct : Type 0 where
  pub sender_replicas : ℕ
  pub receiver_replicas : ℕ
  pub max_flow : ℕ
  pub message_size : ℕ
  pub message_buffer : ℕ → Message
  pub flow_status : ℕ → ℕ
  pub flags_receive : ℕ → Flag
  pub flags_send : ℕ → Flag

pub data TxnMode : Type 0 where
  txn_invalid txn_send txn_recv : TxnMode

-- `duct_txn_t` without the pointer to its duct.
pub record Txn : Type 0 where
  pub mode : TxnMode
  pub replica_id : ℕ
  pub flow_current : ℕ

abbrev pub is_send : TxnMode → Bool
is_send txn_send = true
is_send _ = false

abbrev pub is_recv : TxnMode → Bool
is_recv txn_recv = true
is_recv _ = false

-- What a receiver gets: the size returned, the timestamp, and the bytes copied out.
pub record Packet : Type 0 where
  pub size : ℕ
  pub timestamp : ℕ
  pub bytes : List ℕ

abbrev pub offset : Duct → ℕ → ℕ → ℕ
offset d sender_id receiver_id = sender_id * d.receiver_replicas + receiver_id

abbrev pub slot : Duct → ℕ → ℕ → ℕ
slot d sender_id flow_index = sender_id * d.max_flow + flow_index

-- The place of a message in the buffer, behind the checks of `duct_lookup_message`.
unfoldable pub lookup_message : Duct → ℕ → ℕ → Outcome ℕ
lookup_message d sender_id flow_index = do
  assert (ltb sender_id d.sender_replicas)
  assert (ltb flow_index d.max_flow)
  ok (slot d sender_id flow_index)

-- The loop of `duct_send_prepare` over the receivers from `i` on, in the array of flags; `now` is the
-- clock at each check.
unfoldable pub check_consumed : (ℕ → ℕ) → Duct → ℕ → ℕ → ℕ → (ℕ → Flag) → ℕ → Flag
check_consumed now d sender_id zero i flags = flags
check_consumed now d sender_id (suc n) i flags =
    let o = offset d sender_id i in
    let checked =
      (if not (d.flow_status o == missing_flow)
        then flag_raise_check (flags o) (now i)
        else flag_recover_check (flags o) (now i)).0 in
    check_consumed now d sender_id n (i + 1) (update flags o checked)

unfoldable pub send_prepare : (ℕ → ℕ) → Duct → ℕ → Outcome (Duct × Txn)
send_prepare now d sender_id = do
  assert (ltb sender_id d.sender_replicas)
  ok (
    record d { flags_send = check_consumed now d sender_id d.receiver_replicas 0 d.flags_send },
    record { mode = txn_send; replica_id = sender_id; flow_current = 0 },
  )

unfoldable pub send_allowed : Duct → Txn → Outcome Bool
send_allowed d t = do
  assert (is_send t.mode)
  assert (ltb t.replica_id d.sender_replicas)
  assert (leb t.flow_current d.max_flow)
  ok (ltb t.flow_current d.max_flow)

-- memcpy of the message over the front of what the slot held before.
abbrev pub overwrite : List ℕ → List ℕ → List ℕ
overwrite message old = message ++ drop (length message) old

unfoldable pub send_message : Duct → Txn → List ℕ → ℕ → Outcome (Duct × Txn)
send_message d t message timestamp = do
  assert (is_send t.mode)
  assert (ltb t.replica_id d.sender_replicas)
  assert (ltb t.flow_current d.max_flow)
  assert (leb 1 (length message) && leb (length message) d.message_size)
  place ← lookup_message d t.replica_id t.flow_current
  let entry : Message = record {
    size = length message;
    timestamp = timestamp;
    body = overwrite message (d.message_buffer place).body;
  }
  ok (
    record d { message_buffer = update d.message_buffer place entry },
    record t { flow_current = (t.flow_current + 1) % 256 },
  )

-- The loop of `duct_send_commit` over the receivers, in the array of counts.
unfoldable pub emit_counts : Duct → ℕ → ℕ → ℕ → ℕ
emit_counts d sender_id flow =
    store_each (offset d sender_id) flow d.receiver_replicas 0 d.flow_status

-- A transaction is closed by its mode and its count.
abbrev pub cleared : Txn → Txn
cleared t = record t { mode = txn_invalid; flow_current = missing_flow }

unfoldable pub send_commit : Duct → Txn → Outcome (Duct × Txn)
send_commit d t = do
  assert (is_send t.mode)
  assert (ltb t.replica_id d.sender_replicas)
  assert (leb t.flow_current d.max_flow)
  ok (record d { flow_status = emit_counts d t.replica_id t.flow_current }, cleared t)

-- The loop of `duct_receive_prepare` over the senders from `i` on, in the arrays of counts and flags.
unfoldable pub check_sent : (ℕ → ℕ) → Duct → ℕ → ℕ → ℕ → (ℕ → ℕ) → (ℕ → Flag) → (ℕ → ℕ) × (ℕ → Flag)
check_sent now d receiver_id zero i counts flags = (counts, flags)
check_sent now d receiver_id (suc n) i counts flags =
    let o = offset d i receiver_id in
    let status = counts o in
    let deviated = status == missing_flow || ltb d.max_flow status in
    let checked =
      (if deviated
        then flag_raise_check (flags o) (now i)
        else flag_recover_check (flags o) (now i)).0 in
    check_sent now d receiver_id n (i + 1) (if deviated then update counts o 0 else counts)
      (update flags o checked)

unfoldable pub receive_prepare : (ℕ → ℕ) → Duct → ℕ → Outcome (Duct × Txn)
receive_prepare now d receiver_id = do
  assert (ltb receiver_id d.receiver_replicas)
  let checked = check_sent now d receiver_id d.sender_replicas 0 d.flow_status d.flags_receive
  ok (
    record d { flow_status = checked.0; flags_receive = checked.1 },
    record { mode = txn_recv; replica_id = receiver_id; flow_current = 0 },
  )

abbrev pub majority_threshold : Duct → ℕ
majority_threshold d = d.sender_replicas / 2 + 1

abbrev pub usable : Duct → Message → Option Message
usable d m = if m.size == 0 || ltb d.message_size m.size then none else some m

unfoldable pub check_message : Duct → ℕ → ℕ → ℕ → Outcome (Option Message)
check_message d sender_id receiver_id idx =
    let status = d.flow_status (offset d sender_id receiver_id) in
    let found =
      (lookup_message d sender_id idx >>= λ place. ok (usable d (d.message_buffer place))) in
    if status == missing_flow || leb status idx || ltb d.max_flow status then ok none else found

-- The tests of the inner loop of `duct_receive_message`: size, timestamp, then memcmp.
abbrev pub same_message : Message → Message → Bool
same_message candidate compared =
    (compared.size == candidate.size)
    && (compared.timestamp == candidate.timestamp)
    && bytes_eq (take compared.size candidate.body) (take compared.size compared.body)

abbrev pub tally : Message → ℕ → Option Message → ℕ
tally candidate votes none = votes
tally candidate votes (some compared) =
    if same_message candidate compared then (votes + 1) % 256 else votes

-- The inner loop, over the senders from `i` on.
unfoldable pub count_votes : Duct → ℕ → ℕ → Message → ℕ → ℕ → ℕ → Outcome ℕ
count_votes d receiver_id idx candidate zero i votes = ok votes
count_votes d receiver_id idx candidate (suc n) i votes =
    check_message d i receiver_id idx >>= λ compared.
    count_votes d receiver_id idx candidate n (i + 1) (tally candidate votes compared)

-- The outer loop, over the candidates from `i` on: the first one with a majority.
unfoldable pub pick_candidate : Duct → ℕ → ℕ → ℕ → ℕ → Outcome (Option Message)
pick_candidate d receiver_id idx zero i = ok none
pick_candidate d receiver_id idx (suc n) i =
    let rest = pick_candidate d receiver_id idx n (i + 1) in
    check_message d i receiver_id idx >>= λ found. elim found [
      | none ↦ rest
      | some candidate ↦ count_votes d receiver_id idx candidate n (i + 1) 1 >>= λ votes.
          if leb (majority_threshold d) votes then ok (some candidate) else rest
    ]

abbrev pub packet_of : Message → Packet
packet_of m = record { size = m.size; timestamp = m.timestamp; bytes = take m.size m.body }

abbrev pub delivered : Txn → Option Message → Txn × Option Packet
delivered t none = (t, none)
delivered t (some m) = (record t { flow_current = (t.flow_current + 1) % 256 }, some (packet_of m))

-- `none` is the size 0 that ends the transaction.
unfoldable pub receive_message : Duct → Txn → Outcome (Txn × Option Packet)
receive_message d t =
    let vote =
      (pick_candidate d t.replica_id t.flow_current d.sender_replicas 0 >>= λ chosen.
      ok (delivered t chosen)) in
    do
      assert (is_recv t.mode)
      assert (ltb t.replica_id d.receiver_replicas)
      assert (leb t.flow_current d.max_flow)
      if t.flow_current == d.max_flow then ok (t, none) else vote

-- The loop of `duct_receive_commit` over the senders, in the array of counts.
unfoldable pub mark_consumed : Duct → ℕ → ℕ → ℕ
mark_consumed d receiver_id =
    store_each (λ sender_id. offset d sender_id receiver_id) missing_flow d.sender_replicas 0
      d.flow_status

abbrev pub is_none : Option Packet → Bool
is_none none = true
is_none (some p) = false

-- A message left unread is a malfunction.
unfoldable pub receive_commit : Duct → Txn → Outcome (Duct × Txn)
receive_commit d t = do
  assert (is_recv t.mode)
  assert (ltb t.replica_id d.receiver_replicas)
  assert (leb t.flow_current d.max_flow)
  (t', leftover) ← receive_message d t
  assert (is_none leftover)
  ok (record d { flow_status = mark_consumed d t'.replica_id }, cleared t')
