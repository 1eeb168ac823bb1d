-- ===== src/Synch/Pipe/Defs.antt =====
-- The data and the operations of synch/pipe.c.
use hailburst.Prelude.{
  ℕ, zero, suc, ◌+◌, ◌-◌, ◌%◌, Bool, not, ◌&&◌, List, [], ◌∷◌, Option, none, some, ltb, leb, ◌==◌,
  get_or, length, update, Outcome, ok, aborted, ◌>>=◌, ◌>>◌, assert,
}
use hailburst.Synch.Duct.{
  Duct, Txn, Packet, send_prepare, send_message, send_commit, receive_prepare, receive_message,
  receive_commit,
}

-- `pipe_t`. The status that goes back over `pressure` is the one byte of `allowed_flow`.
pub record Pipe : Type 0 where
  pub last_requested : ℕ → ℕ
  pub dataflow : Duct
  pub pressure : Duct

abbrev pub sizeof_status : ℕ
sizeof_status = 1

abbrev pub pipe_message_size : Pipe → ℕ
pipe_message_size pipe = pipe.dataflow.message_size

abbrev pub pipe_max_flow : Pipe → ℕ
pipe_max_flow pipe = pipe.dataflow.max_flow

-- `pipe_txn_t` without the pointer to its pipe.
pub record PipeTxn : Type 0 where
  pub available : ℕ
  pub data_txn : Txn

-- No status, no flow.
abbrev pub allowed_flow : Option Packet → ℕ
allowed_flow none = 0
allowed_flow (some p) = get_or p.bytes 0 0

unfoldable pub pipe_send_prepare : (ℕ → ℕ) → Pipe → ℕ → Outcome (Pipe × PipeTxn)
pipe_send_prepare now pipe sender_id = do
  (pressure, ptxn) ← receive_prepare now pipe.pressure sender_id
  assert (pressure.message_size == sizeof_status)
  (ptxn', status) ← receive_message pressure ptxn
  (pressure', _) ← receive_commit pressure ptxn'
  assert (leb (allowed_flow status) (pipe_max_flow pipe))
  (dataflow, data_txn) ← send_prepare now pipe.dataflow sender_id
  ok (
    record pipe { dataflow = dataflow; pressure = pressure' },
    record { available = allowed_flow status; data_txn = data_txn },
  )

abbrev pub pipe_send_allowed : PipeTxn → Bool
pipe_send_allowed txn = ltb 0 txn.available

unfoldable pub pipe_send_message : Pipe → PipeTxn → List ℕ → ℕ → Outcome (Pipe × PipeTxn)
pipe_send_message pipe txn message timestamp = do
  assert (leb 1 (length message))
  assert (ltb 0 txn.available)
  (dataflow, data_txn) ← send_message pipe.dataflow txn.data_txn message timestamp
  ok (
    record pipe { dataflow = dataflow },
    record { available = txn.available - 1; data_txn = data_txn },
  )

unfoldable pub pipe_send_commit : Pipe → PipeTxn → Outcome (Pipe × PipeTxn)
pipe_send_commit pipe txn = do
  (dataflow, data_txn) ← send_commit pipe.dataflow txn.data_txn
  ok (record pipe { dataflow = dataflow }, record txn { data_txn = data_txn })

unfoldable pub pipe_receive_prepare : (ℕ → ℕ) → Pipe → ℕ → Outcome (Pipe × PipeTxn)
pipe_receive_prepare now pipe receiver_id = do
  let available = pipe.last_requested receiver_id % 256
  assert (leb available (pipe_max_flow pipe))
  (dataflow, data_txn) ← receive_prepare now pipe.dataflow receiver_id
  ok (record pipe { dataflow = dataflow }, record { available = available; data_txn = data_txn })

abbrev pub after_receive : PipeTxn → Txn → Option Packet → PipeTxn
after_receive txn data_txn none = record txn { data_txn = data_txn }
after_receive txn data_txn (some p) = record { available = txn.available - 1; data_txn = data_txn }

unfoldable pub pipe_receive_message : Pipe → PipeTxn → Outcome (PipeTxn × Option Packet)
pipe_receive_message pipe txn = do
  (data_txn, found) ← receive_message pipe.dataflow txn.data_txn
  ok (after_receive txn data_txn found, found)

-- The loop of `pipe_receive_commit`: how many messages were left over.
unfoldable pub count_extra : ℕ → Duct → Txn → Outcome (Txn × ℕ)
count_extra zero d t = aborted
count_extra (suc fuel) d t = receive_message d t >>= λ (t', found). elim found [
  | none ↦ ok (t', 0)
  | some p ↦ count_extra fuel d t' >>= λ (t'', n). ok (t'', (n + 1) % 256)
]

unfoldable pub pipe_receive_commit : (ℕ → ℕ) → Pipe → PipeTxn → ℕ → Outcome Pipe
pipe_receive_commit now pipe txn requested_count = do
  let receiver_id = txn.data_txn.replica_id
  (data_txn, extra_messages) ← count_extra (pipe_max_flow pipe + 1) pipe.dataflow txn.data_txn
  assert (not (ltb 0 extra_messages && ltb 0 txn.available))
  (dataflow, _) ← receive_commit pipe.dataflow data_txn
  assert (leb requested_count (pipe_max_flow pipe))
  assert (pipe.pressure.message_size == sizeof_status)
  (pressure, ptxn) ← send_prepare now pipe.pressure receiver_id
  (pressure', ptxn') ← send_message pressure ptxn (requested_count ∷ []) 0
  (pressure'', _) ← send_commit pressure' ptxn'
  ok (record {
    last_requested = update pipe.last_requested receiver_id requested_count;
    dataflow = dataflow;
    pressure = pressure'';
  })
