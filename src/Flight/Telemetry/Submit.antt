-- ===== src/Flight/Telemetry/Submit.antt =====
-- The transactions of flight/telemetry.c, over a duct or a pipe. A message is the bytes of a
-- `tlm_async_t` or `tlm_sync_t` up to the end of its data, with the number laid out by the processor;
-- the scratch memory of a large message is written anew for each, and is not kept here.
use hailburst.Prelude.{
  ℕ, Bool, true, false, ◌&&◌, List, ◌++◌, leb, length, le32, Outcome, ok, ◌>>=◌, ◌>>◌, assert,
}
use hailburst.Synch.Duct.{Duct, Txn, send_prepare, send_allowed, send_message, send_commit}
use hailburst.Synch.Pipe.{
  Pipe, PipeTxn, pipe_send_prepare, pipe_send_allowed, pipe_send_message, pipe_send_commit,
}

abbrev pub max_async_size : ℕ
max_async_size = 16

abbrev pub max_sync_size : ℕ
max_sync_size = 65536

-- `tlm_endpoint_t`: asynchronous telemetry goes over a duct, synchronous telemetry over a pipe.
pub data TlmEndpoint : Type 0 where
  async : Duct → TlmEndpoint
  synch : Pipe → TlmEndpoint

-- `tlm_txn_t`, with what its endpoint points to.
pub data TlmTxn : Type 0 where
  async_txn : Duct → Txn → TlmTxn
  synch_txn : Pipe → PipeTxn → TlmTxn

abbrev pub is_synchronous : TlmTxn → Bool
is_synchronous (async_txn d t) = false
is_synchronous (synch_txn p t) = true

unfoldable pub telemetry_prepare : (ℕ → ℕ) → TlmEndpoint → ℕ → Outcome TlmTxn
telemetry_prepare now (async d) sender_id =
    send_prepare now d sender_id >>= λ (d', t). ok (async_txn d' t)
telemetry_prepare now (synch p) sender_id =
    pipe_send_prepare now p sender_id >>= λ (p', t). ok (synch_txn p' t)

unfoldable pub telemetry_can_send : TlmTxn → Outcome Bool
telemetry_can_send (async_txn d t) = send_allowed d t
telemetry_can_send (synch_txn p t) = ok (pipe_send_allowed t)

unfoldable pub telemetry_commit : TlmTxn → Outcome TlmEndpoint
telemetry_commit (async_txn d t) = send_commit d t >>= λ (d', _). ok (async d')
telemetry_commit (synch_txn p t) = pipe_send_commit p t >>= λ (p', _). ok (synch p')

-- pipe_send_message or duct_send_message
unfoldable pub submit : TlmTxn → List ℕ → ℕ → Outcome TlmTxn
submit (async_txn d t) message timestamp =
    send_message d t message timestamp >>= λ (d', t'). ok (async_txn d' t')
submit (synch_txn p t) message timestamp =
    pipe_send_message p t message timestamp >>= λ (p', t'). ok (synch_txn p' t')

-- `epoch` is what timer_epoch_ns() gives.
unfoldable pub telemetry_small_submit : ℕ → TlmTxn → ℕ → List ℕ → Outcome TlmTxn
telemetry_small_submit epoch txn telemetry_id data_bytes = do
  assert (leb (length data_bytes) max_async_size)
  submit txn (le32 telemetry_id ++ data_bytes) epoch

-- The check of `telemetry_large_start`, which gives the caller the scratch memory.
unfoldable pub telemetry_large_start : TlmTxn → Outcome (Unit {0})
telemetry_large_start txn = telemetry_can_send txn >>= λ free. assert (free && is_synchronous txn)

unfoldable pub telemetry_large_submit : ℕ → TlmTxn → ℕ → List ℕ → Outcome TlmTxn
telemetry_large_submit epoch txn telemetry_id data_bytes = do
  assert (leb (length data_bytes) max_sync_size && is_synchronous txn)
  submit txn (le32 telemetry_id ++ data_bytes) epoch
