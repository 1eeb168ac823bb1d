-- ===== src/Synch/Pipe/Buffer.antt =====
-- The data and the operations of synch/pipebuf.c and include/synch/pipebuf.h.
use hailburst.Prelude.{
  ℕ, zero, suc, ◌+◌, ◌-◌, ◌*◌, ◌/◌, Bool, ◌&&◌, List, [], ◌∷◌, ◌++◌, Option, none, some, ltb, leb,
  ◌==◌, if◌then◌else◌, get_or, length, take, drop, Outcome, ok, aborted, ◌>>=◌, ◌>>◌, assert,
}
use hailburst.Synch.Duct.{Packet}
use hailburst.Synch.Pipe.Defs.{
  Pipe, PipeTxn, pipe_message_size, pipe_max_flow, pipe_send_prepare, pipe_send_allowed,
  pipe_send_message, pipe_send_commit, pipe_receive_prepare, pipe_receive_message,
  pipe_receive_commit,
}

-- `pipe_sender_t`: `scratch` are the first `scratch_offset` bytes of its memory.
pub record PipeSender : Type 0 where
  pub replica_id : ℕ
  pub scratch_capacity : ℕ
  pub scratch : List ℕ

abbrev pub scratch_offset : PipeSender → ℕ
scratch_offset s = length s.scratch

abbrev pub pipe_sender_reset : PipeSender → PipeSender
pipe_sender_reset s = record s { scratch = [] }

unfoldable pub pipe_sender_prepare : PipeSender → Outcome PipeSender
pipe_sender_prepare s = assert (leb (scratch_offset s) s.scratch_capacity) >> ok s

unfoldable pub pipe_sender_reserve : PipeSender → ℕ → Outcome Bool
pipe_sender_reserve s len = do
  assert (leb len s.scratch_capacity)
  assert (leb (scratch_offset s) s.scratch_capacity)
  ok (leb (scratch_offset s + len) s.scratch_capacity)

unfoldable pub pipe_sender_write_byte : PipeSender → ℕ → Outcome PipeSender
pipe_sender_write_byte s byte = do
  assert (ltb (scratch_offset s) s.scratch_capacity)
  ok (record s { scratch = s.scratch ++ byte ∷ [] })

unfoldable pub pipe_sender_write : PipeSender → List ℕ → Outcome PipeSender
pipe_sender_write s bytes = do
  assert (leb (scratch_offset s + length bytes) s.scratch_capacity)
  ok (record s { scratch = s.scratch ++ bytes })

-- The bytes are copied behind `scratch_offset`, which stays: nothing is added to what is to be sent.
unfoldable pub pipe_sender_write_partial : PipeSender → List ℕ → Outcome (PipeSender × ℕ)
pipe_sender_write_partial s bytes = do
  assert (leb (scratch_offset s) s.scratch_capacity)
  let fits = leb (scratch_offset s + length bytes) s.scratch_capacity
  ok (s, if fits then length bytes else s.scratch_capacity - scratch_offset s)

-- The loop of `pipe_sender_commit`: at most a message of the oldest bytes each time. Every round sends
-- at least a byte.
unfoldable pub send_scratch : ℕ → Pipe → PipeTxn → List ℕ → Outcome (Pipe × PipeTxn × List ℕ)
send_scratch zero pipe txn scratch = aborted
send_scratch (suc fuel) pipe txn scratch =
    let size = pipe_message_size pipe in
    let send_len = (if ltb size (length scratch) then size else length scratch) in
    let sent =
      (pipe_send_message pipe txn (take send_len scratch) 0 >>= λ (pipe', txn').
      send_scratch fuel pipe' txn' (drop send_len scratch)) in
    if ltb 0 (length scratch) && pipe_send_allowed txn then sent else ok (pipe, txn, scratch)

unfoldable pub pipe_sender_commit : (ℕ → ℕ) → Pipe → PipeSender → Outcome (Pipe × PipeSender)
pipe_sender_commit now pipe s = do
  assert (leb (scratch_offset s) s.scratch_capacity)
  (pipe₁, txn) ← pipe_send_prepare now pipe s.replica_id
  (pipe₂, txn', scratch) ← send_scratch (scratch_offset s + 1) pipe₁ txn s.scratch
  (pipe₃, _) ← pipe_send_commit pipe₂ txn'
  ok (pipe₃, record s { scratch = scratch })

-- `pipe_receiver_t`: `unread` are the bytes of its memory from `scratch_offset` up to `scratch_avail`.
pub record PipeReceiver : Type 0 where
  pub replica_id : ℕ
  pub scratch_capacity : ℕ
  pub scratch_offset : ℕ
  pub unread : List ℕ
  pub pipe_txn : PipeTxn

abbrev pub scratch_avail : PipeReceiver → ℕ
scratch_avail r = r.scratch_offset + length r.unread

abbrev pub pipe_receiver_reset : PipeReceiver → PipeReceiver
pipe_receiver_reset r = record r { scratch_offset = 0; unread = [] }

unfoldable pub request_count : Pipe → PipeReceiver → Outcome ℕ
request_count pipe r = do
  assert (leb (scratch_avail r) r.scratch_capacity)
  assert (leb (2 * pipe_message_size pipe) r.scratch_capacity)
  let refills = (r.scratch_capacity - length r.unread) / pipe_message_size pipe
  ok (if ltb (pipe_max_flow pipe) refills then pipe_max_flow pipe else refills)

-- The bytes not read yet move to the front of the memory.
unfoldable pub relocated : Pipe → ℕ → PipeReceiver → PipeReceiver
relocated pipe refills r =
    if ltb 0 r.scratch_offset
      && ltb r.scratch_capacity (scratch_avail r + pipe_message_size pipe * refills)
    then record r { scratch_offset = 0 }
    else r

abbrev pub received_bytes : Option Packet → List ℕ
received_bytes none = []
received_bytes (some p) = p.bytes

-- The loop of `pipe_receiver_prepare`.
unfoldable pub refill : Pipe → ℕ → PipeReceiver → Outcome PipeReceiver
refill pipe zero r = ok r
refill pipe (suc refills) r = do
  assert (leb (scratch_avail r + pipe_message_size pipe * suc refills) r.scratch_capacity)
  (txn, found) ← pipe_receive_message pipe r.pipe_txn
  refill pipe refills (record r { unread = r.unread ++ received_bytes found; pipe_txn = txn })

unfoldable pub pipe_receiver_prepare : (ℕ → ℕ) → Pipe → PipeReceiver → Outcome (Pipe × PipeReceiver)
pipe_receiver_prepare now pipe r = do
  (pipe', txn) ← pipe_receive_prepare now pipe r.replica_id
  let r₁ : PipeReceiver = record r { pipe_txn = txn }
  refills ← request_count pipe' r₁
  let filled =
      (refill pipe' refills (relocated pipe' refills r₁) >>= λ r₂.
      assert (leb (scratch_avail r₂) r₂.scratch_capacity) >> ok (pipe', r₂))
  if refills == 0 then ok (pipe', r₁) else filled

unfoldable pub pipe_receiver_commit : (ℕ → ℕ) → Pipe → PipeReceiver → Outcome Pipe
pipe_receiver_commit now pipe r = do
  assert (leb (pipe_message_size pipe) r.scratch_capacity)
  refills ← request_count pipe r
  pipe_receive_commit now pipe r.pipe_txn refills

unfoldable pub pipe_receiver_has_next : PipeReceiver → ℕ → Outcome Bool
pipe_receiver_has_next r count = do
  assert (leb (scratch_avail r) r.scratch_capacity)
  ok (leb count (length r.unread))

unfoldable pub pipe_receiver_read_byte : PipeReceiver → Outcome (PipeReceiver × ℕ)
pipe_receiver_read_byte r = do
  assert (ltb 0 (length r.unread))
  ok (
    record r { scratch_offset = r.scratch_offset + 1; unread = drop 1 r.unread },
    get_or r.unread 0 0,
  )

unfoldable pub pipe_receiver_peek_byte : PipeReceiver → Outcome ℕ
pipe_receiver_peek_byte r = assert (ltb 0 (length r.unread)) >> ok (get_or r.unread 0 0)
