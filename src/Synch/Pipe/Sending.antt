-- ===== src/Synch/Pipe/Sending.antt =====
-- The sending end of a pipe (synch/pipebuf.c): how its bytes are cut into messages.
use mathlib.Core.List.{map, append_assoc}
use hailburst.Prelude.{
  ℕ, zero, suc, ◌+◌, ◌-◌, ◌≤◌, ◌<◌, ◌≡◌, refl, ap, sym, inl, inr, List, [], ◌∷◌, ◌++◌, ltb,
  if◌then◌else◌, length, take, drop, drop_all, drop_nil, take_all, take-drop, length-take,
  length-drop, ok, ◌>>=◌, arith, le→leb, lt→ltb, Bool-cases,
}
use hailburst.Synch.Duct.{Duct, Txn, txn_send}
use hailburst.Synch.Duct.Send.{Outgoing, send_each, AllFit, written, send_message-eq}
use hailburst.Synch.Pipe.Defs.{Pipe, pipe_message_size, pipe_send_message}
use hailburst.Synch.Pipe.Buffer.{send_scratch}

-- The bytes cut into at most `k` messages of `size` bytes, of which the last may be shorter.
unfoldable pub chunks : ℕ → ℕ → List ℕ → List (List ℕ)
chunks size zero bytes = []
chunks size (suc k) [] = []
chunks size (suc k) (b ∷ bs) = take size (b ∷ bs) ∷ chunks size k (drop size (b ∷ bs))

abbrev pub concat : List (List ℕ) → List ℕ
concat [] = []
concat (m ∷ ms) = m ++ concat ms

-- What is left of the bytes behind those messages.
unfoldable pub left_over : ℕ → ℕ → List ℕ → List ℕ
left_over size zero bytes = bytes
left_over size (suc k) bytes = left_over size k (drop size bytes)

-- A transaction of a sender, with room for `k` more messages.
pub record IsSending (d : Duct) (t : Txn) (k : ℕ) : Type 0 where
  pub sending : t.mode ≡ txn_send
  pub replica_in : t.replica_id < d.sender_replicas
  pub flow_in : t.flow_current + k ≤ d.max_flow
  pub little_flow : d.max_flow < 255

abbrev pub stamped : List ℕ → Outgoing
stamped m = (m, 0)

-- What a message is cut to: `size` bytes, or all there are.
abbrev capped : ℕ → List ℕ → ℕ
capped size bytes = if ltb size (length bytes) then size else length bytes

take-capped : (size : ℕ) (bytes : List ℕ) → take (capped size bytes) bytes ≡ take size bytes
take-capped size bytes = elim (Bool-cases (ltb size (length bytes))) [
  | inl e ↦ rw e
  | inr e ↦ rw (e, take_all (length bytes) bytes (omega arith), take_all size bytes (ground arith))
]

drop-capped : (size : ℕ) (bytes : List ℕ) → drop (capped size bytes) bytes ≡ drop size bytes
drop-capped size bytes = elim (Bool-cases (ltb size (length bytes))) [
  | inl e ↦ rw e
  | inr e ↦ rw (e, drop_all (length bytes) bytes (omega arith), drop_all size bytes (ground arith))
]

capped-le : (size : ℕ) (bytes : List ℕ) → length (take (capped size bytes) bytes) ≤ size
capped-le size bytes = rw take-capped (omega (arith, length-take size bytes))

left_over_nil : (size k : ℕ) → left_over size k [] ≡ []
unfolding left_over
left_over_nil size zero = refl
left_over_nil size (suc k) = rw drop_nil (left_over_nil size k)

-- The messages and what is left are the bytes, in their order.
pub chunks-left_over :
    (size k : ℕ) (bytes : List ℕ) → concat (chunks size k bytes) ++ left_over size k bytes ≡ bytes
unfolding chunks left_over
chunks-left_over size zero bytes = refl
chunks-left_over size (suc k) [] = rw drop_nil (left_over_nil size k)
chunks-left_over size (suc k) (b ∷ bs) =
    rw (append_assoc, chunks-left_over size k (drop size (b ∷ bs))) (take-drop size (b ∷ bs))

pub chunks-le : (size k : ℕ) (bytes : List ℕ) → length (chunks size k bytes) ≤ k
unfolding chunks
chunks-le size zero bytes = omega arith
chunks-le size (suc k) [] = omega arith
chunks-le size (suc k) (b ∷ bs) = omega (arith, chunks-le size k (drop size (b ∷ bs)))

pub chunks-AllFit :
    (size k : ℕ) (bytes : List ℕ) → 1 ≤ size → AllFit size (map stamped (chunks size k bytes))
unfolding chunks
chunks-AllFit size zero bytes h = tt
chunks-AllFit size (suc k) [] h = tt
chunks-AllFit size (suc k) (b ∷ bs) h = (
  omega (arith, length-take size (b ∷ bs)),
  omega (arith, length-take size (b ∷ bs)),
  chunks-AllFit size k (drop size (b ∷ bs)) h,
)

-- A message goes to the next slot, and uses up one of the messages that are allowed.
abbrev after_message : Duct → Txn → List ℕ → Duct
after_message d t message = record d {
  message_buffer =
      written d.max_flow t.replica_id t.flow_current ((message, 0) ∷ []) d.message_buffer;
}

pipe_send_message-eq :
    (pipe : Pipe) (k : ℕ) (t : Txn) (message : List ℕ)
    → IsSending pipe.dataflow t (suc k)
    → 1 ≤ length message
    → length message ≤ pipe_message_size pipe
    → pipe_send_message pipe (record { available = suc k; data_txn = t }) message 0
      ≡ ok (
        record pipe { dataflow = after_message pipe.dataflow t message },
        record { available = k; data_txn = record t { flow_current = t.flow_current + 1 } },
      )
unfolding pipe_send_message
pipe_send_message-eq pipe k t message u pos fit =
    rw
      (
        le→leb _ _ pos,
        send_message-eq pipe.dataflow t message 0 u.sending u.replica_in (omega (arith, u.flow_in))
            (omega (arith, u.little_flow)) pos fit,
      )
      (ground arith)

-- The loop sends the messages one after another.
pub send_scratch-eq :
    (fuel k : ℕ) (pipe : Pipe) (t : Txn) (bytes : List ℕ)
    → IsSending pipe.dataflow t k
    → 1 ≤ pipe_message_size pipe
    → length bytes < fuel
    → send_scratch fuel pipe (record { available = k; data_txn = t }) bytes ≡ (
        send_each pipe.dataflow t (map stamped (chunks (pipe_message_size pipe) k bytes))
        >>= λ (s : Duct × Txn). ok (
          record pipe { dataflow = s.0 },
          record {
            available = k - length (chunks (pipe_message_size pipe) k bytes);
            data_txn = s.1;
          },
          left_over (pipe_message_size pipe) k bytes,
        ))
unfolding send_scratch send_each chunks left_over
send_scratch-eq zero k pipe t bytes u pos h = absurd (omega arith)
send_scratch-eq (suc fuel) zero pipe t [] u pos h = refl
send_scratch-eq (suc fuel) zero pipe t (b ∷ bs) u pos h = ground arith
send_scratch-eq (suc fuel) (suc k) pipe t [] u pos h =
    let none_sent : suc k - 0 ≡ suc k = omega arith in
    rw none_sent (
      ap (λ rest. ok (pipe, record { available = suc k; data_txn = t }, rest))
        (sym (left_over_nil (pipe_message_size pipe) (suc k))))
send_scratch-eq (suc fuel) (suc k) pipe t (b ∷ bs) u pos h =
    let message = take (pipe_message_size pipe) (b ∷ bs) in
    let first : 1 ≤ length message = omega (arith, length-take (pipe_message_size pipe) (b ∷ bs)) in
    let fit : length message ≤ pipe_message_size pipe =
      omega (arith, length-take (pipe_message_size pipe) (b ∷ bs)) in
    let rest = drop (pipe_message_size pipe) (b ∷ bs) in
    let minus : suc k - suc (length (chunks (pipe_message_size pipe) k rest))
        ≡ k - length (chunks (pipe_message_size pipe) k rest) =
      omega arith in
    rw
      (
        lt→ltb 0 (suc (length bs)) (omega arith),
        lt→ltb 0 (suc k) (omega arith),
        minus,
        take-capped (pipe_message_size pipe) (b ∷ bs),
        drop-capped (pipe_message_size pipe) (b ∷ bs),
        pipe_send_message-eq pipe k t message u first fit,
        send_message-eq pipe.dataflow t message 0 u.sending u.replica_in (omega (arith, u.flow_in))
            (omega (arith, u.little_flow)) first fit,
      )
      (send_scratch-eq fuel k (record pipe { dataflow = after_message pipe.dataflow t message })
        (record t { flow_current = t.flow_current + 1 }) rest
        (record {
          sending = u.sending;
          replica_in = u.replica_in;
          flow_in = omega (arith, u.flow_in);
          little_flow = u.little_flow;
        })
        pos (omega (arith, length-drop (pipe_message_size pipe) (b ∷ bs))))
