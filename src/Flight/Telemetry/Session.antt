-- ===== src/Flight/Telemetry/Session.antt =====
-- A sender's transaction of asynchronous telemetry (flight/telemetry.c), step by step.
use hailburst.Prelude.{ℕ, ◌≤◌, ◌<◌, ◌≡◌, refl, List, [], ◌∷◌, ◌++◌, length, le32, le→leb, ok, arith}
use hailburst.Synch.Duct.{Duct}
use hailburst.Synch.Duct.Offer.{IsValid}
use hailburst.Synch.Duct.Send.{Outgoing, after_send}
use hailburst.Synch.Duct.Session.{
  opened, sending, send_prepare-opened, send_message-opened, send_commit-opened,
}
use hailburst.Flight.Telemetry.Submit.{
  TlmTxn, async, async_txn, max_async_size, submit, telemetry_prepare, telemetry_commit,
  telemetry_small_submit,
}

-- The transaction of a sender that has submitted these messages.
abbrev pub carrying : (ℕ → ℕ) → Duct → ℕ → List Outgoing → TlmTxn
carrying now d sender_id messages =
    async_txn (opened now d sender_id messages) (sending sender_id (length messages))

abbrev pub small : ℕ → ℕ → List ℕ → Outgoing
small epoch telemetry_id data_bytes = (le32 telemetry_id ++ data_bytes, epoch)

abbrev pub sizeof_async : ℕ
sizeof_async = 20

module _ (now : ℕ → ℕ) (d : Duct) (v : IsValid d) (sized : d.message_size ≡ sizeof_async)
    (sender_id : ℕ) (own : sender_id < d.sender_replicas) where
  pub telemetry_prepare-carrying :
      telemetry_prepare now (async d) sender_id ≡ ok (carrying now d sender_id [])
  unfolding telemetry_prepare
  telemetry_prepare-carrying = rw (send_prepare-opened now d v sender_id own) refl

  pub telemetry_small_submit-carrying :
      (epoch : ℕ) (messages : List Outgoing) (telemetry_id : ℕ) (data_bytes : List ℕ)
      → length messages < d.max_flow
      → length data_bytes ≤ max_async_size
      → telemetry_small_submit epoch (carrying now d sender_id messages) telemetry_id data_bytes
        ≡ ok (carrying now d sender_id (messages ++ small epoch telemetry_id data_bytes ∷ []))
  unfolding telemetry_small_submit submit
  telemetry_small_submit-carrying epoch messages telemetry_id data_bytes room short =
      rw
        (
          le→leb _ _ short,
          send_message-opened now d v sender_id own messages (le32 telemetry_id ++ data_bytes) epoch
              room (omega arith) (omega arith),
        )
        refl

  pub telemetry_commit-carrying :
      (messages : List Outgoing)
      → length messages ≤ d.max_flow
      → telemetry_commit (carrying now d sender_id messages)
        ≡ ok (async (after_send now d sender_id messages))
  unfolding telemetry_commit
  telemetry_commit-carrying messages few =
      rw (send_commit-opened now d v sender_id own messages few) refl
