-- ===== src/Flight/Command/Reply.antt =====
-- A command at its endpoint: what the client is given, and the replies of flight/pingback.c.
use hailburst.Prelude.{
  ℕ, ◌-◌, ◌≤◌, ◌<◌, ◌≡◌, refl, ap, ◌∙◌, Bool, true, false, [], ◌∷◌, ◌++◌, Option, some, length,
  drop, update, take-append_length, ltb, le→ltb, ◌==◌, ==_refl, ok, ◌>>=◌, arith,
}
use hailburst.Synch.Duct.{Packet, majority_threshold}
use hailburst.Synch.Duct.Offer.{IsValid}
use hailburst.Synch.Duct.Send.{sent}
use hailburst.Synch.Duct.Receive.{Offers, count_good}
use hailburst.Synch.Duct.Session.{
  singleton, consumed, receive_prepare-single, receive_message-single, receive_commit-single,
}
use hailburst.Flight.Comm.{CommPacket}
use hailburst.Flight.Telemetry.{TlmTxn}
use hailburst.Flight.Command.Defs.{
  CmdEndpoint, CmdStatus, EndpointState, duct_msg, sizeof_msg, sizeof_time, accept_message,
  command_receive, command_reply, reply_message,
}

-- What the client's replica keeps of a command.
abbrev pub kept : EndpointState → CommPacket → EndpointState
kept m packet = record {
  has_outstanding_reply = true;
  last_received = duct_msg packet ++ drop (length (duct_msg packet)) m.last_received;
  last_data_length = length packet.data_bytes;
}

accept_message-command :
    (m : EndpointState) (packet : CommPacket)
    → accept_message m (some (sent (duct_msg packet, 0))) ≡ (kept m packet, some packet.data_bytes)
accept_message-command m packet =
    let whole : ltb (length (duct_msg packet)) sizeof_time ≡ false = le→ltb _ _ (omega arith) in
    let data_length : length (duct_msg packet) - sizeof_time ≡ length packet.data_bytes =
      omega arith in
    rw
      (
        whole,
        data_length,
        take-append_length packet.data_bytes (drop (length (duct_msg packet)) m.last_received),
      )
      refl

pub update_here : (f : ℕ → EndpointState) (r : ℕ) (m : EndpointState) → update f r m r ≡ m
update_here f r m = rw (==_refl r) refl

-- An endpoint whose client has replied.
abbrev pub answered : CmdEndpoint → ℕ → EndpointState → CmdEndpoint
answered e r m = record e {
  mut_replicas = update e.mut_replicas r (record m { has_outstanding_reply = false });
}

pub command_reply-eq :
    (epoch : ℕ) (e : CmdEndpoint) (r : ℕ) (m : EndpointState) (telem : TlmTxn)
    → e.mut_replicas r ≡ m
    → m.has_outstanding_reply ≡ true
    → (code : CmdStatus)
    → command_reply epoch e r telem code
      ≡ (reply_message epoch telem e m code >>= λ t. ok (answered e r m, t))
unfolding command_reply
command_reply-eq epoch e r m telem mine open_reply code = rw (mine, open_reply) refl

-- The endpoint behind a transaction in which `o` was received, and one in which a command was.
abbrev pub given : (ℕ → ℕ) → CmdEndpoint → ℕ → Option Packet → CmdEndpoint
given now ce r o = record ce {
  duct = consumed now ce.duct r;
  mut_replicas = update ce.mut_replicas r (accept_message (ce.mut_replicas r) o).0;
}

abbrev pub holding : (ℕ → ℕ) → CmdEndpoint → ℕ → CommPacket → CmdEndpoint
holding now ce r packet = record ce {
  duct = consumed now ce.duct r;
  mut_replicas = update ce.mut_replicas r (kept (ce.mut_replicas r) packet);
}

module _ (now : ℕ → ℕ) (ce : CmdEndpoint) (v : IsValid ce.duct)
    (sized : ce.duct.message_size ≡ sizeof_msg) (replica_id : ℕ)
    (own : replica_id < ce.duct.receiver_replicas) (good : ℕ → Bool)
    (quorum : majority_threshold ce.duct ≤ count_good good ce.duct.sender_replicas 0) where
  pub command_receive-eq :
      (o : Option Packet)
      → Offers ce.duct replica_id good (singleton o)
      → command_receive now ce replica_id
        ≡ ok (given now ce replica_id o, (accept_message (ce.mut_replicas replica_id) o).1)
  unfolding command_receive
  command_receive-eq o all =
      let right_size : (ce.duct.message_size == sizeof_msg) ≡ true = rw sized refl in
      rw
        (
          receive_prepare-single now ce.duct v replica_id own good o quorum all,
          right_size,
          receive_message-single now ce.duct v replica_id own good o quorum all,
          receive_commit-single now ce.duct v replica_id own good o quorum all,
        )
        refl

  pub command_receive-command :
      (packet : CommPacket)
      → Offers ce.duct replica_id good (sent (duct_msg packet, 0) ∷ [])
      → command_receive now ce replica_id
        ≡ ok (holding now ce replica_id packet, some packet.data_bytes)
  command_receive-command packet all =
      command_receive-eq (some (sent (duct_msg packet, 0))) all
      ∙ ap
          (λ a. ok (
            record ce {
              duct = consumed now ce.duct replica_id;
              mut_replicas = update ce.mut_replicas replica_id a.0;
            },
            a.1,
          ))
          (accept_message-command (ce.mut_replicas replica_id) packet)
