-- ===== src/Bus/Switch/Sending.antt =====
-- What the switch does with a packet at the port it goes to (bus/switch.c).
use Prim.Native.Nat.{bit_and}
use hailburst.Prelude.{
  ℕ, ◌+◌, ◌≤◌, ◌<◌, ◌≡◌, refl, ◌∙◌, inl, inr, Bool, true, false, not, ◌&&◌, Bool-cases, List, [],
  ◌∷◌, Option, none, some, ltb, leb, ◌==◌, if◌then◌else◌, length, drop, le→leb, ltb-true, leb-true,
  leb-false, lt→ltb, le→ltb, Outcome, ok, arith,
}
use hailburst.Synch.Duct.{Duct, Txn, txn_send, send_allowed}
use hailburst.Synch.Duct.Send.{written, send_message-eq}
use hailburst.Bus.Switch.Defs.{
  Switch, switch_routes, switch_route_port_mask, switch_route_flag_enabled, flag, is_port, popped,
  set_outbound, send_out, forward,
}

-- The next slot of a sender holds a message.
abbrev pub message_sent : Duct → Txn → List ℕ → ℕ → Duct
message_sent d t message timestamp = record d {
  message_buffer =
      written d.max_flow t.replica_id t.flow_current ((message, timestamp) ∷ []) d.message_buffer;
}

abbrev pub fits : Duct → Txn → List ℕ → Bool
fits d t message =
    ltb t.flow_current d.max_flow
    && not (length message == 0)
    && leb (length message) d.message_size

-- The switch with the message sent out of a port, where there is one that takes it.
abbrev pub delivered_out : Switch → ℕ → List ℕ → ℕ → Option Duct → Switch
delivered_out sw index message timestamp none = sw
delivered_out sw index message timestamp (some d) =
    let t = (sw.ports index).outbound_txn in
    if fits d t message
    then set_outbound sw index (message_sent d t message timestamp)
        (record t { flow_current = t.flow_current + 1 })
    else sw

-- An open transaction of a sender.
pub record IsOpen (d : Duct) (t : Txn) : Type 0 where
  pub sending : t.mode ≡ txn_send
  pub replica_in : t.replica_id < d.sender_replicas
  pub flow_in : t.flow_current ≤ d.max_flow
  pub little_flow : d.max_flow < 255

-- The outbound transactions are open, and the enabled routes lead to ports.
pub record IsSwitch (sw : Switch) : Type 0 where
  pub outbound_open :
      (i : ℕ) (d : Duct) → (sw.ports i).outbound ≡ some d → IsOpen d (sw.ports i).outbound_txn
  pub routes_valid :
      (k : ℕ)
      → k < switch_routes
      → flag (sw.routing_table k) switch_route_flag_enabled ≡ true
      → is_port (bit_and (sw.routing_table k) switch_route_port_mask) ≡ true

send_allowed-eq :
    (d : Duct) (t : Txn) → IsOpen d t → send_allowed d t ≡ ok (ltb t.flow_current d.max_flow)
unfolding send_allowed
send_allowed-eq d t u = rw (u.sending, lt→ltb _ _ u.replica_in, le→leb _ _ u.flow_in) refl

pub lt→neq' : (n : ℕ) → 1 ≤ n → (n == 0) ≡ false
lt→neq' n h = ground arith

pub and_left : (a b : Bool) → (a && b) ≡ true → a ≡ true
and_left true b h = refl
and_left false b h = cc

-- Both ways to write the test for an empty message.
pub no_bytes : (n : ℕ) → (n == 0) ≡ false → 1 ≤ n
no_bytes n e = ground arith

module _ (sw : Switch) (v : IsSwitch sw) (timestamp : ℕ) where
  module _ (index : ℕ) (d : Duct) (u : IsOpen d (sw.ports index).outbound_txn) (rest : List ℕ) where
    abbrev t : Txn
    t = (sw.ports index).outbound_txn

    abbrev outcome : Switch
    outcome = delivered_out sw index rest timestamp (some d)

    sent-eq :
        t.flow_current < d.max_flow
        → 1 ≤ length rest
        → length rest ≤ d.message_size
        → send_out sw index d rest timestamp
          ≡ ok (
              set_outbound sw index
                (message_sent d t rest timestamp)
                (record t { flow_current = t.flow_current + 1 }))
    sent-eq more some_bytes small =
        rw
          (
            lt→ltb 0 (length rest) some_bytes,
            le→ltb d.message_size (length rest) small,
            send_message-eq d t rest timestamp u.sending u.replica_in more u.little_flow some_bytes
                small,
          )
          refl

    dropped-eq :
        1 ≤ length rest → d.message_size < length rest → send_out sw index d rest timestamp ≡ ok sw
    dropped-eq some_bytes large =
        rw (lt→ltb 0 (length rest) some_bytes, lt→ltb d.message_size (length rest) large) refl

    send_out-eq :
        ltb t.flow_current d.max_flow ≡ true
        → (length rest == 0) ≡ false
        → send_out sw index d rest timestamp ≡ ok outcome
    send_out-eq more some_bytes = elim (Bool-cases (leb (length rest) d.message_size)) [
      | inl e ↦
          rw (more, some_bytes, e)
            (sent-eq (ltb-true _ _ more) (no_bytes (length rest) some_bytes) (leb-true _ _ e))
      | inr e ↦
          rw (more, some_bytes, e)
            (dropped-eq (no_bytes (length rest) some_bytes) (leb-false _ _ e))
    ]

    abbrev guarded : Bool → Outcome Switch
    guarded address_pop =
        if not (ltb t.flow_current d.max_flow)
        then ok sw
        else if address_pop && (length rest == 0)
        then ok sw
        else send_out sw index d rest timestamp

    nothing-eq :
        ltb t.flow_current d.max_flow ≡ true → (length rest == 0) ≡ true → ok sw ≡ ok outcome
    nothing-eq more none_left = rw (more, none_left) refl

    settled :
        (address_pop : Bool)
        → (address_pop ≡ false → (length rest == 0) ≡ false)
        → guarded address_pop ≡ ok outcome
    settled address_pop h = elim (Bool-cases (ltb t.flow_current d.max_flow)) [
      | inr e ↦ rw e refl
      | inl e ↦ elim (Bool-cases (length rest == 0)) [
        | inr some_bytes ↦ checked address_pop e some_bytes ∙ send_out-eq e some_bytes
        | inl none_left ↦ emptied address_pop h e none_left ∙ nothing-eq e none_left
      ]
    ]
      where
        checked :
            (b : Bool)
            → ltb t.flow_current d.max_flow ≡ true
            → (length rest == 0) ≡ false
            → guarded b ≡ send_out sw index d rest timestamp
        checked true e f = rw (e, f) refl
        checked false e f = rw e refl

        emptied :
            (b : Bool)
            → (b ≡ false → (length rest == 0) ≡ false)
            → ltb t.flow_current d.max_flow ≡ true
            → (length rest == 0) ≡ true
            → guarded b ≡ ok sw
        emptied true k e f = rw (e, f) refl
        emptied false k e f = let g = k refl in cc

  pub forward-eq :
      (index : ℕ) (address_pop : Bool) (message : List ℕ) (o : Option Duct)
      → (sw.ports index).outbound ≡ o
      → (length message == 0) ≡ false
      → forward sw index address_pop message timestamp o
        ≡ ok (delivered_out sw index (popped address_pop message) timestamp o)
  forward-eq index address_pop message none e h = refl
  forward-eq index true message (some d) e h =
      let u = v.outbound_open index d e in
      rw (send_allowed-eq d (sw.ports index).outbound_txn u)
        (settled index d u (drop 1 message) true (λ f. cc))
  forward-eq index false message (some d) e h =
      let u = v.outbound_open index d e in
      rw (send_allowed-eq d (sw.ports index).outbound_txn u)
        (settled index d u message false (λ _. h))
