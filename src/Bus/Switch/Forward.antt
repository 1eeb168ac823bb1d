-- ===== src/Bus/Switch/Forward.antt =====
-- Where the switch sends a packet (bus/switch.c).
use Prim.Native.Nat.{bit_and}
use native.Mathlib.Decide.{dec_lt, ℕ_discrete}
use mathlib.Core.Path.{subst}
use hailburst.Prelude.{
  ℕ, ◌-◌, ◌≤◌, ◌<◌, ◌≡◌, refl, inl, inr, true, false, not, ◌&&◌, Bool-cases, List, Option, none,
  some, ltb, leb, ◌==◌, if◌then◌else◌, length, get_or, drop, le→leb, ltb-true, lt→leb, lt→ltb,
  le→ltb, Outcome, ok, ◌>>=◌, arith,
}
use hailburst.Synch.Duct.{Duct, Txn}
use hailburst.Bus.Switch.Defs.{
  Switch, switch_port_base, switch_route_port_mask, switch_route_flag_enabled,
  switch_route_flag_pop, flag, popped, route_of, set_outbound, forward_to, switch_packet,
}
use hailburst.Bus.Switch.Sending.{fits, delivered_out, forward-eq, lt→neq', and_left}
pub use hailburst.Bus.Switch.Sending.{IsOpen, IsSwitch, message_sent}

-- The index of the port that a packet is for, and the bytes that go there.
abbrev pub routed_at : Switch → ℕ → List ℕ → Option (ℕ × List ℕ)
routed_at sw address message =
    let route = sw.routing_table (address - 32) in
    if address == 0
    then none
    else if ltb address 32
    then some (address - 1, drop 1 message)
    else if flag route switch_route_flag_enabled
    then some (
      bit_and route switch_route_port_mask - 1,
      popped (flag route switch_route_flag_pop) message,
    )
    else none

abbrev pub routed : Switch → List ℕ → Option (ℕ × List ℕ)
routed sw message = routed_at sw (get_or message 0 0) message

abbrev pub delivered_to : Switch → ℕ → Option (ℕ × List ℕ) → Switch
delivered_to sw timestamp none = sw
delivered_to sw timestamp (some (index, message)) =
    delivered_out sw index message timestamp (sw.ports index).outbound

module _ (sw : Switch) (v : IsSwitch sw) (timestamp : ℕ) where
  -- An address without a route, and one with a route.
  module _ (message : List ℕ) (some_message : (length message == 0) ≡ false) where
    abbrev handled : ℕ → Outcome Switch
    handled a =
        if ltb a switch_port_base
        then ok sw
        else (route_of sw a >>= λ r. forward_to sw message timestamp r)

    handled-none : handled 0 ≡ ok (delivered_to sw timestamp (routed_at sw 0 message))
    handled-none = refl

    handled-direct :
        (a : ℕ)
        → 1 ≤ a
        → a < 32
        → handled a ≡ ok (delivered_to sw timestamp (routed_at sw a message))
    unfolding route_of
    handled-direct a low high =
        rw (le→ltb a 1 low, lt→leb 32 a high, lt→neq' a low, lt→ltb a 32 high, le→leb 1 a low)
          (forward-eq sw v timestamp (a - 1) true message (sw.ports (a - 1)).outbound refl
            some_message)

    handled-route :
        (a : ℕ)
        → 32 ≤ a
        → a < 256
        → flag (sw.routing_table (a - 32)) switch_route_flag_enabled ≡ true
        → handled a ≡ ok (delivered_to sw timestamp (routed_at sw a message))
    unfolding route_of
    handled-route a low high on =
        let route = sw.routing_table (a - 32) in
        let outport = bit_and route switch_route_port_mask in
        let valid = v.routes_valid (a - 32) (omega arith) on in
        rw
          (
            le→ltb a 1 (omega arith),
            le→leb 32 a low,
            lt→ltb (a - 32) 224 (omega arith),
            lt→neq' a (omega arith),
            le→ltb a 32 low,
            on,
            valid,
            valid,
          )
          (forward-eq sw v timestamp (outport - 1) (flag route switch_route_flag_pop) message
            (sw.ports (outport - 1)).outbound refl some_message)

    handled-no_route :
        (a : ℕ)
        → 32 ≤ a
        → a < 256
        → flag (sw.routing_table (a - 32)) switch_route_flag_enabled ≡ false
        → handled a ≡ ok (delivered_to sw timestamp (routed_at sw a message))
    unfolding route_of
    handled-no_route a low high off =
        rw
          (
            le→ltb a 1 (omega arith),
            le→leb 32 a low,
            lt→ltb (a - 32) 224 (omega arith),
            lt→neq' a (omega arith),
            le→ltb a 32 low,
            off,
          )
          refl

    handled-eq :
        (a : ℕ) → a < 256 → handled a ≡ ok (delivered_to sw timestamp (routed_at sw a message))
    handled-eq a h = elim (ℕ_discrete a 0) [
      | yes e ↦ rw e handled-none
      | no some_address ↦ elim (dec_lt a 32) [
        | yes low ↦ handled-direct a (omega arith) low
        | no high ↦ elim (Bool-cases (flag (sw.routing_table (a - 32)) switch_route_flag_enabled)) [
          | inl on ↦ handled-route a (omega arith) h on
          | inr off ↦ handled-no_route a (omega arith) h off
        ]
      ]
    ]

-- Sending a message keeps the transactions open.
set_outbound-IsSwitch :
    (sw : Switch) (index : ℕ) (d : Duct) (t : Txn)
    → IsSwitch sw
    → IsOpen d t
    → IsSwitch (set_outbound sw index d t)
set_outbound-IsSwitch sw index d t v u = record {
  outbound_open = λ i d' e. elim (Bool-cases (i == index)) [
    | inl same ↦
        let f : some d ≡ some d' = (rw same at e) in
        let g : d ≡ d' = cc in rw same (subst (λ x. IsOpen x t) g u)
    | inr other ↦
        let f : (sw.ports i).outbound ≡ some d' = (rw other at e) in
        rw other (v.outbound_open i d' f)
  ];
  routes_valid = v.routes_valid;
}

delivered_out-IsSwitch :
    (sw : Switch) (v : IsSwitch sw) (index : ℕ) (message : List ℕ) (timestamp : ℕ) (o : Option Duct)
    → (sw.ports index).outbound ≡ o
    → IsSwitch (delivered_out sw index message timestamp o)
delivered_out-IsSwitch sw v index message timestamp none e = v
delivered_out-IsSwitch sw v index message timestamp (some d) e =
    let u = v.outbound_open index d e in
    elim (Bool-cases (fits d (sw.ports index).outbound_txn message)) [
      | inr no_room ↦ rw no_room v
      | inl room ↦
          let more = ltb-true (sw.ports index).outbound_txn.flow_current d.max_flow (
            and_left (ltb (sw.ports index).outbound_txn.flow_current d.max_flow)
              (not (length message == 0))
              (and_left
                (ltb (sw.ports index).outbound_txn.flow_current d.max_flow
                  && not (length message == 0))
                (leb (length message) d.message_size) room)) in
          rw room (
            set_outbound-IsSwitch sw index
              (message_sent d (sw.ports index).outbound_txn message timestamp) _ v
              (record {
                sending = u.sending;
                replica_in = u.replica_in;
                flow_in = omega arith;
                little_flow = u.little_flow;
              }))
    ]

delivered_to-IsSwitch :
    (sw : Switch) (v : IsSwitch sw) (timestamp : ℕ) (o : Option (ℕ × List ℕ))
    → IsSwitch (delivered_to sw timestamp o)
delivered_to-IsSwitch sw v timestamp none = v
delivered_to-IsSwitch sw v timestamp (some (index, message)) =
    delivered_out-IsSwitch sw v index message timestamp (sw.ports index).outbound refl

-- On a switch whose outbound transactions are open and whose enabled routes lead to ports, a packet of
-- at least one byte is handled without an abort, and exactly as its address says: to the port of that
-- number without the address, for an address below 32; to the port of an enabled route, without the
-- address only if the route says so, for any other; to no port for the address 0 or a route that is not
-- enabled. That port sends the bytes if it has a duct that takes another message, and if they are
-- neither none nor more than a message of it; the packet is dropped if not, and the switch unchanged.
-- The transactions stay open.
pub switch_packet_lem :
    (sw : Switch) (v : IsSwitch sw) (message : List ℕ) (timestamp : ℕ)
    → 1 ≤ length message
    → get_or message 0 0 < 256
    → (switch_packet sw message timestamp ≡ ok (delivered_to sw timestamp (routed sw message)))
      × IsSwitch (delivered_to sw timestamp (routed sw message))
unfolding switch_packet
switch_packet_lem sw v message timestamp some_message h = (
  handled-eq sw v timestamp message (lt→neq' (length message) some_message) (get_or message 0 0) h,
  delivered_to-IsSwitch sw v timestamp (routed sw message),
)
