-- ===== src/Bus/Switch/Defs.antt =====
-- The data and the operations of bus/switch.c.
use Prim.Native.Nat.{bit_and}
use hailburst.Prelude.{
  ℕ, zero, suc, ◌+◌, ◌-◌, Bool, true, false, not, ◌&&◌, List, Option, none, some, ltb, leb, ◌==◌,
  if◌then◌else◌, length, get_or, drop, update, Outcome, ok, aborted, ◌>>=◌, ◌>>◌, assert,
}
use hailburst.Synch.Duct.{
  Duct, Txn, receive_prepare, receive_message, receive_commit, send_prepare, send_allowed,
  send_message, send_commit,
}

abbrev pub switch_port_base : ℕ
switch_port_base = 1

abbrev pub switch_ports : ℕ
switch_ports = 31

abbrev pub switch_route_base : ℕ
switch_route_base = 32

abbrev pub switch_routes : ℕ
switch_routes = 256 - 32

abbrev pub switch_route_port_mask : ℕ
switch_route_port_mask = 0x1F

abbrev pub switch_route_flag_enabled : ℕ
switch_route_flag_enabled = 0x40

abbrev pub switch_route_flag_pop : ℕ
switch_route_flag_pop = 0x80

-- `switch_port_t`
pub record SwitchPort : Type 0 where
  pub inbound : Option Duct
  pub inbound_txn : Txn
  pub outbound : Option Duct
  pub outbound_txn : Txn

-- `switch_t`
pub record Switch : Type 0 where
  pub ports : ℕ → SwitchPort
  pub scratch_buffer_size : ℕ
  pub routing_table : ℕ → ℕ

-- Whether a bit of a route is set.
abbrev pub flag : ℕ → ℕ → Bool
flag route bit = not (bit_and route bit == 0)

abbrev pub is_port : ℕ → Bool
is_port outport = leb switch_port_base outport && ltb outport (switch_port_base + switch_ports)

-- The port that an address leads to, and whether the address is dropped; `none` for a route that does
-- not exist.
unfoldable pub route_of : Switch → ℕ → Outcome (Option (ℕ × Bool))
route_of sw destination =
    let route = sw.routing_table (destination - switch_route_base) in
    let outport = bit_and route switch_route_port_mask in
    let routed =
      (assert (ltb (destination - switch_route_base) switch_routes)
        >> (if not (flag route switch_route_flag_enabled)
            then ok none
            else (assert (is_port outport)
                >> ok (some (outport, flag route switch_route_flag_pop))))) in
    if leb switch_route_base destination then routed else ok (some (destination, true))

abbrev pub set_outbound : Switch → ℕ → Duct → Txn → Switch
set_outbound sw index d t = record sw {
  ports = update sw.ports index (record (sw.ports index) { outbound = some d; outbound_txn = t });
}

abbrev pub popped : Bool → List ℕ → List ℕ
popped true message = drop 1 message
popped false message = message

-- What is left of `switch_packet` once it knows what to send.
abbrev pub send_out : Switch → ℕ → Duct → List ℕ → ℕ → Outcome Switch
send_out sw index d message timestamp =
    let sent =
      (send_message d (sw.ports index).outbound_txn message timestamp >>= λ x.
      ok (set_outbound sw index x.0 x.1)) in
    assert (ltb 0 (length message)) >> (if ltb d.message_size (length message) then ok sw else sent)

abbrev pub forward : Switch → ℕ → Bool → List ℕ → ℕ → Option Duct → Outcome Switch
forward sw index address_pop message timestamp none = ok sw
forward sw index address_pop message timestamp (some d) =
    let rest = popped address_pop message in
    let sent = send_out sw index d rest timestamp in
    send_allowed d (sw.ports index).outbound_txn >>= λ allowed.
    if not allowed then ok sw else if address_pop && (length rest == 0) then ok sw else sent

abbrev pub forward_to : Switch → List ℕ → ℕ → Option (ℕ × Bool) → Outcome Switch
forward_to sw message timestamp none = ok sw
forward_to sw message timestamp (some (outport, address_pop)) = do
  assert (is_port outport)
  let index = outport - switch_port_base
  forward sw index address_pop message timestamp (sw.ports index).outbound

-- A packet that is dropped leaves the switch as it is.
unfoldable pub switch_packet : Switch → List ℕ → ℕ → Outcome Switch
switch_packet sw message timestamp =
    let destination = get_or message 0 0 in
    let handled = (route_of sw destination >>= λ route. forward_to sw message timestamp route) in
    if ltb destination switch_port_base then ok sw else handled

abbrev pub prepare_inbound : (ℕ → ℕ) → ℕ → SwitchPort → Option Duct → Outcome SwitchPort
prepare_inbound now replica_id port none = ok port
prepare_inbound now replica_id port (some d) = receive_prepare now d replica_id >>= λ (d', t).
    ok (record port { inbound = some d'; inbound_txn = t })

abbrev pub prepare_outbound : (ℕ → ℕ) → ℕ → SwitchPort → Option Duct → Outcome SwitchPort
prepare_outbound now replica_id port none = ok port
prepare_outbound now replica_id port (some d) = send_prepare now d replica_id >>= λ (d', t).
    ok (record port { outbound = some d'; outbound_txn = t })

abbrev pub prepare_port : (ℕ → ℕ) → (ℕ → ℕ) → ℕ → SwitchPort → Outcome SwitchPort
prepare_port now_in now_out replica_id port = do
  port' ← prepare_inbound now_in replica_id port port.inbound
  prepare_outbound now_out replica_id port' port'.outbound

abbrev pub commit_inbound : SwitchPort → Option Duct → Outcome SwitchPort
commit_inbound port none = ok port
commit_inbound port (some d) = receive_commit d port.inbound_txn >>= λ (d', t).
    ok (record port { inbound = some d'; inbound_txn = t })

abbrev pub commit_outbound : SwitchPort → Option Duct → Outcome SwitchPort
commit_outbound port none = ok port
commit_outbound port (some d) = send_commit d port.outbound_txn >>= λ (d', t).
    ok (record port { outbound = some d'; outbound_txn = t })

abbrev pub commit_port : SwitchPort → Outcome SwitchPort
commit_port port = do port' ← commit_inbound port port.inbound; commit_outbound port' port'.outbound

-- A loop over the ports from index `i` on, of which each round changes its own port.
unfoldable pub each_port :
    (ℕ → SwitchPort → Outcome SwitchPort) → ℕ → ℕ → (ℕ → SwitchPort) → Outcome (ℕ → SwitchPort)
each_port act zero i ports = ok ports
each_port act (suc n) i ports =
    act i (ports i) >>= λ port. each_port act n (i + 1) (update ports i port)

-- The loop that empties the inbound duct of one port.
unfoldable pub shuffle_port : ℕ → ℕ → Duct → Switch → Outcome Switch
shuffle_port zero index d sw = aborted
shuffle_port (suc fuel) index d sw =
    receive_message d (sw.ports index).inbound_txn >>= λ (t, found).
    let sw' : Switch = record sw {
      ports = update sw.ports index (record (sw.ports index) { inbound_txn = t });
    } in
    elim found [
      | none ↦ ok sw'
      | some p ↦
          assert (leb p.size sw.scratch_buffer_size)
          >> switch_packet sw' p.bytes p.timestamp
          >>= λ sw''. shuffle_port fuel index d sw''
    ]

abbrev pub shuffle_inbound : ℕ → Switch → Option Duct → Outcome Switch
shuffle_inbound index sw none = ok sw
shuffle_inbound index sw (some d) = shuffle_port (d.max_flow + 1) index d sw

-- The loop over the ports that shuffles all messages.
unfoldable pub shuffle : ℕ → ℕ → Switch → Outcome Switch
shuffle zero i sw = ok sw
shuffle (suc n) i sw = shuffle_inbound i sw (sw.ports i).inbound >>= λ sw'. shuffle n (i + 1) sw'

-- `now_in` and `now_out` are the clocks at the checks of each port's ducts.
unfoldable pub switch_io_clip : (ℕ → ℕ → ℕ) → (ℕ → ℕ → ℕ) → ℕ → Switch → Outcome Switch
switch_io_clip now_in now_out replica_id sw = do
  prepared ←
      each_port (λ i port. prepare_port (now_in i) (now_out i) replica_id port) switch_ports 0
        sw.ports
  shuffled ← shuffle switch_ports 0 (record sw { ports = prepared })
  committed ← each_port (λ i port. commit_port port) switch_ports 0 shuffled.ports
  ok (record shuffled { ports = committed })
