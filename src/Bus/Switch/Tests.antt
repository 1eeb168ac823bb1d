-- ===== src/Bus/Switch/Tests.antt =====
-- A small switch on which the theorem about packets is applied.
use hailburst.Prelude.{
  ◌≡◌, refl, true, false, Bool-cases, inl, inr, [], ◌∷◌, none, some, ◌==◌, if◌then◌else◌, ok, arith,
}
use hailburst.Synch.Flag.{initial_flag}
use hailburst.Synch.Duct.{Duct, Txn, txn_send, missing_flow}
use hailburst.Bus.Switch.Defs.{Switch, set_outbound, switch_packet}
use hailburst.Bus.Switch.Forward.{IsSwitch, message_sent, switch_packet_lem}

abbrev out_duct : Duct
out_duct = record {
  sender_replicas = 1;
  receiver_replicas = 1;
  max_flow = 2;
  message_size = 4;
  message_buffer = λ _. record { size = 1; timestamp = 0; body = 0 ∷ 0 ∷ 0 ∷ 0 ∷ [] };
  flow_status = λ _. missing_flow;
  flags_receive = λ _. initial_flag;
  flags_send = λ _. initial_flag;
}

abbrev out_txn : Txn
out_txn = record { mode = txn_send; replica_id = 0; flow_current = 1 }

-- Only the port 3 has a duct, and only the address 32 has a route, to that port and without the address.
abbrev one_route : Switch
one_route = record {
  ports = λ i. record {
    inbound = none;
    inbound_txn = out_txn;
    outbound = if i == 2 then some out_duct else none;
    outbound_txn = out_txn;
  };
  scratch_buffer_size = 4;
  routing_table = λ k. if k == 0 then 0xC3 else 0;
}

one_route-IsSwitch : IsSwitch one_route
one_route-IsSwitch = record {
  outbound_open = λ i d e. elim (Bool-cases (i == 2)) [
    | inl same ↦
        let f : some out_duct ≡ some d = (rw same at e) in
        let g : out_duct ≡ d = cc in
        rw (← g) (record {
          sending = refl;
          replica_in = omega arith;
          flow_in = omega arith;
          little_flow = omega arith;
        })
    | inr other ↦ let f : none ≡ some d = (rw other at e) in cc
  ];
  routes_valid = λ k h on. elim (Bool-cases (k == 0)) [
    | inl same ↦ rw same refl
    | inr other ↦ let f : false ≡ true = (rw other at on) in cc
  ];
}

switch_packet_lem_example :
    (switch_packet one_route (32 ∷ 7 ∷ 8 ∷ []) 5
      ≡ ok (
          set_outbound one_route 2
            (message_sent out_duct out_txn (7 ∷ 8 ∷ []) 5)
            (record out_txn { flow_current = 2 })))
    × IsSwitch (
        set_outbound one_route 2
          (message_sent out_duct out_txn (7 ∷ 8 ∷ []) 5)
          (record out_txn { flow_current = 2 }))
switch_packet_lem_example =
    switch_packet_lem one_route one_route-IsSwitch (32 ∷ 7 ∷ 8 ∷ []) 5 (omega arith) (omega arith)
