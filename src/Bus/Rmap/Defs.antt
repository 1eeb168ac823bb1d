-- ===== src/Bus/Rmap/Defs.antt =====
-- The RMAP client (fsw/bus/rmap.c, fsw/include/bus/rmap.h). Assertions that a pointer is set have no
-- counterpart.
use Prim.Native.Nat.{bit_and}
use hailburst.Prelude.{
  ℕ, ◌+◌, ◌-◌, ◌*◌, ◌/◌, ◌%◌, ◌^◌, Bool, not, ◌&&◌, List, [], ◌∷◌, ◌++◌, Option, none, some, ltb,
  leb, ◌==◌, if◌then◌else◌, length, get_or, take, drop, replicate, Outcome, ok, ◌>>=◌, ◌>>◌, assert,
  be32,
}
use hailburst.Synch.Duct.{
  Duct, Txn, send_prepare, send_allowed, send_message, send_commit, receive_prepare,
  receive_message, receive_commit,
}
use hailburst.Bus.Rmap.Crc.{rmap_crc8}

abbrev pub rmap_max_path : ℕ
rmap_max_path = 12

abbrev pub scratch_margin_write : ℕ
scratch_margin_write = rmap_max_path + 4 + rmap_max_path + 12 + 1

abbrev pub scratch_margin_read : ℕ
scratch_margin_read = 12 + 1

abbrev pub protocol_rmap : ℕ
protocol_rmap = 0x01

-- RF_COMMAND | RF_WRITE | RF_VERIFY | RF_ACKNOWLEDGE | RF_INCREMENT, and without RF_WRITE | RF_VERIFY.
abbrev pub write_command : ℕ
write_command = 0x40 + 0x20 + 0x10 + 0x08 + 0x04

abbrev pub read_command : ℕ
read_command = 0x40 + 0x08 + 0x04

abbrev pub rs_ok : ℕ
rs_ok = 0x000

abbrev pub rs_no_response : ℕ
rs_no_response = 0x100

abbrev pub rs_read_length_differs : ℕ
rs_read_length_differs = 0x101

pub record RmapPath : Type 0 where
  pub path_bytes : List ℕ
  pub logical_address : ℕ

abbrev pub num_path_bytes : RmapPath → ℕ
num_path_bytes path = length path.path_bytes

pub record RmapAddr : Type 0 where
  pub destination : RmapPath
  pub source : RmapPath
  pub dest_key : ℕ

-- `rmap_replica_t` without its ducts, which the transaction carries, and without its scratch buffer,
-- which only holds the packet at hand.
pub record RmapReplica : Type 0 where
  pub replica_id : ℕ
  pub routing : RmapAddr

-- `rmap_txn_t`, with the ducts and with the `rmap_synch_t` that it points to.
pub record RmapTxn : Type 0 where
  pub rmap : RmapReplica
  pub current_txn_id : ℕ
  pub rx_duct : Duct
  pub rx_recv_txn : Txn
  pub tx_duct : Duct
  pub tx_send_txn : Txn

-- The transaction number of an `rmap_synch_t` that starts over.
abbrev pub rmap_synch_reset : ℕ
rmap_synch_reset = 0

unfoldable pub rmap_epoch_prepare : (ℕ → ℕ) → RmapReplica → ℕ → Duct → Duct → Outcome RmapTxn
rmap_epoch_prepare now rmap current_txn_id rx tx = do
  (tx', send) ← send_prepare now tx rmap.replica_id
  (rx', recv) ← receive_prepare now rx rmap.replica_id
  ok (record {
    rmap = rmap;
    current_txn_id = current_txn_id;
    rx_duct = rx';
    rx_recv_txn = recv;
    tx_duct = tx';
    tx_send_txn = send;
  })

unfoldable pub rmap_epoch_commit : RmapTxn → Outcome RmapTxn
rmap_epoch_commit txn = do
  (recv, dropped) ← receive_message txn.rx_duct txn.rx_recv_txn
  (tx', send') ← send_commit txn.tx_duct txn.tx_send_txn
  (rx', recv') ← receive_commit txn.rx_duct recv
  ok (record txn { rx_duct = rx'; rx_recv_txn = recv'; tx_duct = tx'; tx_send_txn = send' })

-- The bytes that `rmap_encode_source_path` leaves in the zeroed buffer.
unfoldable pub rmap_encode_source_path : RmapPath → Outcome (List ℕ)
rmap_encode_source_path path =
    let n = num_path_bytes path in
    let nzeros = 3 - (n + 3) % 4 in
    (assert (not (ltb 1 n && get_or path.path_bytes 0 0 == 0))
      >> (assert (leb (nzeros + n) rmap_max_path) >> ok (replicate nzeros 0 ++ path.path_bytes)))

-- The words behind the source path: the transaction's number, the address and the length.
abbrev pub request_fields : ℕ → ℕ → ℕ → ℕ → List ℕ
request_fields txn_id ext_addr main_addr data_length =
    txn_id / 2 ^ 8 % 256 ∷ txn_id % 256 ∷ ext_addr ∷ be32 main_addr
    ++ data_length / 2 ^ 16 % 256 ∷ data_length / 2 ^ 8 % 256 ∷ data_length % 256 ∷ []

-- The header region, up to its checksum.
unfoldable pub request_header : RmapAddr → ℕ → List ℕ → Outcome (List ℕ)
request_header routing flags fields =
    let spal = (num_path_bytes routing.source + 3) / 4 in
    (assert (bit_and spal 3 == spal)
      >> (rmap_encode_source_path routing.source >>= λ path. ok (
          routing.destination.logical_address
            ∷ protocol_rmap
            ∷ (flags + spal)
            ∷ routing.dest_key
            ∷ path
          ++ routing.source.logical_address ∷ fields)))

-- What both kinds of request share: the packet is built behind the destination path, and sent.
unfoldable pub start_request : RmapTxn → ℕ → ℕ → ℕ → ℕ → List ℕ → Outcome RmapTxn
unfolding request_header
start_request txn flags ext_addr main_addr data_length trailer = do
  allowed ← send_allowed txn.tx_duct txn.tx_send_txn
  assert allowed
  let routing = txn.rmap.routing
  assert (leb (num_path_bytes routing.destination) rmap_max_path)
  let txn_id = (txn.current_txn_id + 1) % 2 ^ 16
  header ← request_header routing flags (request_fields txn_id ext_addr main_addr data_length)
  assert (ltb data_length (2 ^ 24))
  let packet = routing.destination.path_bytes ++ header ++ rmap_crc8 header ∷ trailer
  assert (leb (length packet) txn.tx_duct.message_size)
  (tx', send') ← send_message txn.tx_duct txn.tx_send_txn packet 0
  ok (record txn { current_txn_id = txn_id; tx_duct = tx'; tx_send_txn = send' })

-- The margin is taken off an unsigned size: a duct smaller than the margin wraps, and 2^32 is added.
abbrev pub less_margin : ℕ → ℕ → ℕ
less_margin size margin = if ltb size margin then size + 2 ^ 32 - margin else size - margin

unfoldable pub rmap_write_start : RmapTxn → ℕ → ℕ → List ℕ → Outcome RmapTxn
unfolding start_request
rmap_write_start txn ext_addr main_addr buffer = do
  assert (leb (length buffer) (less_margin txn.tx_duct.message_size scratch_margin_write))
  start_request txn write_command ext_addr main_addr (length buffer)
      (buffer ++ rmap_crc8 buffer ∷ [])

unfoldable pub rmap_read_start : RmapTxn → ℕ → ℕ → ℕ → Outcome RmapTxn
unfolding start_request
rmap_read_start txn ext_addr main_addr data_length = do
  assert (leb data_length (less_margin txn.rx_duct.message_size scratch_margin_read))
  start_request txn read_command ext_addr main_addr data_length []

abbrev pub at : List ℕ → ℕ → ℕ
at packet i = get_or packet i 0

-- The checks that both kinds of reply end with: the transaction's number, then the addresses.
abbrev pub is_addressed : RmapTxn → List ℕ → Bool
is_addressed txn packet =
    let routing = txn.rmap.routing in
    (at packet 5 * 2 ^ 8 + at packet 6 == txn.current_txn_id)
    && (at packet 0 == routing.source.logical_address)
    && (at packet 4 == routing.destination.logical_address)

-- The status byte of a valid reply to a write.
unfoldable pub rmap_validate_write_reply : RmapTxn → List ℕ → Option ℕ
rmap_validate_write_reply txn packet =
    let count = length packet in
    if ltb count 8
    then none
    else if not (at packet 1 == protocol_rmap)
    then none
    else if not (bit_and (at packet 2) 0xFC == 0x3C)
    then none
    else if not (count == 8)
    then none
    else if not (rmap_crc8 (take 7 packet) == at packet 7)
    then none
    else if not (is_addressed txn packet)
    then none
    else some (at packet 3)

-- What a valid reply to a read brings: its status, and its data. The caller's buffer gets as much of it
-- as fits.
pub record ReadReply : Type 0 where
  pub status : ℕ
  pub data_length : ℕ
  pub data_out : List ℕ

unfoldable pub rmap_validate_read_reply : RmapTxn → List ℕ → ℕ → Option ReadReply
rmap_validate_read_reply txn packet max_len =
    let count = length packet in
    let data_length = at packet 8 * 2 ^ 16 + at packet 9 * 2 ^ 8 + at packet 10 in
    let data_bytes = take data_length (drop 12 packet) in
    if ltb count 8
    then none
    else if not (at packet 1 == protocol_rmap)
    then none
    else if not (bit_and (at packet 2) 0xCC == 0x0C)
    then none
    else if ltb count 13
    then none
    else if not (rmap_crc8 (take 11 packet) == at packet 11)
    then none
    else if not (at packet 7 == 0)
    then none
    else if not (count == 13 + data_length)
    then none
    else if not (rmap_crc8 data_bytes == at packet (count - 1))
    then none
    else if not (is_addressed txn packet)
    then none
    else some (record {
      status = at packet 3;
      data_length = data_length;
      data_out = take max_len data_bytes;
    })

-- The status, and the timestamp of the reply where there is one.
unfoldable pub rmap_write_complete : RmapTxn → Outcome (RmapTxn × ℕ × Option ℕ)
rmap_write_complete txn = receive_message txn.rx_duct txn.rx_recv_txn >>= λ (recv, found).
    let txn' : RmapTxn = record txn { rx_recv_txn = recv } in
    elim found [
      | none ↦ ok (txn', rs_no_response, none)
      | some p ↦ elim (rmap_validate_write_reply txn' p.bytes) [
        | none ↦ ok (txn', rs_no_response, none)
        | some status ↦ ok (txn', status, some p.timestamp)
      ]
    ]

abbrev pub read_status : ReadReply → ℕ → ℕ
read_status reply buffer_size =
    if not (reply.status == rs_ok)
    then reply.status
    else if not (reply.data_length == buffer_size)
    then rs_read_length_differs
    else rs_ok

-- The status, the bytes written to the caller's buffer, and the timestamp of the reply.
unfoldable pub rmap_read_complete : RmapTxn → ℕ → Outcome (RmapTxn × ℕ × List ℕ × Option ℕ)
rmap_read_complete txn buffer_size =
    receive_message txn.rx_duct txn.rx_recv_txn >>= λ (recv, found).
    let txn' : RmapTxn = record txn { rx_recv_txn = recv } in
    elim found [
      | none ↦ ok (txn', rs_no_response, [], none)
      | some p ↦ elim (rmap_validate_read_reply txn' p.bytes buffer_size) [
        | none ↦ ok (txn', rs_no_response, [], none)
        | some reply ↦ ok (txn', read_status reply buffer_size, reply.data_out, some p.timestamp)
      ]
    ]
