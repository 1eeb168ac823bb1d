-- ===== src/Bus/Rmap/Requests.antt =====
-- The requests of the RMAP client: what `rmap_write_start` and `rmap_read_start` send, and when.
use Prim.Native.Nat.{bit_and}
use hailburst.Prelude.{
  ℕ, zero, suc, ◌+◌, ◌-◌, ◌*◌, ◌/◌, ◌%◌, ◌^◌, ◌≤◌, ◌<◌, ◌≡◌, refl, ap, ◌∙◌, true, not, ◌&&◌, List,
  [], ◌∷◌, ◌++◌, ltb, leb, ◌==◌, length, length-append, get_or, replicate, update, ok, arith,
}
use hailburst.Synch.Duct.{
  Duct, Txn, Message, is_send, send_allowed, send_message, lookup_message, slot, overwrite,
}
use hailburst.Bus.Rmap.Crc.{rmap_crc8}
use hailburst.Bus.Rmap.Defs.{
  RmapTxn, RmapAddr, RmapPath, num_path_bytes, rmap_max_path, rmap_encode_source_path,
  request_header, request_fields, start_request, rmap_write_start, rmap_read_start,
  scratch_margin_write, scratch_margin_read, less_margin, write_command, read_command,
}

-- Paths that an address may have: at most twelve bytes each, and none but a single zero begins with one.
pub record IsRoutable (routing : RmapAddr) : Type 0 where
  pub destination_fits : num_path_bytes routing.destination ≤ rmap_max_path
  pub source_fits : num_path_bytes routing.source ≤ rmap_max_path
  pub source_start :
      (not (ltb 1 (num_path_bytes routing.source) && get_or routing.source.path_bytes 0 0 == 0))
      ≡ true

length-replicate : (n : ℕ) (x : ℕ) → length (replicate n x) ≡ n
length-replicate zero x = refl
length-replicate (suc n) x = omega (arith, length-replicate n x)

-- A source path, with zeros in front that make it whole words of four bytes.
abbrev pub whole_words : RmapPath → List ℕ
whole_words path = replicate ((4 - num_path_bytes path % 4) % 4) 0 ++ path.path_bytes

rmap_encode_source_path-ok :
    (routing : RmapAddr)
    → IsRoutable routing
    → (rmap_encode_source_path routing.source ≡ ok (whole_words routing.source))
      × (length (whole_words routing.source) ≡ (num_path_bytes routing.source + 3) / 4 * 4)
unfolding rmap_encode_source_path
rmap_encode_source_path-ok routing v =
    let n = num_path_bytes routing.source in
    let bytes = routing.source.path_bytes in
    let padded : leb (3 - (n + 3) % 4 + n) rmap_max_path ≡ true = (ground (arith, v.source_fits)) in
    let zeros : 3 - (n + 3) % 4 ≡ (4 - n % 4) % 4 = omega arith in
    (
      rw (v.source_start, padded, zeros) refl,
      length-append (replicate ((4 - n % 4) % 4) 0) bytes
          ∙ ap (λ k. k + n) (length-replicate ((4 - n % 4) % 4) 0)
          ∙ omega arith,
    )

-- The header of a request, less its checksum, as RMAP lays it out: the target's address, the protocol, the
-- instruction with the words of the source path, the key, the source path, the initiator's address, the
-- transaction's number, the address, and the length of the data. Numbers have the highest byte first.
abbrev pub request : RmapAddr → ℕ → ℕ → ℕ → ℕ → ℕ → List ℕ
request routing command id ext_addr main_addr n =
    routing.destination.logical_address
      ∷ 1
      ∷ (command + (num_path_bytes routing.source + 3) / 4)
      ∷ routing.dest_key
      ∷ whole_words routing.source
    ++ routing.source.logical_address
      ∷ id / 2 ^ 8 % 256
      ∷ id % 256
      ∷ ext_addr
      ∷ main_addr / 2 ^ 24 % 256
      ∷ main_addr / 2 ^ 16 % 256
      ∷ main_addr / 2 ^ 8 % 256
      ∷ main_addr % 256
      ∷ n / 2 ^ 16 % 256
      ∷ n / 2 ^ 8 % 256
      ∷ n % 256
      ∷ []

-- The client may send a packet, of up to `room` bytes.
pub record MaySend (txn : RmapTxn) (room : ℕ) : Type 0 where
  pub routable : IsRoutable txn.rmap.routing
  pub sending : is_send txn.tx_send_txn.mode ≡ true
  pub replica : txn.tx_send_txn.replica_id < txn.tx_duct.sender_replicas
  pub flow : txn.tx_send_txn.flow_current < txn.tx_duct.max_flow
  pub size : room ≤ txn.tx_duct.message_size

-- The number after the last transaction's.
abbrev pub next_id : RmapTxn → ℕ
next_id txn = (txn.current_txn_id + 1) % 2 ^ 16

-- A packet of the client: the destination path, the header with its checksum, and the trailer.
abbrev framed : RmapAddr → List ℕ → List ℕ → List ℕ
framed routing header trailer =
    routing.destination.path_bytes ++ header ++ rmap_crc8 header ∷ trailer

length-framed :
    (routing : RmapAddr) (header trailer : List ℕ)
    → length (framed routing header trailer)
      ≡ num_path_bytes routing.destination + length header + 1 + length trailer
length-framed routing header trailer =
    length-append (routing.destination.path_bytes ++ header) (rmap_crc8 header ∷ trailer)
    ∙ omega (arith, length-append routing.destination.path_bytes header)

-- The client behind a request with this header and this trailer.
pub record Started (txn : RmapTxn) (header trailer : List ℕ) (txn' : RmapTxn) : Type 0 where
  pub numbered : txn'.current_txn_id ≡ next_id txn
  pub sent :
      send_message txn.tx_duct txn.tx_send_txn (framed txn.rmap.routing header trailer) 0
      ≡ ok (txn'.tx_duct, txn'.tx_send_txn)
  pub waits : txn'.rx_recv_txn ≡ txn.rx_recv_txn
  pub same_duct : txn'.rx_duct ≡ txn.rx_duct
  pub same_rmap : txn'.rmap ≡ txn.rmap

abbrev entry : Duct → Txn → List ℕ → Message
entry d t message = record {
  size = length message;
  timestamp = 0;
  body = overwrite message (d.message_buffer (slot d t.replica_id t.flow_current)).body;
}

send_message-eq :
    (d : Duct) (t : Txn) (message : List ℕ)
    → is_send t.mode ≡ true
    → t.replica_id < d.sender_replicas
    → t.flow_current < d.max_flow
    → 1 ≤ length message
    → length message ≤ d.message_size
    → (d' : Duct) × (t' : Txn) × (send_message d t message 0 ≡ ok (d', t'))
unfolding send_message lookup_message
send_message-eq d t message sends known free some_bytes fits =
    let known' : ltb t.replica_id d.sender_replicas ≡ true = (ground arith) in
    let free' : ltb t.flow_current d.max_flow ≡ true = (ground arith) in
    let sized : (leb 1 (length message) && leb (length message) d.message_size) ≡ true =
      (ground arith) in
    (
      record d {
        message_buffer =
            update d.message_buffer (slot d t.replica_id t.flow_current) (entry d t message);
      },
      record t { flow_current = (t.flow_current + 1) % 256 },
      (rw (sends, known', free', sized) refl),
    )

two_bits : (k : ℕ) → k < 4 → (bit_and k 3 == k) ≡ true
two_bits zero h = refl
two_bits (suc zero) h = refl
two_bits (suc (suc zero)) h = refl
two_bits (suc (suc (suc zero))) h = refl
two_bits (suc (suc (suc (suc k)))) h = absurd (omega arith)

request_header-ok :
    (routing : RmapAddr) (flags id ext_addr main_addr n : ℕ)
    → IsRoutable routing
    → (request_header routing flags (request_fields id ext_addr main_addr n)
        ≡ ok (request routing flags id ext_addr main_addr n))
      × (length (request routing flags id ext_addr main_addr n)
          ≡ (num_path_bytes routing.source + 3) / 4 * 4 + 15)
unfolding request_header
request_header-ok routing flags id ext_addr main_addr n v =
    let (e, len) = rmap_encode_source_path-ok routing v in
    let spal = (num_path_bytes routing.source + 3) / 4 in
    let fields = request_fields id ext_addr main_addr n in
    (
      rw (two_bits spal (omega (arith, v.source_fits)), e) refl,
      omega (
        arith,
        len,
        length-append (whole_words routing.source) (routing.source.logical_address ∷ fields),
      ),
    )

module _ (txn : RmapTxn) (flags ext_addr main_addr data_length : ℕ) (trailer : List ℕ) where
  runs :
      (header : List ℕ) (d : Duct) (t : Txn)
      → MaySend txn (40 + length trailer)
      → data_length < 2 ^ 24
      → request_header txn.rmap.routing flags
          (request_fields ((txn.current_txn_id + 1) % 2 ^ 16) ext_addr main_addr data_length)
        ≡ ok header
      → length (framed txn.rmap.routing header trailer) ≤ txn.tx_duct.message_size
      → send_message txn.tx_duct txn.tx_send_txn (framed txn.rmap.routing header trailer) 0
        ≡ ok (d, t)
      → start_request txn flags ext_addr main_addr data_length trailer
        ≡ ok (record txn {
          current_txn_id = (txn.current_txn_id + 1) % 2 ^ 16;
          tx_duct = d;
          tx_send_txn = t;
        })
  unfolding start_request send_allowed
  runs header d t v small e total f =
      let known : ltb txn.tx_send_txn.replica_id txn.tx_duct.sender_replicas ≡ true =
        (ground (arith, v.replica)) in
      let counted : leb txn.tx_send_txn.flow_current txn.tx_duct.max_flow ≡ true =
        (ground (arith, v.flow)) in
      let free : ltb txn.tx_send_txn.flow_current txn.tx_duct.max_flow ≡ true =
        (ground (arith, v.flow)) in
      let near : leb (num_path_bytes txn.rmap.routing.destination) rmap_max_path ≡ true =
        (ground (arith, v.routable.destination_fits)) in
      let small' : ltb data_length (2 ^ 24) ≡ true = (ground arith) in
      let total' : leb (length (framed txn.rmap.routing header trailer)) txn.tx_duct.message_size
          ≡ true =
        (ground arith) in
      rw (v.sending, known, counted, free, near, e, small', total', f) refl

  -- With room for the longest header and the trailer, a request goes out.
  start_request-ok :
      MaySend txn (40 + length trailer)
      → data_length < 2 ^ 24
      → (txn' : RmapTxn) × (start_request txn flags ext_addr main_addr data_length trailer
          ≡ ok txn')
        × Started txn
            (request txn.rmap.routing flags (next_id txn) ext_addr main_addr data_length)
            trailer
            txn'
  start_request-ok v small =
      let header = request txn.rmap.routing flags (next_id txn) ext_addr main_addr data_length in
      let (e, len) =
        request_header-ok txn.rmap.routing flags (next_id txn) ext_addr main_addr data_length
          v.routable in
      let total : length (framed txn.rmap.routing header trailer) ≤ txn.tx_duct.message_size =
        (omega (
          arith,
          len,
          length-framed txn.rmap.routing header trailer,
          v.routable.destination_fits,
          v.routable.source_fits,
          v.size,
        )) in
      let some_bytes : 1 ≤ length (framed txn.rmap.routing header trailer) =
        (omega (arith, length-framed txn.rmap.routing header trailer)) in
      let (d, t, f) =
        send_message-eq txn.tx_duct txn.tx_send_txn (framed txn.rmap.routing header trailer)
          v.sending v.replica v.flow some_bytes total in
      (
        record txn { current_txn_id = next_id txn; tx_duct = d; tx_send_txn = t },
        runs header d t v small e total f,
        record { numbered = refl; sent = f; waits = refl; same_duct = refl; same_rmap = refl },
      )

-- If the client may send, its routing is legal, and the duct's messages leave the margin free around
-- the data, which is shorter than 2^24 bytes, then a write aborts nowhere: it takes the next
-- transaction number modulo 2^16 and sends exactly one packet, of the destination path, the header of a
-- verified and acknowledged write with that number, the address and the length of the data, as RMAP lays
-- it out, with its checksum, and the data with its checksum.
pub rmap_write_start-ok :
    (txn : RmapTxn) (ext_addr main_addr : ℕ) (buffer : List ℕ)
    → MaySend txn (scratch_margin_write + length buffer)
    → length buffer < 2 ^ 24
    → (txn' : RmapTxn) × (rmap_write_start txn ext_addr main_addr buffer ≡ ok txn')
      × Started txn
          (request txn.rmap.routing 0x7C (next_id txn) ext_addr main_addr (length buffer))
          (buffer ++ rmap_crc8 buffer ∷ [])
          txn'
unfolding rmap_write_start
rmap_write_start-ok txn ext_addr main_addr buffer v small =
    let fits : leb (length buffer) (less_margin txn.tx_duct.message_size scratch_margin_write)
        ≡ true =
      (ground (arith, v.size)) in
    let trailer = buffer ++ rmap_crc8 buffer ∷ [] in
    let v' : MaySend txn (40 + length trailer) = record {
      routable = v.routable;
      sending = v.sending;
      replica = v.replica;
      flow = v.flow;
      size = omega (arith, v.size, length-append buffer (rmap_crc8 buffer ∷ []));
    } in
    let (txn', e, w) =
      start_request-ok txn write_command ext_addr main_addr (length buffer) trailer v' small in
    (txn', (rw fits e), w)

-- If the client may send, its routing is legal, the sending duct takes 40 bytes, and the receiving duct
-- takes the data with its margin, of less than 2^24 bytes, then a read aborts nowhere: it takes the
-- next transaction number modulo 2^16 and sends exactly one packet, of the destination path and the
-- header with its checksum.
pub rmap_read_start-ok :
    (txn : RmapTxn) (ext_addr main_addr data_length : ℕ)
    → MaySend txn 40
    → data_length + scratch_margin_read ≤ txn.rx_duct.message_size
    → data_length < 2 ^ 24
    → (txn' : RmapTxn) × (rmap_read_start txn ext_addr main_addr data_length ≡ ok txn')
      × Started txn
          (request txn.rmap.routing 0x4C (next_id txn) ext_addr main_addr data_length)
          []
          txn'
unfolding rmap_read_start
rmap_read_start-ok txn ext_addr main_addr data_length v room small =
    let fits : leb data_length (less_margin txn.rx_duct.message_size scratch_margin_read) ≡ true =
      (ground arith) in
    let (txn', e, w) =
      start_request-ok txn read_command ext_addr main_addr data_length [] v small in
    (txn', (rw fits e), w)
