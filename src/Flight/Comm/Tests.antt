-- ===== src/Flight/Comm/Tests.antt =====
-- A checksum and small packets on which the theorems about telecommunications are applied.
use Prim.Native.Nat.{bit_xor}
use hailburst.Prelude.{
  get_elem?, Bool, leb, ℕ, zero, suc, ◌+◌, ◌-◌, ◌/◌, ◌%◌, ◌^◌, ◌≤◌, ◌<◌, ◌≡◌, ◌↔◌, refl, ap, sym,
  ◌∙◌, true, false, List, [], ◌∷◌, ◌++◌, Option, none, some, ◌==◌, if◌then◌else◌, length, AllBytes,
  append-AllBytes, be32, be32-AllBytes, ok, arith,
}
use hailburst.Synch.Duct.Receive.{reading_at}
use mathlib.Core.List.{append-nil, map}
use hailburst.Synch.Flag.{initial_flag}
use hailburst.Synch.Duct.{Duct, Packet, majority_threshold}
use hailburst.Synch.Duct.Offer.{IsValid, offered}
use hailburst.Synch.Duct.Send.{sent}
use hailburst.Synch.Pipe.Sending.{chunks, concat, stamped}
use hailburst.Synch.Pipe.Commit.{IsPipe}
use hailburst.Flight.Comm.Downlink.{encode_commit, encode_commit_lem}
use hailburst.Synch.Duct.Receive.{count_good, Offers}
use hailburst.Synch.Pipe.{Pipe}
use hailburst.Synch.Pipe.Filling.{IsReceiver, refills}
use hailburst.Flight.Comm.Reception.{prepare_decode, prepare_decode_lem}
use hailburst.Flight.Comm.Decode.{
  byte_escape, byte_esc_sop, byte_esc_eop, CommPacket, CommDec, comm_cmd_magic_num, comm_dec_decode,
  comm_packet_decode,
}
use hailburst.Flight.Comm.Encode.{CommEnc, comm_tlm_magic_num, comm_enc_encode}
use hailburst.Flight.Comm.Frame.{escape_all, Extends, frame, checksummed, body, comm_enc_encode_lem}
use hailburst.Flight.Comm.Packets.{InRange, Narrow, comm_packet_decode_lem}
use hailburst.Flight.Comm.Symbols.{reading}
use hailburst.Flight.Comm.Total.{IsDecoder, comm_dec_decode_lem}
use hailburst.Flight.Comm.Uplink.{comm_dec_decode-frame}

-- The CRC-32 of IEEE 802.3, bit by bit from the lowest.
unfoldable crc_shift : ℕ → ℕ → ℕ
crc_shift zero c = c
crc_shift (suc n) c = crc_shift n (if c % 2 == 1 then bit_xor (c / 2) 0xEDB88320 else c / 2)

unfoldable crc_bytes : ℕ → List ℕ → ℕ
crc_bytes c [] = c
crc_bytes c (b ∷ bs) = crc_bytes (crc_shift 8 (bit_xor c b) % 2 ^ 32) bs

abbrev inverted : ℕ → ℕ
inverted c = 2 ^ 32 - 1 - c

unfoldable ieee_crc32 : ℕ → List ℕ → ℕ
ieee_crc32 c bytes = inverted (crc_bytes (inverted c) bytes)

-- The check value of the CRC, for the bytes of "123456789".
ieee_crc32_check :
    ieee_crc32 0 (0x31 ∷ 0x32 ∷ 0x33 ∷ 0x34 ∷ 0x35 ∷ 0x36 ∷ 0x37 ∷ 0x38 ∷ 0x39 ∷ []) ≡ 0xCBF43926
unfolding ieee_crc32 crc_bytes crc_shift
ieee_crc32_check = refl

crc_bytes-lt : (bytes : List ℕ) (c : ℕ) → c < 2 ^ 32 → crc_bytes c bytes < 2 ^ 32
unfolding crc_bytes
crc_bytes-lt [] c h = h
crc_bytes-lt (b ∷ bs) c h = crc_bytes-lt bs (crc_shift 8 (bit_xor c b) % 2 ^ 32) (omega arith)

crc_bytes-append : (xs ys : List ℕ) (c : ℕ) → crc_bytes c (xs ++ ys) ≡ crc_bytes (crc_bytes c xs) ys
unfolding crc_bytes
crc_bytes-append [] ys c = refl
crc_bytes-append (x ∷ xs) ys c = crc_bytes-append xs ys (crc_shift 8 (bit_xor c x) % 2 ^ 32)

ieee_crc32-Extends : Extends ieee_crc32
unfolding ieee_crc32
ieee_crc32-Extends xs ys =
    let twice : inverted (inverted (crc_bytes (inverted 0) xs)) ≡ crc_bytes (inverted 0) xs =
      omega (arith, crc_bytes-lt xs (inverted 0) (omega arith)) in
    ap (λ c. inverted (crc_bytes c ys)) twice
    ∙ ap inverted (sym (crc_bytes-append xs ys (inverted 0)))

ieee_crc32-Narrow : Narrow ieee_crc32
unfolding ieee_crc32
ieee_crc32-Narrow xs = omega arith

abbrev ping : CommPacket
ping = record { cmd_tlm_id = 0x01000001; timestamp_ns = 5; data_bytes = 0xFF ∷ 7 ∷ [] }

ping-InRange : InRange ping
ping-InRange = record { id_range = omega arith; time_range = omega arith }

abbrev downlink_of : ℕ → CommEnc
downlink_of capacity = record {
  downlink = record { replica_id = 0; scratch_capacity = capacity; scratch = 1 ∷ 2 ∷ [] };
}

comm_enc_encode_lem_example :
    comm_enc_encode ieee_crc32 (downlink_of 49) ping
    ≡ ok (
      record {
        downlink = record (downlink_of 49).downlink {
          scratch = 1 ∷ 2 ∷ [] ++ frame ieee_crc32 comm_tlm_magic_num ping;
        };
      },
      true,
    )
comm_enc_encode_lem_example =
    comm_enc_encode_lem ieee_crc32 ieee_crc32-Extends ping (downlink_of 49) (omega arith)
      (omega arith)

abbrev uplink_with : List ℕ → CommDec
uplink_with bytes = record {
  uplink = record {
    replica_id = 0;
    scratch_capacity = 8 + length bytes;
    scratch_offset = 3;
    unread = bytes;
    pipe_txn = record { available = 0; data_txn = reading_at 0 0 };
  };
  decode_buffer = [];
  decode_in_progress = false;
  err_count = 0;
}

abbrev ping_line : List ℕ
ping_line = frame ieee_crc32 comm_cmd_magic_num ping ++ 0xFF ∷ []

comm_dec_decode-frame_example :
    comm_dec_decode ieee_crc32 (uplink_with ping_line)
    ≡ ok (
      record (uplink_with ping_line) {
        uplink =
            reading
              (uplink_with ping_line).uplink
              (3 + length (frame ieee_crc32 comm_cmd_magic_num ping))
              (0xFF ∷ []);
        decode_buffer = checksummed ieee_crc32 comm_cmd_magic_num ping;
        decode_in_progress = false;
      },
      some ping,
    )
comm_dec_decode-frame_example =
    comm_dec_decode-frame ieee_crc32 ieee_crc32-Narrow ping ping-InRange (omega arith)
      (uplink_with ping_line) (0xFF ∷ []) refl refl (omega arith)

-- An end without a start, and the start of a packet that goes on.
abbrev noise : List ℕ
noise = 0xFF ∷ 0x33 ∷ 5 ∷ 0xFF ∷ 0x22 ∷ 6 ∷ 0xFF ∷ []

noise-IsDecoder : IsDecoder (uplink_with noise)
noise-IsDecoder = record {
  uplink_in = omega arith;
  decode_in = omega arith;
  uplink_bytes = omega arith;
  decode_bytes = tt;
}

comm_dec_decode_lem_example :
    (dec' : CommDec) × (found : Option CommPacket) × (comm_dec_decode ieee_crc32 (uplink_with noise)
      ≡ ok (dec', found))
    × ((front : List ℕ) × (noise ≡ front ++ dec'.uplink.unread))
    × IsDecoder dec'
    × (found ≡ none → length dec'.uplink.unread ≤ 1)
    × ((p : CommPacket)
        → found ≡ some p
        → InRange p × (dec'.decode_buffer ≡ checksummed ieee_crc32 comm_cmd_magic_num p))
comm_dec_decode_lem_example = comm_dec_decode_lem ieee_crc32 (uplink_with noise) noise-IsDecoder

abbrev ping_buffer : List ℕ
ping_buffer = checksummed ieee_crc32 comm_cmd_magic_num ping

ping_buffer-AllBytes : AllBytes ping_buffer
ping_buffer-AllBytes =
    append-AllBytes (body comm_cmd_magic_num ping)
      (be32 (ieee_crc32 0 (body comm_cmd_magic_num ping))) (omega arith)
      (be32-AllBytes (ieee_crc32 0 (body comm_cmd_magic_num ping)))

comm_packet_decode_lem_example :
    (comm_packet_decode ieee_crc32 ping_buffer ≡ some ping)
    ↔ (InRange ping × (ping_buffer ≡ checksummed ieee_crc32 comm_cmd_magic_num ping))
comm_packet_decode_lem_example =
    comm_packet_decode_lem ieee_crc32 ieee_crc32-Narrow ping_buffer ping_buffer-AllBytes ping

-- The last two bytes of the frame come with the next message of an uplink of three senders.
abbrev ping_front : List ℕ
ping_front =
    byte_escape ∷ byte_esc_sop ∷ escape_all (checksummed ieee_crc32 comm_cmd_magic_num ping)

abbrev last_message : Packet
last_message = record { size = 2; timestamp = 0; bytes = byte_escape ∷ byte_esc_eop ∷ [] }

abbrev uplink_duct : Duct
uplink_duct = record {
  sender_replicas = 3;
  receiver_replicas = 1;
  max_flow = 2;
  message_size = 2;
  message_buffer = λ _. record { size = 2; timestamp = 0; body = byte_escape ∷ byte_esc_eop ∷ [] };
  flow_status = λ _. 1;
  flags_receive = λ _. initial_flag;
  flags_send = λ _. initial_flag;
}

abbrev uplink_pipe : Pipe
uplink_pipe = record { last_requested = λ _. 1; dataflow = uplink_duct; pressure = uplink_duct }

uplink_duct-IsValid : IsValid uplink_duct
uplink_duct-IsValid = record {
  some_sender = omega arith;
  few_senders = omega arith;
  some_receiver = omega arith;
  few_receivers = omega arith;
  some_flow = omega arith;
  little_flow = omega arith;
}

abbrev everyone : ℕ → Bool
everyone _ = true

last-Offers : Offers uplink_duct 0 everyone (last_message ∷ [])
last-Offers s zero h g = refl
last-Offers s (suc k) h g = let over : leb 1 (suc k) ≡ true = (ground arith) in rw over refl

three-quorum : majority_threshold uplink_duct ≤ count_good everyone 3 0
unfolding count_good everyone
three-quorum = omega arith

front-IsReceiver : IsReceiver uplink_pipe (uplink_with ping_front).uplink
front-IsReceiver = record { inside = omega arith; pipelined = omega arith; own = omega arith }

front_complete :
    ping_front ++ byte_escape ∷ byte_esc_eop ∷ [] ≡ frame ieee_crc32 comm_cmd_magic_num ping ++ []
unfolding frame
front_complete = sym (append-nil (frame ieee_crc32 comm_cmd_magic_num ping))

front_room : 1 ≤ refills uplink_pipe (uplink_with ping_front).uplink
front_room = ground arith

prepare_decode_lem_example :
    (pipe' : Pipe) × (dec' : CommDec) × (prepare_decode ieee_crc32
        (λ _. 0)
        uplink_pipe
        (uplink_with ping_front)
      ≡ ok (pipe', dec', some ping))
    × (dec'.uplink.unread ≡ [])
    × (dec'.err_count ≡ 0)
    × (dec'.decode_in_progress ≡ false)
prepare_decode_lem_example =
    prepare_decode_lem ieee_crc32 ieee_crc32-Narrow ping ping-InRange (omega arith) (λ _. 0)
      uplink_pipe uplink_duct-IsValid (omega arith) (uplink_with ping_front) front-IsReceiver refl
      everyone (last_message ∷ []) three-quorum (omega arith, tt) last-Offers (omega arith)
      front_room [] front_complete

-- The receiver of the downlink has asked three senders for one message.
abbrev asking_duct : Duct
asking_duct = record {
  sender_replicas = 1;
  receiver_replicas = 3;
  max_flow = 1;
  message_size = 1;
  message_buffer = λ _. record { size = 1; timestamp = 0; body = 1 ∷ [] };
  flow_status = λ _. 1;
  flags_receive = λ _. initial_flag;
  flags_send = λ _. initial_flag;
}

abbrev downlink_pipe : Pipe
downlink_pipe = record { last_requested = λ _. 1; dataflow = uplink_duct; pressure = asking_duct }

downlink_pipe-IsPipe : IsPipe downlink_pipe
downlink_pipe-IsPipe = record {
  dataflow_valid = uplink_duct-IsValid;
  pressure_valid = record {
    some_sender = omega arith;
    few_senders = omega arith;
    some_receiver = omega arith;
    few_receivers = omega arith;
    some_flow = omega arith;
    little_flow = omega arith;
  };
  some_size = omega arith;
  status_size = refl;
  back_senders = refl;
  back_receivers = refl;
}

abbrev one_message : Packet
one_message = record { size = 1; timestamp = 0; bytes = 1 ∷ [] }

asking-Offers : Offers asking_duct 0 everyone (one_message ∷ [])
asking-Offers s zero h g = refl
asking-Offers s (suc k) h g = let over : leb 1 (suc k) ≡ true = (ground arith) in rw over refl

one-quorum : majority_threshold asking_duct ≤ count_good everyone 1 0
unfolding count_good everyone
one-quorum = omega arith

abbrev pending_bytes : List ℕ
pending_bytes = 1 ∷ 2 ∷ [] ++ frame ieee_crc32 comm_tlm_magic_num ping

encode_commit_lem_example :
    (pipe' : Pipe) × (enc' : CommEnc) × (encode_commit ieee_crc32
        (λ _. 0)
        downlink_pipe
        (downlink_of 49)
        ping
      ≡ ok (pipe', enc', true))
    × ((r k : ℕ)
        → r < 1
        → offered pipe'.dataflow r k 0
          ≡ get_elem? (map sent (map stamped (chunks 2 1 pending_bytes))) k)
    × (concat (chunks 2 1 pending_bytes) ++ enc'.downlink.scratch ≡ pending_bytes)
encode_commit_lem_example =
    encode_commit_lem ieee_crc32 ieee_crc32-Extends ping (λ _. 0) downlink_pipe downlink_pipe-IsPipe
      (downlink_of 49) (omega arith) (omega arith) everyone one-quorum (some one_message)
      asking-Offers (omega arith)
