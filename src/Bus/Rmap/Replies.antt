-- ===== src/Bus/Rmap/Replies.antt =====
-- The replies of the RMAP client: what `rmap_validate_write_reply` and `rmap_validate_read_reply` make of
-- a reply that a target lays out.
use Prim.Native.Nat.{bit_and}
use hailburst.Prelude.{
  ℕ, zero, suc, ◌+◌, ◌-◌, ◌*◌, ◌/◌, ◌%◌, ◌^◌, ◌<◌, ◌≡◌, refl, Bool, true, false, ◌&&◌, List, [],
  ◌∷◌, ◌++◌, none, some, ltb, ◌==◌, if◌then◌else◌, length, length-append, get_or, take,
  take-append_length, ==_refl, arith,
}
use hailburst.Bus.Rmap.Crc.{rmap_crc8}
use hailburst.Bus.Rmap.Defs.{
  RmapTxn, rmap_validate_write_reply, rmap_validate_read_reply, protocol_rmap,
}

-- A reply to the transaction `id`, from the target at `target` to the initiator at `initiator`. It has
-- the flags of its request, less the command bit.
abbrev reply_start : ℕ → ℕ → ℕ → ℕ → ℕ → List ℕ
reply_start initiator flags status target id =
    initiator ∷ protocol_rmap ∷ flags ∷ status ∷ target ∷ id / 2 ^ 8 % 256 ∷ id % 256 ∷ []

abbrev checked : List ℕ → List ℕ
checked bytes = bytes ++ rmap_crc8 bytes ∷ []

unfoldable pub write_reply : ℕ → ℕ → ℕ → ℕ → ℕ → List ℕ
write_reply initiator spal status target id =
    checked (reply_start initiator (0x3C + spal) status target id)

unfoldable pub read_reply : ℕ → ℕ → ℕ → ℕ → ℕ → List ℕ → List ℕ
read_reply initiator spal status target id payload =
    let n = length payload in
    checked (
      reply_start initiator (0x0C + spal) status target id
      ++ 0 ∷ n / 2 ^ 16 % 256 ∷ n / 2 ^ 8 % 256 ∷ n % 256 ∷ [])
    ++ checked payload

write_flags : (spal : ℕ) → spal < 4 → (bit_and (0x3C + spal) 0xFC == 0x3C) ≡ true
write_flags zero h = refl
write_flags (suc zero) h = refl
write_flags (suc (suc zero)) h = refl
write_flags (suc (suc (suc zero))) h = refl
write_flags (suc (suc (suc (suc n)))) h = absurd (omega arith)

read_flags : (spal : ℕ) → spal < 4 → (bit_and (0x0C + spal) 0xCC == 0x0C) ≡ true
read_flags zero h = refl
read_flags (suc zero) h = refl
read_flags (suc (suc zero)) h = refl
read_flags (suc (suc (suc zero))) h = refl
read_flags (suc (suc (suc (suc n)))) h = absurd (omega arith)

get_or-last : (xs : List ℕ) (d : ℕ) → get_or (xs ++ d ∷ []) (length xs) 0 ≡ d
get_or-last [] d = refl
get_or-last (x ∷ xs) d = get_or-last xs d

-- The two bytes of a 16-bit number put together.
two_bytes : (id : ℕ) → id < 2 ^ 16 → id / 2 ^ 8 % 256 * 2 ^ 8 + id % 256 ≡ id
two_bytes id h = omega arith

three_bytes :
    (n : ℕ) → n < 2 ^ 24 → n / 2 ^ 16 % 256 * 2 ^ 16 + n / 2 ^ 8 % 256 * 2 ^ 8 + n % 256 ≡ n
three_bytes n h = omega arith

-- The reply belongs to the transaction at hand, and comes from and to the right addresses.
abbrev pub expected : RmapTxn → ℕ → ℕ → ℕ → Bool
expected txn initiator target id =
    (id == txn.current_txn_id)
    && (initiator == txn.rmap.routing.source.logical_address)
    && (target == txn.rmap.routing.destination.logical_address)

module _ (txn : RmapTxn) (initiator spal status target id : ℕ) (short : spal < 4)
    (word : id < 2 ^ 16) where
  -- A well-formed reply to a write, with source path bits below 4 and a 16-bit transaction number, is
  -- accepted with the status it carries if its number and its two addresses are the ones expected, and
  -- refused otherwise.
  pub rmap_validate_write_reply_lem :
      rmap_validate_write_reply txn (write_reply initiator spal status target id)
      ≡ (if expected txn initiator target id then some status else none)
  unfolding rmap_validate_write_reply write_reply
  rmap_validate_write_reply_lem =
      rw
        (
          write_flags spal short,
          ==_refl (rmap_crc8 (reply_start initiator (0x3C + spal) status target id)),
          two_bytes id word,
        )
        (ground arith)

  module _ (payload : List ℕ) (max_len : ℕ) (fits : length payload < 2 ^ 24) where
    abbrev n : ℕ
    n = length payload

    abbrev header : List ℕ
    header =
        reply_start initiator (0x0C + spal) status target id
        ++ 0 ∷ n / 2 ^ 16 % 256 ∷ n / 2 ^ 8 % 256 ∷ n % 256 ∷ []

    abbrev packet : List ℕ
    packet = read_reply initiator spal status target id payload

    count : length packet ≡ 13 + n
    unfolding read_reply
    count = omega (arith, length-append payload (rmap_crc8 payload ∷ []))

    last : get_or packet (length packet - 1) 0 ≡ rmap_crc8 payload
    unfolding read_reply
    last =
        let place : length packet - 1
            ≡ suc (suc (suc (suc (suc (suc (suc (suc (suc (suc (suc (suc n))))))))))) =
          (omega (arith, count)) in
        rw place (get_or-last payload (rmap_crc8 payload))

    -- A well-formed reply to a read of less than 2^24 bytes, with source path bits below 4 and a 16-bit
    -- transaction number, is accepted if its number and its two addresses are the ones expected, with
    -- its status, its length and its data cut to what the caller asked for, and refused otherwise.
    pub rmap_validate_read_reply_lem : rmap_validate_read_reply txn packet max_len ≡ (
        if expected txn initiator target id
        then some (record {
          status = status;
          data_length = length payload;
          data_out = take max_len payload;
        })
        else none)
    unfolding rmap_validate_read_reply read_reply
    rmap_validate_read_reply_lem =
        let bytes = three_bytes n fits in
        let some_header : ltb (length packet) 8 ≡ false = (ground (arith, count)) in
        let whole_header : ltb (length packet) 13 ≡ false = (ground (arith, count)) in
        let whole : (length packet == 13 + n) ≡ true = (rw count (==_refl (13 + n))) in
        rw
          (
            some_header,
            read_flags spal short,
            whole_header,
            ==_refl (rmap_crc8 header),
            bytes,
            whole,
            take-append_length payload (rmap_crc8 payload ∷ []),
            last,
            ==_refl (rmap_crc8 payload),
            two_bytes id word,
          )
          (ground arith)
