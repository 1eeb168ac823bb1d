-- ===== src/Synch/Pipe/Filling.antt =====
-- A receiver's end of a pipe takes in what it asked for, and asks for more (synch/pipebuf.c,
-- synch/pipe.c).
use mathlib.Core.List.{append_assoc, append-nil}
use hailburst.Prelude.{
  ℕ, zero, suc, ◌+◌, ◌-◌, ◌*◌, ◌/◌, ◌%◌, ◌≤◌, ◌<◌, ◌≡◌, refl, ap, ◌∙◌, inl, inr, Bool, List, [],
  ◌∷◌, ◌++◌, some, ltb, leb, ◌==◌, if◌then◌else◌, length, get_elem?, drop, drop_all, drop-get_elem?,
  get_elem?-some, get_elem?-none, ok, ◌>>=◌, ◌>>◌, assert, arith, Bool-cases, Option-cases,
  length-append, le→leb, lt→ltb,
}
use hailburst.Synch.Duct.{Packet, majority_threshold, receive_prepare}
use hailburst.Synch.Duct.Offer.{IsValid}
use hailburst.Synch.Duct.Vote.{IsReceiving}
use hailburst.Synch.Duct.Receive.{
  reading_at, Offers, count_good, prepared, prepared-IsValid, prepared-Offers, receive_next,
  receive_last,
}
use hailburst.Synch.Pipe.Defs.{
  Pipe, pipe_message_size, pipe_max_flow, pipe_receive_prepare, pipe_receive_message,
}
use hailburst.Synch.Pipe.Buffer.{
  PipeReceiver, scratch_avail, request_count, relocated, refill, pipe_receiver_prepare,
}

-- How many messages fit into the memory behind the bytes not read yet, as far as the flow allows.
abbrev pub refills : Pipe → PipeReceiver → ℕ
refills pipe r =
    let fitting = (r.scratch_capacity - length r.unread) / pipe_message_size pipe in
    if ltb (pipe_max_flow pipe) fitting then pipe_max_flow pipe else fitting

-- The sizes that PIPE_RECEIVER_REGISTER sets up, and the place of the bytes in the memory.
pub record IsReceiver (pipe : Pipe) (r : PipeReceiver) : Type 0 where
  pub inside : scratch_avail r ≤ r.scratch_capacity
  pub pipelined : 2 * pipe_message_size pipe ≤ r.scratch_capacity
  pub own : r.replica_id < pipe.dataflow.receiver_replicas

abbrev pub bytes_of : List Packet → List ℕ
bytes_of [] = []
bytes_of (p ∷ ps) = p.bytes ++ bytes_of ps

-- No message is longer than those of the pipe.
abbrev pub AllSmall : ℕ → List Packet → Type 0
AllSmall size [] = Unit {0}
AllSmall size (p ∷ ps) = (length p.bytes ≤ size) × AllSmall size ps

bytes_of-le :
    (size : ℕ) (ps : List Packet) → AllSmall size ps → length (bytes_of ps) ≤ size * length ps
bytes_of-le size [] a = omega arith
bytes_of-le size (p ∷ ps) a =
    let rest = bytes_of-le size ps a.1 in omega (arith, length-append p.bytes (bytes_of ps), a.0)

AllSmall-get_elem? :
    (size : ℕ) (ps : List Packet) (i : ℕ) (p : Packet)
    → AllSmall size ps
    → get_elem? ps i ≡ some p
    → length p.bytes ≤ size
AllSmall-get_elem? size [] i p a e = cc
AllSmall-get_elem? size (q ∷ ps) zero p a e = ground (arith, a.0)
AllSmall-get_elem? size (q ∷ ps) (suc i) p a e = AllSmall-get_elem? size ps i p a.1 e

length-zero : (ps : List Packet) → length ps ≡ 0 → ps ≡ []
length-zero [] e = refl
length-zero (p ∷ ps) e = absurd (omega arith)

pub request_count-eq :
    (pipe : Pipe) (r : PipeReceiver)
    → IsReceiver pipe r
    → request_count pipe r ≡ ok (refills pipe r)
unfolding request_count
request_count-eq pipe r v = rw (le→leb _ _ v.inside, le→leb _ _ v.pipelined) refl

refills-le :
    (pipe : Pipe) (r : PipeReceiver)
    → IsReceiver pipe r
    → 1 ≤ pipe_message_size pipe
    → length r.unread + pipe_message_size pipe * refills pipe r ≤ r.scratch_capacity
refills-le pipe r v pos =
    let free = r.scratch_capacity - length r.unread in
    let fitting = free / pipe_message_size pipe in
    let below : pipe_message_size pipe * fitting ≤ free = grind arith in
    elim (Bool-cases (ltb (pipe_max_flow pipe) fitting)) [
      | inl e ↦
          let less : pipe_max_flow pipe < fitting = ground arith in
          let smaller : pipe_message_size pipe * pipe_max_flow pipe
              ≤ pipe_message_size pipe * fitting =
            grind arith in
          rw e (omega (arith, v.inside))
      | inr e ↦ rw e (omega (arith, v.inside))
    ]

-- The loop reads every message that is there, and then finds none for the rest of its rounds.
module _ (pipe : Pipe) (v : IsValid pipe.dataflow) (good : ℕ → Bool) (ps : List Packet)
    (quorum : majority_threshold pipe.dataflow ≤ count_good good pipe.dataflow.sender_replicas 0)
    (few : length ps ≤ pipe.dataflow.max_flow) (small : AllSmall (pipe_message_size pipe) ps)
    (replica capacity place : ℕ) (own : replica < pipe.dataflow.receiver_replicas)
    (all : Offers pipe.dataflow replica good ps) where
  abbrev reader : List ℕ → ℕ → ℕ → PipeReceiver
  reader unread available n = record {
    replica_id = replica;
    scratch_capacity = capacity;
    scratch_offset = place;
    unread = unread;
    pipe_txn = record { available = available; data_txn = reading_at replica n };
  }

  reading : (n : ℕ) → n ≤ length ps → IsReceiving pipe.dataflow (reading_at replica n)
  reading n h = record { receiving = refl; replica_in = own; flow_in = omega arith }

  refill_lem :
      (n : ℕ) (unread : List ℕ) (available k : ℕ)
      → k ≤ length ps
      → length ps ≤ k + n
      → place + length unread + pipe_message_size pipe * n ≤ capacity
      → refill pipe n (reader unread available k)
        ≡ ok (reader (unread ++ bytes_of (drop k ps)) (available - (length ps - k)) (length ps))
  unfolding refill pipe_receive_message
  refill_lem zero unread available k l h c =
      let at_end : k ≡ length ps = omega arith in
      let same : available - (length ps - length ps) ≡ available = omega arith in
      rw (at_end, same, drop_all (length ps) ps (omega arith), append-nil unread) refl
  refill_lem (suc n) unread available k l h c = elim (Option-cases (get_elem? ps k)) [
    | inl e ↦
        let none_left = get_elem?-none ps k e in
        rw
          (
            le→leb (place + length unread + pipe_message_size pipe * suc n) capacity c,
            receive_last pipe.dataflow v good ps quorum few (reading_at replica k) (reading k l) all
                e,
            append-nil unread,
            refill_lem n unread available k l (omega arith) (omega arith),
          )
          refl
    | inr (p, e) ↦
        let inside = get_elem?-some ps k p e in
        let size = AllSmall-get_elem? (pipe_message_size pipe) ps k p small e in
        let same : available - 1 - (length ps - (k + 1)) ≡ available - (length ps - k) =
          omega arith in
        rw
          (
            le→leb (place + length unread + pipe_message_size pipe * suc n) capacity c,
            receive_next pipe.dataflow v good ps quorum few (reading_at replica k) (reading k l) all
                p e (omega arith),
            refill_lem n (unread ++ p.bytes) (available - 1) (k + 1) (omega arith) (omega arith)
                (omega (arith, length-append unread p.bytes)),
            append_assoc,
            same,
            drop-get_elem? k ps p e,
          )
          refl
  ]

relocated-fits :
    (pipe : Pipe) (n : ℕ) (r : PipeReceiver)
    → scratch_avail r ≤ r.scratch_capacity
    → length r.unread + pipe_message_size pipe * n ≤ r.scratch_capacity
    → (relocated pipe n r).scratch_offset + length r.unread + pipe_message_size pipe * n
      ≤ r.scratch_capacity
unfolding relocated
relocated-fits pipe n r h k = ground arith

relocated-eq :
    (pipe : Pipe) (n : ℕ) (r : PipeReceiver)
    → relocated pipe n r ≡ record r { scratch_offset = (relocated pipe n r).scratch_offset }
unfolding relocated
relocated-eq pipe n r = ground arith

module _ (now : ℕ → ℕ) (pipe : Pipe) (v : IsValid pipe.dataflow)
    (some_size : 1 ≤ pipe_message_size pipe) (r : PipeReceiver) (u : IsReceiver pipe r)
    (good : ℕ → Bool) (ps : List Packet)
    (quorum : majority_threshold pipe.dataflow ≤ count_good good pipe.dataflow.sender_replicas 0)
    (small : AllSmall (pipe_message_size pipe) ps) (all : Offers pipe.dataflow r.replica_id good ps)
    (asked : pipe.last_requested r.replica_id ≤ pipe_max_flow pipe)
    (few : length ps ≤ refills pipe r) where
  abbrev prepared_pipe : Pipe
  prepared_pipe = record pipe { dataflow = prepared now pipe.dataflow r.replica_id }

  abbrev opened : PipeReceiver
  opened = record r {
    pipe_txn = record {
      available = pipe.last_requested r.replica_id;
      data_txn = reading_at r.replica_id 0;
    };
  }

  abbrev filled : ℕ → PipeReceiver
  filled place = record r {
    scratch_offset = place;
    unread = r.unread ++ bytes_of ps;
    pipe_txn = record {
      available = pipe.last_requested r.replica_id - length ps;
      data_txn = reading_at r.replica_id (length ps);
    };
  }

  few_flow : length ps ≤ pipe_max_flow pipe
  few_flow = ground arith

  opened-IsReceiver : IsReceiver prepared_pipe opened
  opened-IsReceiver = omega (arith, u.inside, u.pipelined, u.own)

  abbrev place : ℕ
  place = (relocated prepared_pipe (refills pipe r) opened).scratch_offset

  fits : place + length r.unread + pipe_message_size pipe * refills pipe r ≤ r.scratch_capacity
  fits =
      relocated-fits prepared_pipe (refills pipe r) opened u.inside (refills-le pipe r u some_size)

  refill-filled :
      refill prepared_pipe (refills pipe r) (relocated prepared_pipe (refills pipe r) opened)
      ≡ ok (filled place)
  refill-filled =
      let same : pipe.last_requested r.replica_id - (length ps - 0)
          ≡ pipe.last_requested r.replica_id - length ps =
        omega arith in
      ap (λ x. refill prepared_pipe (refills pipe r) x)
        (relocated-eq prepared_pipe (refills pipe r) opened)
      ∙ refill_lem prepared_pipe (prepared-IsValid now pipe.dataflow r.replica_id v) good ps quorum
          few_flow small r.replica_id r.scratch_capacity place u.own
          (prepared-Offers now pipe.dataflow r.replica_id good ps all) (refills pipe r) r.unread
          (pipe.last_requested r.replica_id) 0 (omega arith) (omega arith) fits
      ∙ ap (λ n. ok (reader_at n)) same
    where
      reader_at : ℕ → PipeReceiver
      reader_at n = record (filled place) {
        pipe_txn = record (filled place).pipe_txn { available = n };
      }

  opened-eq : pipe_receiver_prepare now pipe r ≡ (
      if refills pipe r == 0
      then ok (prepared_pipe, opened)
      else (refill prepared_pipe (refills pipe r) (relocated prepared_pipe (refills pipe r) opened)
          >>= λ r₂. assert (leb (scratch_avail r₂) r₂.scratch_capacity) >> ok (prepared_pipe, r₂)))
  unfolding pipe_receiver_prepare pipe_receive_prepare receive_prepare
  opened-eq =
      let byte : pipe.last_requested r.replica_id % 256 ≡ pipe.last_requested r.replica_id =
        omega (arith, v.little_flow) in
      rw
        (
          byte,
          le→leb _ _ asked,
          lt→ltb _ _ u.own,
          request_count-eq prepared_pipe opened opened-IsReceiver,
        )
        refl

  filled-bound : place + length (r.unread ++ bytes_of ps) ≤ r.scratch_capacity
  filled-bound =
      let some_more : pipe_message_size pipe * length ps ≤ pipe_message_size pipe * refills pipe r =
        grind arith in
      omega (
        arith,
        length-append r.unread (bytes_of ps),
        bytes_of-le (pipe_message_size pipe) ps small,
        fits,
      )

  -- On a valid pipe, let a strict majority of the senders offer a receiver exactly the packets `ps`, no
  -- longer than the pipe's messages, and no more of them than fit into the receiver's memory; then its
  -- prepare aborts nowhere, moves what it has not read to the front if it must, appends the bytes of
  -- all these packets in order to what is not read yet, stays inside the memory and leaves no message
  -- in the pipe.
  pub pipe_receiver_prepare_lem :
      (r' : PipeReceiver) × (pipe_receiver_prepare now pipe r ≡ ok (prepared_pipe, r'))
      × (r'.unread ≡ r.unread ++ bytes_of ps)
      × (r'.pipe_txn.data_txn ≡ reading_at r.replica_id (length ps))
      × IsReceiver prepared_pipe r'
  pipe_receiver_prepare_lem = elim (Bool-cases (refills pipe r == 0)) [
    | inl e ↦
        let nothing : ps ≡ [] = length-zero ps (ground arith) in
        (
          opened,
          rw (opened-eq, e) refl,
          rw (nothing, append-nil r.unread) refl,
          rw nothing refl,
          opened-IsReceiver,
        )
    | inr e ↦ (
      filled place,
      rw (opened-eq, e, refill-filled, le→leb _ _ filled-bound) refl,
      refl,
      refl,
      record { inside = filled-bound; pipelined = u.pipelined; own = u.own },
    )
  ]
