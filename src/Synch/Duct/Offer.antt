-- ===== src/Synch/Duct/Offer.antt =====
-- What each sender of a duct offers to a receiver, and how many senders offer the same packet: the
-- words in which the vote of `duct_receive_message` is specified.
use mathlib.Core.Bool.{false≢true}
use hailburst.Prelude.{
  false, ℕ, zero, suc, ◌+◌, ◌≤◌, ◌<◌, ◌≡◌, ◌≢◌, sym, ◌∙◌, inl, inr, Bool, true, ◌&&◌, ◌||◌, Option,
  none, some, ltb, leb, ◌==◌, if◌then◌else◌, bytes_eq, bytes_eq→eq, bytes_eq_refl, ok, arith,
  Bool-cases,
}
use hailburst.Synch.Duct.Defs.{
  Message, Duct, Packet, offset, slot, missing_flow, max_replicas, max_max_flow, lookup_message,
  check_message, usable, same_message, packet_of, majority_threshold, tally,
}

-- What DUCT_REGISTER checks at compile time.
pub record IsValid (d : Duct) : Type 0 where
  pub some_sender : 1 ≤ d.sender_replicas
  pub few_senders : d.sender_replicas ≤ max_replicas
  pub some_receiver : 1 ≤ d.receiver_replicas
  pub few_receivers : d.receiver_replicas ≤ max_replicas
  pub some_flow : 1 ≤ d.max_flow
  pub little_flow : d.max_flow ≤ max_max_flow

-- Sender `s` has sent receiver `r` nothing at index `idx`.
abbrev pub unsent : Duct → ℕ → ℕ → ℕ → Bool
unsent d r idx s =
    let status = d.flow_status (offset d s r) in
    status == missing_flow || leb status idx || ltb d.max_flow status

pub unsent-lt : (d : Duct) (r idx s : ℕ) → unsent d r idx s ≡ false → idx < d.max_flow
unsent-lt d r idx s h = ground arith

-- The message that sender `s` has for receiver `r` at index `idx`, if it is there and well formed.
abbrev pub peek : Duct → ℕ → ℕ → ℕ → Option Message
peek d r idx s = if unsent d r idx s then none else usable d (d.message_buffer (slot d s idx))

pub check_message-eq :
    (d : Duct) (s r idx : ℕ) → s < d.sender_replicas → check_message d s r idx ≡ ok (peek d r idx s)
unfolding check_message lookup_message
check_message-eq d s r idx h = ground arith

abbrev pub packets : Option Message → Option Packet
packets none = none
packets (some m) = some (packet_of m)

abbrev pub offered : Duct → ℕ → ℕ → ℕ → Option Packet
offered d r idx s = packets (peek d r idx s)

abbrev pub packet_eq : Packet → Packet → Bool
packet_eq p q = (q.size == p.size) && (q.timestamp == p.timestamp) && bytes_eq p.bytes q.bytes

pub packet_eq→eq : (p q : Packet) → packet_eq p q ≡ true → p ≡ q
packet_eq→eq p q h = ground (arith, bytes_eq→eq p.bytes q.bytes)

pub packet_eq_refl : (p : Packet) → packet_eq p p ≡ true
packet_eq_refl p = ground (arith, bytes_eq_refl p.bytes)

-- 1 for a sender that offers `p`, 0 for any other.
abbrev pub vote_for : Packet → Option Packet → ℕ
vote_for p none = 0
vote_for p (some q) = if packet_eq p q then 1 else 0

-- How many of the `n` senders from `i` on offer `p`.
unfoldable pub support : Duct → ℕ → ℕ → Packet → ℕ → ℕ → ℕ
support d r idx p zero i = 0
support d r idx p (suc n) i = vote_for p (offered d r idx i) + support d r idx p n (i + 1)

-- The C test on two messages is equality of the packets they stand for.
pub same_message-packet_eq :
    (c m : Message) → same_message c m ≡ packet_eq (packet_of c) (packet_of m)
same_message-packet_eq c m = ground arith

pub tally-eq :
    (c : Message) (votes : ℕ) (o : Option Message)
    → votes < 255
    → tally c votes o ≡ votes + vote_for (packet_of c) (packets o)
tally-eq c votes none h = omega arith
tally-eq c votes (some m) h = rw (same_message-packet_eq c m) (ground arith)

pub vote_for-le : (p : Packet) (o : Option Packet) → vote_for p o ≤ 1
vote_for-le p none = omega arith
vote_for-le p (some q) = ground arith

-- No sender offers two packets.
pub vote_for_disjoint : (p q : Packet) (o : Option Packet) → p ≢ q → vote_for p o + vote_for q o ≤ 1
vote_for_disjoint p q none ne = omega arith
vote_for_disjoint p q (some x) ne = elim (Bool-cases (packet_eq p x)) [
  | inl e ↦ elim (Bool-cases (packet_eq q x)) [
    | inl f ↦ absurd (ne (packet_eq→eq p x e ∙ sym (packet_eq→eq q x f)))
    | inr f ↦ rw (e, f) (omega arith)
  ]
  | inr e ↦ rw e (ground arith)
]

pub support_disjoint :
    (d : Duct) (r idx : ℕ) (p q : Packet) (n i : ℕ)
    → p ≢ q
    → support d r idx p n i + support d r idx q n i ≤ n
unfolding support
support_disjoint d r idx p q zero i ne = omega arith
support_disjoint d r idx p q (suc n) i ne =
    omega (
      arith,
      vote_for_disjoint p q (offered d r idx i) ne,
      support_disjoint d r idx p q n (i + 1) ne,
    )

pub support-le : (d : Duct) (r idx : ℕ) (p : Packet) (n i : ℕ) → support d r idx p n i ≤ n
unfolding support
support-le d r idx p zero i = omega arith
support-le d r idx p (suc n) i =
    omega (arith, vote_for-le p (offered d r idx i), support-le d r idx p n (i + 1))

-- Two majorities are for the same packet.
pub majority_unique :
    (d : Duct) (r idx : ℕ) (p q : Packet) (n i : ℕ)
    → n ≤ d.sender_replicas
    → majority_threshold d ≤ support d r idx p n i
    → majority_threshold d ≤ support d r idx q n i
    → packet_eq p q ≡ true
majority_unique d r idx p q n i few hp hq = elim (Bool-cases (packet_eq p q)) [
  | inl e ↦ e
  | inr e ↦ absurd (
      omega (
        arith,
        support_disjoint d r idx p q n i
            (λ same. false≢true (sym e ∙ (rw same (packet_eq_refl q)))),
      ))
]
