-- ===== src/Vivid/Watchdog/Vote.antt =====
-- A voter replica's clip: the watchdog is to be fed exactly if every aspect is alive.
use mathlib.Core.List.{map}
use hailburst.Prelude.{
  ℕ, ◌≤◌, ◌<◌, ◌≡◌, refl, ap, ◌∙◌, ◌+◌, ◌%◌, ◌^◌, ◌++◌, ◌==◌, leb, le32, of_le32, get_or,
  Bool-cases, inl, inr, Bool, true, false, not, ◌&&◌, ◌||◌, List, [], ◌∷◌, Option, none, some,
  get_elem?, if◌then◌else◌, ok, arith,
}
use hailburst.Synch.Duct.{Duct, Packet, majority_threshold}
use hailburst.Synch.Duct.Offer.{IsValid, offered}
use hailburst.Synch.Duct.Send.{Outgoing, AllFit, sent, after_send, offered-own}
use hailburst.Synch.Duct.Receive.{Offers, count_good}
use hailburst.Synch.Duct.Session.{
  singleton, consumed, receive_prepare-single, receive_message-single, receive_commit-single,
  send_prepare-opened, send_message-opened, send_commit-opened,
}
use hailburst.Vivid.Watchdog.Food.{wdt_strict_food_from_recipe}
use hailburst.Vivid.Watchdog.Voter.{
  Aspect, WatchdogVoter, receive_one, send_one, confirmed, expired, watchdog_aspects_ok,
  watchdog_voter_clip, food_message, recipe_of,
}

-- A strict majority of the senders of a valid duct offer receiver `r` the message `o`, if any.
pub record Hears (d : Duct) (r : ℕ) (o : Option Packet) : Type 0 where
  pub valid : IsValid d
  pub mine : r < d.receiver_replicas
  pub good : ℕ → Bool
  pub quorum : majority_threshold d ≤ count_good good d.sender_replicas 0
  pub all : Offers d r good (singleton o)

pub receive_one-eq :
    (now : ℕ → ℕ) (d : Duct) (r : ℕ) (o : Option Packet)
    → Hears d r o
    → receive_one now d r ≡ ok (consumed now d r, o)
unfolding receive_one
receive_one-eq now d r o h =
    rw
      (
        receive_prepare-single now d h.valid r h.mine h.good o h.quorum h.all,
        receive_message-single now d h.valid r h.mine h.good o h.quorum h.all,
        receive_commit-single now d h.valid r h.mine h.good o h.quorum h.all,
      )
      refl

abbrev pub unstamped : List (List ℕ) → List Outgoing
unstamped [] = []
unstamped (m ∷ _) = (m, 0) ∷ []

module _ (now : ℕ → ℕ) (d : Duct) (v : IsValid d) (s : ℕ) (own : s < d.sender_replicas) where
  pub send_one-eq :
      (messages : List (List ℕ))
      → AllFit d.message_size (unstamped messages)
      → send_one now d s messages ≡ ok (after_send now d s (unstamped messages))
  unfolding send_one
  send_one-eq [] fit =
      rw (send_prepare-opened now d v s own, send_commit-opened now d v s own [] (omega arith)) refl
  send_one-eq (m ∷ rest) fit =
      rw
        (
          send_prepare-opened now d v s own,
          send_message-opened now d v s own [] m 0 v.some_flow fit.0 fit.1,
          send_commit-opened now d v s own ((m, 0) ∷ []) v.some_flow,
        )
        refl

  pub send_one-offered :
      (messages : List (List ℕ)) (r k : ℕ)
      → AllFit d.message_size (unstamped messages)
      → r < d.receiver_replicas
      → offered (after_send now d s (unstamped messages)) r k s
        ≡ get_elem? (map sent (unstamped messages)) k
  send_one-offered [] r k fit h = offered-own now d v s own [] (omega arith) tt r k h
  send_one-offered (m ∷ rest) r k fit h =
      offered-own now d v s own ((m, 0) ∷ []) v.some_flow fit r k h

-- What each aspect tells the voter.
abbrev pub AspectsTell : ℕ → List Aspect → List (Option Packet) → Type 0
AspectsTell r [] [] = Unit {0}
AspectsTell r [] (o ∷ os) = ⊥
AspectsTell r (a ∷ rest) [] = ⊥
AspectsTell r (a ∷ rest) (o ∷ os) = Hears a.duct r o × AspectsTell r rest os

-- A replica of an aspect vouches for it with the single byte 1.
abbrev pub is_well : Option Packet → Bool
is_well none = false
is_well (some p) = p.size == 1 && get_or p.bytes 0 0 == 1

-- The time of the cycle is from the last time that the aspect was well up to its timeout later.
abbrev pub in_time : ℕ → Aspect → Bool
in_time epoch a = leb a.last_known_ok epoch && leb epoch ((a.last_known_ok + a.timeout_ns) % 2 ^ 64)

-- Every aspect is well now, or was within its time.
abbrev pub all_alive : ℕ → List Aspect → List (Option Packet) → Bool
all_alive epoch (a ∷ rest) (o ∷ os) = (is_well o || in_time epoch a) && all_alive epoch rest os
all_alive epoch _ _ = true

abbrev pub told : (ℕ → ℕ) → ℕ → ℕ → List Aspect → List (Option Packet) → List Aspect
told now epoch r (a ∷ rest) (o ∷ os) =
    record a {
      duct = consumed now a.duct r;
      last_known_ok = if is_well o then epoch else a.last_known_ok;
    }
    ∷ told now epoch r rest os
told now epoch r _ _ = []

-- What the monitor is to get: five bytes, the food and a flag for the forced reset.
abbrev pub verdict : Bool → Option Packet → List Outgoing
verdict false _ = (0 ∷ 0 ∷ 0 ∷ 0 ∷ 1 ∷ [], 0) ∷ []
verdict true none = []
verdict true (some p) =
    if p.size == 4
    then (le32 (wdt_strict_food_from_recipe (of_le32 p.bytes)) ++ 0 ∷ [], 0) ∷ []
    else []

confirmed-well : (o : Option Packet) → confirmed o ≡ is_well o
confirmed-well none = refl
confirmed-well (some p) = refl

expired-in_time : (epoch : ℕ) (a : Aspect) → not (expired epoch a) ≡ in_time epoch a
expired-in_time epoch a = ground arith

message-verdict :
    (alive : Bool) (o : Option Packet)
    → unstamped (food_message alive (recipe_of o)) ≡ verdict alive o
message-verdict false none = refl
message-verdict false (some p) = refl
message-verdict true none = refl
message-verdict true (some p) = elim (Bool-cases (p.size == 4)) [
  | inl e ↦ rw e refl
  | inr e ↦ rw e refl
]

and-true : (b : Bool) → (b && true) ≡ b
and-true true = refl
and-true false = refl

alive_step :
    (b c e t : Bool) → ((if c then b else if e then false else b) && t) ≡ (b && ((c || not e) && t))
alive_step true true e t = refl
alive_step false true e t = refl
alive_step true false true t = refl
alive_step false false true t = refl
alive_step true false false t = refl
alive_step false false false t = refl

watchdog_aspects_ok-eq :
    (now : ℕ → ℕ) (epoch r : ℕ) (aspects : List Aspect) (os : List (Option Packet)) (all_ok : Bool)
    → AspectsTell r aspects os
    → watchdog_aspects_ok now epoch r aspects all_ok
      ≡ ok (told now epoch r aspects os, all_ok && all_alive epoch aspects os)
unfolding watchdog_aspects_ok
watchdog_aspects_ok-eq now epoch r [] [] all_ok h = rw (and-true all_ok) refl
watchdog_aspects_ok-eq now epoch r [] (o ∷ os) all_ok h = absurd h
watchdog_aspects_ok-eq now epoch r (a ∷ rest) [] all_ok h = absurd h
watchdog_aspects_ok-eq now epoch r (a ∷ rest) (o ∷ os) all_ok h =
    rw
      (
        receive_one-eq now a.duct r o h.0,
        confirmed-well o,
        watchdog_aspects_ok-eq now epoch r rest os
            (if is_well o then all_ok else if expired epoch a then false else all_ok) h.1,
        alive_step all_ok (is_well o) (expired epoch a) (all_alive epoch rest os),
        expired-in_time epoch a,
      )
      refl

abbrev sizeof_food : ℕ
sizeof_food = 5

verdict-AllFit :
    (alive : Bool) (o : Option Packet) (size : ℕ)
    → size ≡ sizeof_food
    → AllFit size (verdict alive o)
verdict-AllFit false o size e = (omega arith, omega (arith, e), tt)
verdict-AllFit true none size e = tt
verdict-AllFit true (some p) size e = elim (Bool-cases (p.size == 4)) [
  | inl four ↦ rw four (omega arith, omega (arith, e), tt)
  | inr other ↦ rw other tt
]

-- On valid ducts, with food messages of five bytes, where in each aspect's duct a strict majority
-- of the replicas offers the voter one and the same message, or nothing, and in the recipe's duct a
-- strict majority of the senders does so too, a voter's clip aborts nowhere. If what an aspect's
-- majority offers is not the single byte 1, and the time of the cycle is not from the last time
-- that it was up to its timeout later, taken modulo 2^64, the voter offers the monitor five bytes
-- that ask for a forced reset; otherwise it offers the food that `wdt_strict_food_from_recipe`
-- gives for the four bytes of the recipe, lowest first, and no reset, and nothing if it was told no
-- recipe of four bytes. Each aspect whose message is the byte 1 is remembered with this cycle's
-- time, and the others with the time they had.
pub watchdog_voter_clip_lem :
    (now : ℕ → ℕ) (epoch : ℕ) (w : WatchdogVoter) (recipe : Option Packet)
    (os : List (Option Packet))
    → Hears w.recipe_duct w.replica_id recipe
    → AspectsTell w.replica_id w.aspects os
    → IsValid w.food_duct
    → w.food_duct.message_size ≡ sizeof_food
    → w.replica_id < w.food_duct.sender_replicas
    → (w' : WatchdogVoter) × (watchdog_voter_clip now epoch w ≡ ok w')
      × (w'.aspects ≡ told now epoch w.replica_id w.aspects os)
      × ((r k : ℕ)
          → r < w.food_duct.receiver_replicas
          → offered w'.food_duct r k w.replica_id
            ≡ get_elem? (map sent (verdict (all_alive epoch w.aspects os) recipe)) k)
unfolding watchdog_voter_clip
watchdog_voter_clip_lem now epoch w recipe os hears tell v sized own =
    let alive = all_alive epoch w.aspects os in
    let messages = food_message alive (recipe_of recipe) in
    let same : unstamped messages ≡ verdict alive recipe = message-verdict alive recipe in
    let fit : AllFit w.food_duct.message_size (unstamped messages) =
      rw same (verdict-AllFit alive recipe w.food_duct.message_size sized) in
    (
      record w {
        aspects = told now epoch w.replica_id w.aspects os;
        recipe_duct = consumed now w.recipe_duct w.replica_id;
        food_duct = after_send now w.food_duct w.replica_id (unstamped messages);
      },
      rw
          (
            receive_one-eq now w.recipe_duct w.replica_id recipe hears,
            watchdog_aspects_ok-eq now epoch w.replica_id w.aspects os true tell,
            send_one-eq now w.food_duct v w.replica_id own messages fit,
          )
          refl,
      refl,
      λ r k h.
          send_one-offered now w.food_duct v w.replica_id own messages r k fit h
          ∙ ap (λ ms. get_elem? (map sent ms) k) same,
    )
