-- ===== src/Synch/Notepad/Defs.antt =====
-- The data and the operations of synch/notepad.c.
use hailburst.Prelude.{
  ℕ, zero, suc, ◌+◌, ◌-◌, ◌*◌, ◌/◌, ◌%◌, Bool, true, false, List, Option, none, some, ltb, leb,
  ◌==◌, if◌then◌else◌, replicate, update, bytes_eq, Outcome, ok, ◌>>=◌, ◌>>◌, assert,
}

-- NOTEPAD_UNINITIALIZED
abbrev pub uninitialized : ℕ
uninitialized = 0xFF

-- What the references of all replicas share: two regions of `state_size` bytes for each replica, and
-- which of the two it wrote last.
pub record Notepad : Type 0 where
  pub num_replicas : ℕ
  pub state_size : ℕ
  pub flip_states : ℕ → ℕ
  pub mutable_state : ℕ → List ℕ

-- The place of a region.
unfoldable pub region_ref : Notepad → ℕ → ℕ → Outcome ℕ
region_ref n replica_id flip_state = assert (leb flip_state 1) >> ok (replica_id * 2 + flip_state)

-- A replica that ran before this one in the cycle has already moved its bit on.
abbrev pub flip_seen : ℕ → ℕ → ℕ → ℕ
flip_seen replica_id i flip_state = if ltb i replica_id then 1 - flip_state % 2 else flip_state % 2

-- The loop of `notepad_vote_flip` over the replicas from `i` on.
unfoldable pub count_secondary : Notepad → ℕ → ℕ → ℕ → ℕ
count_secondary n replica_id zero i = 0
count_secondary n replica_id (suc k) i =
    (if flip_seen replica_id i (n.flip_states i) == 1 then 1 else 0)
    + count_secondary n replica_id k (i + 1)

abbrev pub majority : Notepad → ℕ
majority n = 1 + n.num_replicas / 2

unfoldable pub vote_flip : Notepad → ℕ → ℕ
vote_flip n replica_id =
    if n.flip_states replica_id == uninitialized
    then uninitialized
    else if leb (majority n) (count_secondary n replica_id n.num_replicas 0)
    then 1
    else 0

-- The inner loop of `notepad_vote_best`, over the replicas from `i` on.
unfoldable pub count_same : Notepad → ℕ → List ℕ → ℕ → ℕ → ℕ → Outcome ℕ
count_same n flip_read candidate zero i votes = ok votes
count_same n flip_read candidate (suc k) i votes = region_ref n i flip_read >>= λ compared.
    count_same n flip_read candidate k (i + 1)
      (if bytes_eq candidate (n.mutable_state compared) then (votes + 1) % 256 else votes)

-- The outer loop: `k` candidates are left from `i` on.
unfoldable pub pick_best : Notepad → ℕ → ℕ → ℕ → Outcome (Option (List ℕ))
pick_best n flip_read zero i = ok none
pick_best n flip_read (suc k) i =
    let rest = pick_best n flip_read k (i + 1) in
    region_ref n i flip_read >>= λ place.
    let candidate = n.mutable_state place in
    count_same n flip_read candidate (n.num_replicas - (i + 1)) (i + 1) 1 >>= λ votes.
    if leb (majority n) votes then ok (some candidate) else rest

-- What goes to the output region, and whether it is valid.
abbrev pub voted : Notepad → Option (List ℕ) → List ℕ × Bool
voted n none = (replicate n.state_size 0, false)
voted n (some candidate) = (candidate, true)

unfoldable pub vote_best : Notepad → ℕ → Outcome (List ℕ × Bool)
vote_best n flip_read =
    let candidates = n.num_replicas - majority n + 1 in
    let vote = (pick_best n flip_read candidates 0 >>= λ best. ok (voted n best)) in
    if flip_read == uninitialized then ok (voted n none) else vote

-- `flip_read` and `flip_write`, where the region is written and the state is fed forward. The caller
-- gets the contents of the output region, and writes the next state over them.
unfoldable pub notepad_feedforward : Notepad → ℕ → Outcome (Notepad × List ℕ × Bool)
notepad_feedforward n replica_id = do
  assert (ltb replica_id n.num_replicas)
  let flip_read = vote_flip n replica_id
  let flip_write : ℕ = (if flip_read == 0 then 1 else 0)
  output_region ← region_ref n replica_id flip_write
  (contents, valid) ← vote_best n flip_read
  ok (
    record n {
      flip_states = update n.flip_states replica_id flip_write;
      mutable_state = update n.mutable_state output_region contents;
    },
    contents,
    valid,
  )
