-- ===== src/Types.antt =====
-- types.go and `PeerConfig` of config.go: the data that every part of the node shares.
-- Terms and indices are `uint64`; names and commands are byte sequences.
use Prim.Native.String.{String}
use text.Mathlib.Text.{◌==◌ as str_eq}
use raft.Prelude.{
  ℕ, Bool, true, false, Option, none, some, List, if◌then◌else◌, NodeId, ◌≡◌, refl, ◌⊎◌, inl, inr,
}

-- `State`: the role of a node.
pub data State : Type 0 where
  follower candidate leader pre_candidate : State

-- `State.String`, which is also `MarshalText`.
unfoldable pub to_string : State → String
to_string State.follower = "Follower"
to_string State.candidate = "Candidate"
to_string State.leader = "Leader"
to_string State.pre_candidate = "PreCandidate"

-- `State.UnmarshalText`; `none` is the error.
unfoldable pub unmarshal_text : String → Option State
unmarshal_text text =
    if str_eq text "Follower"
    then some State.follower
    else if str_eq text "Candidate"
    then some State.candidate
    else if str_eq text "Leader"
    then some State.leader
    else if str_eq text "PreCandidate"
    then some State.pre_candidate
    else none

-- Every role is read back from the text it is written as.
pub unmarshal_text-to_string : (s : State) → unmarshal_text (to_string s) ≡ some s
unfolding unmarshal_text to_string
unmarshal_text-to_string State.follower = refl
unmarshal_text-to_string State.candidate = refl
unmarshal_text-to_string State.leader = refl
unmarshal_text-to_string State.pre_candidate = refl

-- The four roles told apart by a test, Go's `==` on `State`.
abbrev pub is_follower : State → Bool
is_follower State.follower = true
is_follower _ = false

abbrev pub is_candidate : State → Bool
is_candidate State.candidate = true
is_candidate _ = false

abbrev pub is_leader : State → Bool
is_leader State.leader = true
is_leader _ = false

abbrev pub is_pre_candidate : State → Bool
is_pre_candidate State.pre_candidate = true
is_pre_candidate _ = false

-- `LogEntry`
pub record LogEntry : Type 0 where
  pub index : ℕ
  pub term : ℕ
  pub command : List ℕ

-- `HardState`: `voted_for` is empty when no vote was given.
pub record HardState : Type 0 where
  pub current_term : ℕ
  pub voted_for : NodeId

-- `SnapshotMeta`
pub record SnapshotMeta : Type 0 where
  pub last_included_index : ℕ
  pub last_included_term : ℕ

-- The fields of `PeerConfig` that the consensus code reads.
pub record PeerConfig : Type 0 where
  pub id : NodeId
  pub voter : Bool
  pub witness : Bool

-- The errors that the modelled code returns. What a `Storage` reports is its own text.
pub data Error : Type 0 where
  storage : String → Error
  not_in_log : ℕ → Error  -- "raft: log entry %d is not in the log"
  range_not_in_log : ℕ → ℕ → Error  -- "raft: log entries [%d,%d) are not in the log"
  unknown_write_kind : Error
  not_found : ℕ → Error  -- `ErrNotFound`, of an index
  range_not_found : ℕ → ℕ → Error  -- `ErrNotFound`, of a range
  compacted : ℕ → Error  -- `ErrCompacted`
  no_snapshot : Error  -- `ErrNoSnapshot`
  write_backlog_full : Error
  lease_expired : Error
  not_leader : NodeId → Error
  malformed : Error
  leadership_transfer_in_progress : Error
  unknown_transfer_target : NodeId → Error
  transfer_to_witness : NodeId → Error
  transfer_to_non_voter : NodeId → Error
  witness_mismatch : NodeId → Error
  config_change_in_progress : Error
  obsolete_seq_num : Error
  append_failed : Error → Error  -- "propose: append: %w"
  rejected : String → Error  -- what a state machine answers
  not_member : NodeId → Error  -- `ErrNotMember`
  invalid : String → Error  -- an error of its text alone
  past_log : (known_committed last : ℕ) → Error  -- "WithKnownCommitted(%d) is past the last index"
  discards_all : ℕ → Error  -- "DiscardUncommitted would discard the entire log"

pub data Result {ℓ} (A : Type ℓ) : Type ℓ where
  ok : A → Result A
  err : Error → Result A

infixl 5 ◌>>=◌
abbrev pub ◌>>=◌ {ℓ κ} : {A : Type ℓ} {B : Type κ} → Result A → (A → Result B) → Result B
ok a >>= f = f a
err e >>= f = err e

pub Result-cases {ℓ} :
    {A : Type ℓ} (r : Result A) → ((e : Error) × (r ≡ err e)) ⊎ ((a : A) × (r ≡ ok a))
Result-cases (ok a) = inr (a, refl)
Result-cases (err e) = inl (e, refl)
