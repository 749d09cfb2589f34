-- ===== src/RaftLog/Release.antt =====
-- `stabilize` of raft_log.go: the segments that a completed write releases are the oldest ones.
use raft.Prelude.{
  ℕ, ◌+◌, ◌-◌, ◌≤◌, leb, if◌then◌else◌, ◌≡◌, refl, ap, ◌∙◌, List, [], ◌∷◌, ◌++◌, arith, Bool-cases,
  inl, inr,
}
use mathlib.Core.List.{append_assoc}
use raft.Types.{LogEntry}
use raft.RaftLog.Segments.{UnstableSeg, command_bytes, release_written}
use raft.RaftLog.Unstable.{flat, Filled, command_bytes-append}

-- The entries of the segments that a write up to `seq` releases.
abbrev pub released : ℕ → List UnstableSeg → List LogEntry
released seq [] = []
released seq (s ∷ ss) =
    let rest = released seq ss in if leb s.seq seq then s.entries ++ rest else []

-- What is released, put before what is kept, is what was held; and the bytes follow.
pub release_written-Holds :
    (seq bytes : ℕ) (ss : List UnstableSeg)
    → Filled ss
    → command_bytes (flat ss) ≤ bytes
    → (released seq ss ++ flat (release_written seq ss bytes).0 ≡ flat ss)
      × (command_bytes (flat (release_written seq ss bytes).0) + bytes
          ≡ (release_written seq ss bytes).1 + command_bytes (flat ss))
      × Filled (release_written seq ss bytes).0
unfolding release_written
release_written-Holds seq bytes [] d k = (refl, omega arith, tt)
release_written-Holds seq bytes (s ∷ ss) d k =
    let sizes = command_bytes-append s.entries (flat ss) in
    let (held, size, filled) =
      release_written-Holds seq (bytes - command_bytes s.entries) ss d.1
        (omega (arith, sizes, k)) in
    elim (Bool-cases (leb s.seq seq)) [
      | inl gone ↦ rw gone (
        append_assoc s.entries (released seq ss) _ ∙ ap (λ x. s.entries ++ x) held,
        omega (arith, size, sizes, k),
        filled,
      )
      | inr kept ↦ rw kept (refl, omega arith, d)
    ]
