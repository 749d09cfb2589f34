-- ===== src/Node/HardState.antt =====
-- The hard state of a node, and the parts of a turn that leave it alone: everything but `saveTerm`.
use raft.Prelude.{ℕ, List, [], ◌∷◌, NodeId, ◌≡◌, refl, ◌∙◌, ap, arith}
use raft.Types.{Error, PeerConfig}
use raft.Node.State.{Node, Effect, Channel, Departure, emit, emit_on}
use raft.Node.Writes.{reset_election_timeout, maybe_record_commit, notify_apply}
use raft.Node.Reads.{drain_pending_reads}
use raft.Node.Commit.{maybe_advance_commit}
use raft.Node.Frame.{
  emit_on-frame, reset_election_timeout-frame, maybe_record_commit-frame, notify_apply-frame,
  drain_pending_reads-frame, maybe_advance_commit-frame,
}
use raft.Node.Replicate.{
  Disk, end_departure, send_snapshot_to_peer, send_batch, replicate_to_peer, replicate_to_all,
  replicate_to_departing, replicate_to_followers, heartbeat_all, heartbeat_departing,
  broadcast_heartbeat,
}

-- The term and the vote, as `saveTerm` writes them.
abbrev pub hard : Node → ℕ × NodeId
hard n = (n.current_term, n.voted_for)

pub emit_on-hard : (ch : Channel) (e : ℕ → Effect) (n : Node) → hard (emit_on ch e n) ≡ hard n
emit_on-hard ch e n = ap (λ k. (k.0, k.1)) (emit_on-frame ch e n)

pub reset_election_timeout-hard : (n : Node) → hard (reset_election_timeout n) ≡ hard n
reset_election_timeout-hard n = ap (λ k. (k.0, k.1)) (reset_election_timeout-frame n)

pub maybe_record_commit-hard : (n : Node) → hard (maybe_record_commit n) ≡ hard n
maybe_record_commit-hard n = ap (λ k. (k.0, k.1)) (maybe_record_commit-frame n)

pub notify_apply-hard : (n : Node) → hard (notify_apply n) ≡ hard n
notify_apply-hard n = ap (λ k. (k.0, k.1)) (notify_apply-frame n)

pub drain_pending_reads-hard : (e : Error) (n : Node) → hard (drain_pending_reads e n) ≡ hard n
drain_pending_reads-hard e n = ap (λ k. (k.0, k.1)) (drain_pending_reads-frame e n)

pub maybe_advance_commit-hard : (n : Node) → hard (maybe_advance_commit n) ≡ hard n
maybe_advance_commit-hard n = ap (λ k. (k.0, k.1)) (maybe_advance_commit-frame n)

module _ (disk : Disk) where
  send_snapshot_to_peer-hard :
      (peer : NodeId) (n : Node) → hard (send_snapshot_to_peer disk peer n) ≡ hard n
  unfolding send_snapshot_to_peer emit
  send_snapshot_to_peer-hard peer n = ground arith

  pub replicate_to_peer-hard :
      (peer : NodeId) (n : Node) → hard (replicate_to_peer disk peer n) ≡ hard n
  unfolding replicate_to_peer end_departure send_batch emit
  replicate_to_peer-hard peer n = ground (arith, send_snapshot_to_peer-hard peer n)

  replicate_to_all-hard :
      (ps : List PeerConfig) (n : Node) → hard (replicate_to_all disk ps n) ≡ hard n
  unfolding replicate_to_all
  replicate_to_all-hard [] n = refl
  replicate_to_all-hard (p ∷ ps) n =
      replicate_to_all-hard ps (replicate_to_peer disk p.id n) ∙ replicate_to_peer-hard p.id n

  replicate_to_departing-hard :
      (ds : List (NodeId × Departure)) (n : Node) → hard (replicate_to_departing disk ds n) ≡ hard n
  unfolding replicate_to_departing
  replicate_to_departing-hard [] n = refl
  replicate_to_departing-hard ((id, d) ∷ ds) n =
      replicate_to_departing-hard ds (replicate_to_peer disk id n) ∙ replicate_to_peer-hard id n

  pub replicate_to_followers-hard : (n : Node) → hard (replicate_to_followers disk n) ≡ hard n
  unfolding replicate_to_followers
  replicate_to_followers-hard n =
      let sent = replicate_to_all disk n.cfg.peers n in
      replicate_to_departing-hard sent.departing sent ∙ replicate_to_all-hard n.cfg.peers n

heartbeat_all-hard : (ps : List PeerConfig) (n : Node) → hard (heartbeat_all ps n) ≡ hard n
unfolding heartbeat_all emit
heartbeat_all-hard [] n = refl
heartbeat_all-hard (p ∷ ps) n = heartbeat_all-hard ps _

heartbeat_departing-hard :
    (ds : List (NodeId × Departure)) (n : Node) → hard (heartbeat_departing ds n) ≡ hard n
unfolding heartbeat_departing emit
heartbeat_departing-hard [] n = refl
heartbeat_departing-hard ((id, d) ∷ ds) n = heartbeat_departing-hard ds _

pub broadcast_heartbeat-hard : (n : Node) → hard (broadcast_heartbeat n) ≡ hard n
unfolding broadcast_heartbeat
broadcast_heartbeat-hard n =
    heartbeat_departing-hard n.departing (heartbeat_all n.cfg.peers n)
    ∙ heartbeat_all-hard n.cfg.peers n
