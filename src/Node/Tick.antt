-- ===== src/Node/Tick.antt =====
-- `tick` of node_loop.go: the clock of a node.
use raft.Prelude.{
  ℕ, zero, suc, ◌+◌, ltb, not, ◌&&◌, if◌then◌else◌, Bool, true, false, none, some, [], ◌∷◌, NodeId,
  id_eq,
}
use raft.Types.{is_leader}
use raft.Node.State.{Node}
use raft.Node.Writes.{reset_election_timeout}
use raft.Node.Reads.{no_acks, broadcast_read_barrier}
use raft.Node.Commit.{commit_quorum_acked}
use raft.Node.Replicate.{Disk, broadcast_heartbeat}
use raft.Node.Follower.{nobody, become_follower}
use raft.Node.Departures.{tick_departures}
use raft.Node.Transfer.{handle_leadership_transfer}
use raft.Node.Election.{trigger_election}

-- The heartbeat of a leader, and the barrier again for the reads that still wait.
unfoldable pub beat : Node → Node
unfolding broadcast_heartbeat broadcast_read_barrier
beat n =
    let told = broadcast_heartbeat (record n { heartbeat_elapsed = 0 }) in
    if ltb (n.heartbeat_elapsed + 1) n.cfg.heartbeat_ticks
    then record n { heartbeat_elapsed = n.heartbeat_elapsed + 1 }
    else if not told.leader_nop_committed
    then told
    else elim told.pending_reads [ [] ↦ told | r ∷ rs ↦ broadcast_read_barrier told ]

unfoldable pub age_departing : Node → Node
unfolding tick_departures
age_departing n = elim n.departing [ [] ↦ n | d ∷ ds ↦ tick_departures n ]

-- A transfer that its target does not take up is given up.
unfoldable pub age_transfer : Node → Node
age_transfer n =
    if id_eq n.transfer_target nobody
    then n
    else if ltb (n.transfer_elapsed + 1) n.election_timeout
    then record n { transfer_elapsed = n.transfer_elapsed + 1 }
    else record n { transfer_target = nobody; transfer_elapsed = 0 }

-- Check-quorum: a leader that has not heard from a quorum for an election timeout steps down.
unfoldable pub check_quorum : Node → Node
unfolding become_follower commit_quorum_acked
check_quorum n =
    let aged = record n { leader_quorum_elapsed = n.leader_quorum_elapsed + 1 } in
    let acks : NodeId → Bool = elim n.quorum_acks [ none ↦ no_acks | some a ↦ a ] in
    let has_peers : Bool = elim n.cfg.peers [ [] ↦ false | p ∷ ps ↦ true ] in
    if not (n.cfg.check_quorum && has_peers)
    then n
    else if ltb aged.leader_quorum_elapsed n.election_timeout
    then aged
    else if commit_quorum_acked aged acks
    then record aged { quorum_acks = some no_acks; leader_quorum_elapsed = 0 }
    else become_follower aged.current_term nobody aged

module _ (disk : Disk) where
  -- A leader that another node is preferred to hands over.
  unfoldable pub prefer_leader : Node → Node
  unfolding handle_leadership_transfer
  prefer_leader n =
      if not (id_eq n.cfg.preferred_leader nobody)
        && (not (id_eq n.cfg.preferred_leader n.cfg.id)
            && (id_eq n.transfer_target nobody && n.leader_nop_committed))
      then handle_leadership_transfer disk n.cfg.preferred_leader none n
      else n

  unfoldable pub leader_tick : Node → Node
  unfolding beat age_departing age_transfer prefer_leader check_quorum
  leader_tick n = check_quorum (prefer_leader (age_transfer (age_departing (beat n))))

  -- The clock of a node that waits for a leader, or for votes. A witness never stands.
  unfoldable pub waiting_tick : Node → Node
  unfolding reset_election_timeout trigger_election
  waiting_tick n =
      let aged = record n { election_elapsed = n.election_elapsed + 1 } in
      if not n.cfg.voter
      then n
      else if ltb aged.election_elapsed n.election_timeout
      then aged
      else if n.cfg.witness
      then record n { election_elapsed = n.election_timeout }
      else trigger_election disk (reset_election_timeout aged)

  -- `tick`
  unfoldable pub tick : Node → Node
  unfolding leader_tick waiting_tick
  tick n = if is_leader n.state then leader_tick n else waiting_tick n

  -- A number of ticks between which nothing else happens.
  unfoldable pub ticks : ℕ → Node → Node
  unfolding tick
  ticks zero n = n
  ticks (suc k) n = ticks k (tick n)
