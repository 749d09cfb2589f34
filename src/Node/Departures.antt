-- ===== src/Node/Departures.antt =====
-- node_membership.go: the peers that a leader has removed and is still telling so. The order in which
-- a Go map is walked is not fixed; here it is that of the list.
use raft.Prelude.{
  ℕ, ◌+◌, ◌*◌, ltb, leb, ◌&&◌, ◌||◌, if◌then◌else◌, Bool, add64, List, [], ◌∷◌, NodeId, update,
}
use raft.Types.{LogEntry, is_leader}
use raft.RaftLog.Defs.{last_log_index}
use raft.RaftLog.Segments.{last_entry}
use raft.Node.State.{Node, AppendRequest, Departure}
use raft.Node.Replicate.{Disk, without_departing, end_departure, replicate_to_peer}

-- `appendResult`
pub record AppendResult : Type 0 where
  pub peer : NodeId
  pub term : ℕ
  pub success : Bool
  pub req : AppendRequest
  pub conflict_index : ℕ
  pub conflict_term : ℕ
  pub dropped : Bool

-- The index that the entries of an accepted request end at, as the progress of a departing peer.
unfoldable pub departing_progress : NodeId → List LogEntry → Node → Node
departing_progress peer [] n = n
departing_progress peer (e ∷ es) n =
    let last = (last_entry e es).index in
    if ltb (n.match_index peer) last
    then record n {
      match_index = update n.match_index peer last;
      next_index = update n.next_index peer (add64 last 1);
    }
    else n

-- `departureGraceTicks`
abbrev pub departure_grace_ticks : ℕ
departure_grace_ticks = 4

module _ (disk : Disk) where
  -- `beginDeparture`
  unfoldable pub begin_departure : NodeId → ℕ → Node → Node
  unfolding without_departing replicate_to_peer
  begin_departure peer index n =
      if is_leader n.state
      then replicate_to_peer disk peer (record n {
        departing =
            (peer, record { index = index; elapsed = 0 }) ∷ without_departing peer n.departing;
      })
      else n

  -- `departingPeer` for a peer whose departure `index` is known.
  unfoldable pub tell_departing : AppendResult → ℕ → Node → Node
  unfolding end_departure departing_progress replicate_to_peer
  tell_departing r index n =
      let moved = if r.success then departing_progress r.peer r.req.entries n else n in
      if r.success && leb index r.req.leader_commit
      then end_departure r.peer n
      else if leb (moved.next_index r.peer) (last_log_index moved.log)
          || leb index moved.commit_index
      then replicate_to_peer disk r.peer moved
      else moved

-- `tickDepartures`, over the departures that are left, of which it gives up on the old ones.
unfoldable pub age_departures : List (NodeId × Departure) → Node → Node
unfolding end_departure without_departing
age_departures [] n = n
age_departures ((peer, d) ∷ ds) n =
    let aged = record d { elapsed = d.elapsed + 1 } in
    age_departures ds (
      if ltb aged.elapsed (departure_grace_ticks * n.cfg.election_max_ticks)
      then record n { departing = (peer, aged) ∷ without_departing peer n.departing }
      else end_departure peer n)

unfoldable pub tick_departures : Node → Node
unfolding age_departures
tick_departures n = age_departures n.departing n
