-- ===== src/Node/Replicate.antt =====
-- What a leader sends: `capByBytes`, `replicateToPeer`, `replicateToFollowers` and
-- `broadcastHeartbeat` of node_replication.go, `stripForWitness` of node.go.
use raft.Prelude.{
  ℕ, ◌+◌, ltb, leb, ◌==◌, not, ◌||◌, if◌then◌else◌, Bool, true, false, add64, sub64, Option, none,
  some, List, [], ◌∷◌, length, take, NodeId, id_eq, update,
}
use raft.Types.{LogEntry, PeerConfig, Result, ok, err}
use raft.ConfigEntry.Defs.{is_config_entry}
use raft.RaftLog.Defs.{term_at, term_or_zero, can_describe, last_log_index, entries}
use raft.Node.State.{Node, AppendRequest, Departure, Effect, emit}
use raft.Node.Reads.{empty_append}

-- The loop of `capByBytes`: `first` holds before the first entry, which is always kept.
unfoldable pub cap_from : (first : Bool) → (total budget : ℕ) → List LogEntry → List LogEntry
cap_from first total budget [] = []
cap_from first total budget (e ∷ es) =
    let sum = total + length e.command in
    let rest = cap_from false sum budget es in
    if ltb budget sum then (if first then e ∷ [] else []) else e ∷ rest

-- `capByBytes`; a budget of 0 is none.
unfoldable pub cap_by_bytes : List LogEntry → ℕ → List LogEntry
unfolding cap_from
cap_by_bytes es budget = if budget == 0 then es else cap_from true 0 budget es

-- `stripForWitness`
unfoldable pub strip_entry : LogEntry → LogEntry
strip_entry e = if is_config_entry e.command then e else record e { command = [] }

unfoldable pub strip_for_witness : List LogEntry → List LogEntry
unfolding strip_entry
strip_for_witness [] = []
strip_for_witness (e ∷ es) = strip_entry e ∷ strip_for_witness es

-- `isWitnessPeer`
unfoldable pub is_witness_peer : List PeerConfig → NodeId → Bool
is_witness_peer [] id = false
is_witness_peer (p ∷ ps) id = if id_eq p.id id then p.witness else is_witness_peer ps id

-- The commit index that a departing peer must be told of.
unfoldable pub departing_index : NodeId → List (NodeId × Departure) → Option ℕ
departing_index id [] = none
departing_index id ((peer, d) ∷ ds) = if id_eq peer id then some d.index else departing_index id ds

unfoldable pub without_departing : NodeId → List (NodeId × Departure) → List (NodeId × Departure)
without_departing id [] = []
without_departing id ((peer, d) ∷ ds) =
    let rest = without_departing id ds in if id_eq peer id then rest else (peer, d) ∷ rest

-- `endDeparture`
unfoldable pub end_departure : NodeId → Node → Node
unfolding without_departing emit
end_departure peer n = emit (Effect.stop_heartbeat_pump peer) (record n {
  departing = without_departing peer n.departing;
  next_index = update n.next_index peer 0;
  match_index = update n.match_index peer 0;
  inflight = update n.inflight peer 0;
  snapshot_inflight = update n.snapshot_inflight peer false;
  peer_down = update n.peer_down peer false;
  peer_failures = update n.peer_failures peer 0;
})

-- What the modelled code is told by its storage: the entries of a range of the log, and whether a
-- snapshot can be loaded, and stripped for a witness, to be sent to a peer.
pub record Disk : Type 0 where
  pub get_log_entries : ℕ → ℕ → Result (List LogEntry)
  pub snapshot_loads : NodeId → Bool

-- `sendSnapshotToPeer` up to the transfer, which runs in a goroutine of its own.
unfoldable pub send_snapshot_to_peer : Disk → NodeId → Node → Node
unfolding emit
send_snapshot_to_peer disk peer n =
    if n.snapshot_inflight peer || not (disk.snapshot_loads peer)
    then n
    else emit (Effect.send_snapshot peer)
        (record n { snapshot_inflight = update n.snapshot_inflight peer true })

module _ (disk : Disk) where
  -- The entries of one request to a peer; an error is logged and nothing is sent.
  unfoldable pub batch_for : Node → NodeId → ℕ → Result (List LogEntry)
  unfolding cap_by_bytes strip_for_witness is_witness_peer
  batch_for n peer next =
      let last = last_log_index n.log in
      if ltb last next
      then ok []
      else elim (entries disk.get_log_entries n.log next (add64 last 1)) [
        | err e ↦ err e
        | ok es ↦
            let few = take n.cfg.max_log_entries_per_rpc es in
            let shaped = if is_witness_peer n.cfg.peers peer then strip_for_witness few else few in
            ok (cap_by_bytes shaped n.cfg.max_bytes_per_rpc)
      ]

  -- The request itself, which counts as in flight.
  unfoldable pub send_batch : NodeId → ℕ → List LogEntry → Node → Node
  unfolding emit
  send_batch peer prev es n =
      let req : AppendRequest = record {
        term = n.current_term;
        leader_id = n.cfg.id;
        prev_log_index = prev;
        prev_log_term = term_or_zero (term_at n.log prev);
        entries = es;
        leader_commit = n.commit_index;
        read_barrier = 0;
      } in
      emit (Effect.send_append peer req)
        (record n { inflight = update n.inflight peer (n.inflight peer + 1) })

  -- `replicateToPeer`
  unfoldable pub replicate_to_peer : NodeId → Node → Node
  unfolding batch_for send_batch end_departure departing_index send_snapshot_to_peer
  replicate_to_peer peer n =
      let next = n.next_index peer in
      let prev = sub64 next 1 in
      if not (can_describe n.log prev)
      then elim (departing_index peer n.departing) [
        | some index ↦ end_departure peer n
        | none ↦ send_snapshot_to_peer disk peer n
      ]
      else if leb n.cfg.max_inflight_rpcs (n.inflight peer)
      then n
      else elim (batch_for n peer next) [ err e ↦ n | ok es ↦ send_batch peer prev es n ]

  -- `replicateToFollowers`: the peers, then those on their way out.
  unfoldable pub replicate_to_all : List PeerConfig → Node → Node
  replicate_to_all [] n = n
  replicate_to_all (p ∷ ps) n = replicate_to_all ps (replicate_to_peer p.id n)

  unfoldable pub replicate_to_departing : List (NodeId × Departure) → Node → Node
  replicate_to_departing [] n = n
  replicate_to_departing ((id, d) ∷ ds) n = replicate_to_departing ds (replicate_to_peer id n)

  unfoldable pub replicate_to_followers : Node → Node
  unfolding replicate_to_all replicate_to_departing
  replicate_to_followers n =
      let sent = replicate_to_all n.cfg.peers n in replicate_to_departing sent.departing sent

-- `heartbeatPeer` and `broadcastHeartbeat`
unfoldable pub heartbeat_all : List PeerConfig → Node → Node
unfolding emit
heartbeat_all [] n = n
heartbeat_all (p ∷ ps) n =
    heartbeat_all ps (emit (Effect.queue_heartbeat p.id (empty_append n p.id 0)) n)

unfoldable pub heartbeat_departing : List (NodeId × Departure) → Node → Node
unfolding emit
heartbeat_departing [] n = n
heartbeat_departing ((id, d) ∷ ds) n =
    heartbeat_departing ds (emit (Effect.queue_heartbeat id (empty_append n id 0)) n)

unfoldable pub broadcast_heartbeat : Node → Node
unfolding heartbeat_all heartbeat_departing
broadcast_heartbeat n = heartbeat_departing n.departing (heartbeat_all n.cfg.peers n)
