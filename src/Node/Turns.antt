-- ===== src/Node/Turns.antt =====
-- Any number of turns of the loop, as they concern the term and the vote: the handlers of
-- node_election.go and node_transfer.go, handleAppendEntries and handleAppendResult of
-- node_replication.go, tick of node_loop.go, and the completed writes of node.go.
use raft.Prelude.{ℕ, ◌+◌, ◌<◌, true, List, [], ◌∷◌, ◌++◌, ◌≡◌, ◌≢◌, arith, u64_mod}
use raft.StorageWriter.Queue.{WriteDone}
use raft.Node.State.{Node, Channel, VoteRequest, AppendRequest}
use raft.Node.Replicate.{Disk}
use raft.Node.Follower.{nobody}
use raft.Node.Completions.{handle_write_completions}
use raft.Node.Election.{
  decide_vote, handle_request_vote, trigger_election, VoteResult, handle_vote_result,
  handle_timeout_now,
}
use raft.Node.Append.{handle_append_entries}
use raft.Node.AppendResults.{handle_append_result}
use raft.Node.Departures.{AppendResult}
use raft.Node.Tick.{tick}
use raft.Node.AnswerHard.{handle_append_result-Kept}
use raft.Node.TickHard.{trigger_election-Kept, tick-Kept}
use raft.Node.AppendHard.{handle_append_entries-Kept}
use raft.Node.HardState.{hard}
use raft.Node.HardWrites.{handle_write_completions-hard}
use raft.Node.Votes.{
  Kept, Kept-refl, Kept-trans, Kept-same, decide_vote-hard, handle_request_vote-Kept,
  handle_vote_result-Kept, handle_timeout_now-Kept,
}

-- The turns of the loop that touch the term or the vote, and the writes that the writer completes.
pub data Turn : Type 0 where
  vote_asked : VoteRequest → Channel → Turn
  vote_answered : VoteResult → Turn
  append_heard : AppendRequest → Channel → Turn
  told_to_stand : ℕ → Channel → Turn
  append_answered : AppendResult → Turn
  election_timed_out : Turn
  ticked : Turn
  write_completed : WriteDone → Turn
  writes_seen : Turn

module _ (disk : Disk) where
  unfoldable pub turn : Turn → Node → Node
  unfolding handle_request_vote handle_vote_result handle_timeout_now trigger_election
      handle_write_completions handle_append_entries handle_append_result tick
  turn (Turn.vote_asked req ch) n = handle_request_vote disk req ch n
  turn (Turn.vote_answered r) n = handle_vote_result disk r n
  turn (Turn.append_heard req ch) n = handle_append_entries disk req ch n
  turn (Turn.told_to_stand term ch) n = handle_timeout_now disk term ch n
  turn (Turn.append_answered r) n = handle_append_result disk r n
  turn Turn.ticked n = tick disk n
  turn Turn.election_timed_out n = trigger_election disk n
  turn (Turn.write_completed d) n = record n {
    log = record n.log { w = record n.log.w { done = n.log.w.done ++ d ∷ [] } };
  }
  turn Turn.writes_seen n = handle_write_completions disk n

  unfoldable pub turns : List Turn → Node → Node
  unfolding turn
  turns [] n = n
  turns (t ∷ ts) n = turns ts (turn t n)

  -- The term has a successor in 64 bits, and so has the term that a leader stands the node up with.
  abbrev pub Room : Turn → Node → Type 0
  Room (Turn.told_to_stand term ch) n = (n.current_term + 1 < u64_mod) × (term + 1 < u64_mod)
  Room _ n = n.current_term + 1 < u64_mod

  abbrev pub Rooms : List Turn → Node → Type 0
  Rooms [] n = Unit {0}
  Rooms (t ∷ ts) n = Room t n × Rooms ts (turn t n)

  turn-Kept : (t : Turn) (n : Node) → Room t n → Kept (hard n) (hard (turn t n))
  unfolding turn
  turn-Kept (Turn.vote_asked req ch) n h = handle_request_vote-Kept disk req ch n
  turn-Kept (Turn.vote_answered r) n h = handle_vote_result-Kept disk r n h
  turn-Kept (Turn.append_heard req ch) n h = handle_append_entries-Kept disk req ch n
  turn-Kept (Turn.told_to_stand term ch) n h = handle_timeout_now-Kept disk term ch n h.0 h.1
  turn-Kept (Turn.append_answered r) n h = handle_append_result-Kept disk r n
  turn-Kept Turn.ticked n h = tick-Kept disk n h
  turn-Kept Turn.election_timed_out n h = trigger_election-Kept disk n h
  turn-Kept (Turn.write_completed d) n h = Kept-refl (hard n)
  turn-Kept Turn.writes_seen n h =
      Kept-same (hard n) (hard (handle_write_completions disk n))
        (handle_write_completions-hard disk n)

  -- Over any turns that handle vote requests, vote answers, append requests and their answers,
  -- TimeoutNow, ticks, election timeouts and completed writes the term does not fall, and while it
  -- stays the same a vote that was given stays given, as long as the terms fit in 64 bits.
  pub turns-Kept : (ts : List Turn) (n : Node) → Rooms ts n → Kept (hard n) (hard (turns ts n))
  unfolding turns
  turns-Kept [] n h = Kept-refl (hard n)
  turns-Kept (t ∷ ts) n h =
      Kept-trans (hard n) (hard (turn t n)) (hard (turns ts (turn t n))) (turn-Kept t n h.0)
        (turns-Kept ts (turn t n) h.1)

  -- A node that grants a vote, and after any turns that handle vote requests, vote answers, append
  -- requests and their answers, TimeoutNow, ticks, election timeouts and completed writes grants one
  -- in the same term, grants both to the same candidate, whose name is not empty, as long as the
  -- terms fit in 64 bits.
  pub turns-one_vote :
      (req later : VoteRequest) (ts : List Turn) (n : Node)
      → Rooms ts (decide_vote req n).1
      → req.candidate_id ≢ nobody
      → (decide_vote req n).0 ≡ true
      → (decide_vote later (turns ts (decide_vote req n).1)).0 ≡ true
      → later.term ≡ req.term
      → later.candidate_id ≡ req.candidate_id
  turns-one_vote req later ts n room named first second same =
      let voted = (decide_vote req n).1 in
      let then' = turns ts voted in
      ground (
        arith,
        (decide_vote-hard req n).1 first,
        turns-Kept ts voted room,
        decide_vote-hard later then',
        (decide_vote-hard later then').1 second,
      )
