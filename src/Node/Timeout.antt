-- ===== src/Node/Timeout.antt =====
-- A node that hears nothing stands for election in time.
use raft.Prelude.{
  ℕ, zero, suc, ◌+◌, ◌-◌, ◌<◌, ltb, if◌then◌else◌, if_true, if_false, not, true, false, ◌≡◌, refl,
  ap, ◌∙◌, sym, subst, ◌==◌, List, [], ◌∷◌, ◌++◌, arith, add64, Bool-cases, inl, inr,
}
use mathlib.Core.List.{append-nil, append_assoc}
use raft.Types.{State, PeerConfig, is_leader, is_candidate}
use raft.RaftLog.Defs.{last_log_index}
use raft.Node.State.{Node, Effect, VoteRequest, emit}
use raft.Node.Writes.{reset_election_timeout}
use raft.Node.Reads.{is_single_voter}
use raft.Node.Replicate.{Disk}
use raft.Node.Follower.{ask_votes, broadcast_request_vote, stand_for_pre_vote, forget_votes}
use raft.Node.Transitions.{become_pre_candidate}
use raft.Node.Election.{trigger_election}
use raft.Node.HardTurns.{broadcast_request_vote-hard}
use raft.Node.Tick.{tick, ticks, waiting_tick}

-- The request for a pre-vote, which asks about the next term.
abbrev pub pre_vote_request : Node → VoteRequest
pre_vote_request n = record {
  term = add64 n.current_term 1;
  candidate_id = n.cfg.id;
  last_log_index = last_log_index n.log;
  last_log_term = n.log.last_term;
  pre_vote = true;
}

-- The requests that a candidate sends: one to each voter among its peers.
abbrev pub requests : List PeerConfig → VoteRequest → List Effect
requests [] req = []
requests (p ∷ ps) req =
    let rest = requests ps req in if p.voter then Effect.send_vote_request p.id req ∷ rest else rest

ask_votes-requests :
    (ps : List PeerConfig) (req : VoteRequest) (n : Node)
    → ((ask_votes ps req n).effects ≡ n.effects ++ requests ps req)
      × ((ask_votes ps req n).state ≡ n.state)
unfolding ask_votes emit
ask_votes-requests [] req n = (sym (append-nil n.effects), refl)
ask_votes-requests (p ∷ ps) req n =
    let rest =
      ask_votes-requests ps req
        (if p.voter then emit (Effect.send_vote_request p.id req) n else n) in
    elim (Bool-cases p.voter) [
      | inl h ↦
          rw (h, ask_votes)
            (
              (ask_votes-requests ps req (emit (Effect.send_vote_request p.id req) n)).0
                  ∙ append_assoc n.effects (Effect.send_vote_request p.id req ∷ [])
                      (requests ps req),
              (ask_votes-requests ps req (emit (Effect.send_vote_request p.id req) n)).1,
            )
      | inr h ↦ rw (h, ask_votes) (ask_votes-requests ps req n)
    ]

-- Where the clock runs out: the node as it stands for election.
abbrev timed_out : Node → Node
timed_out n = reset_election_timeout (record n { election_elapsed = n.election_timeout })

-- A node that waits, and may stand.
abbrev pub MayStand : Node → Type 0
MayStand n = (is_leader n.state ≡ false) × (n.cfg.voter ≡ true) × (n.cfg.witness ≡ false)

-- A pre-candidate that has asked every voter among its peers.
abbrev pub Standing : Node → Node → Type 0
Standing n m =
    (m.state ≡ State.pre_candidate)
    × (m.current_term ≡ n.current_term)
    × (m.effects ≡ n.effects ++ requests n.cfg.peers (pre_vote_request n))

spanned : (span : ℕ) → 0 < span → (if span == 0 then 1 else span) ≡ span
spanned span h = ground arith

module _ (disk : Disk) where
  trigger_election-Standing :
      (n : Node)
      → is_candidate n.state ≡ false
      → is_single_voter n ≡ false
      → Standing n (trigger_election disk n)
  unfolding trigger_election become_pre_candidate broadcast_request_vote stand_for_pre_vote
      forget_votes reset_election_timeout is_single_voter
  trigger_election-Standing n role group =
      let standing = stand_for_pre_vote n in
      let asked = ask_votes-requests n.cfg.peers (pre_vote_request n) standing in
      let goes : trigger_election disk n ≡ broadcast_request_vote true standing =
        if_false (is_candidate n.state) _ (become_pre_candidate disk n) role
        ∙ if_false (is_single_voter n) _ _ group in
      subst (Standing n) (sym goes)
        (asked.1, ap (λ h. h.0) (broadcast_request_vote-hard true standing), asked.0)

  tick-waits :
      (n : Node)
      → MayStand n
      → n.election_elapsed + 1 < n.election_timeout
      → tick disk n ≡ record n { election_elapsed = n.election_elapsed + 1 }
  unfolding tick waiting_tick
  tick-waits n (role, votes, full) h =
      let early : ltb (n.election_elapsed + 1) n.election_timeout ≡ true = ground arith in
      if_false (is_leader n.state) _ (waiting_tick disk n) role
      ∙ if_false (not n.cfg.voter) n _ (ap not votes)
      ∙ if_true (ltb (n.election_elapsed + 1) n.election_timeout) _ _ early

  tick-stands :
      (n : Node)
      → MayStand n
      → n.election_elapsed + 1 ≡ n.election_timeout
      → tick disk n ≡ trigger_election disk (timed_out n)
  unfolding tick waiting_tick
  tick-stands n (role, votes, full) h =
      let late : ltb (n.election_elapsed + 1) n.election_timeout ≡ false = ground arith in
      if_false (is_leader n.state) _ (waiting_tick disk n) role
      ∙ if_false (not n.cfg.voter) n _ (ap not votes)
      ∙ if_false (ltb (n.election_elapsed + 1) n.election_timeout) _ _ late
      ∙ if_false n.cfg.witness _ _ full
      ∙ ap (λ e. trigger_election disk (reset_election_timeout (record n { election_elapsed = e })))
          h

  -- The ticks before the timeout only move the clock; the one at it starts an election.
  ticks-stands :
      (k : ℕ) (n : Node)
      → MayStand n
      → n.election_elapsed + suc k ≡ n.election_timeout
      → ticks disk (suc k) n ≡ trigger_election disk (timed_out n)
  unfolding ticks
  ticks-stands zero n may h = tick-stands n may (omega (arith, h))
  ticks-stands (suc k) n may h =
      ap (ticks disk (suc k)) (tick-waits n may (omega (arith, h)))
      ∙ ticks-stands k (record n { election_elapsed = n.election_elapsed + 1 }) may
          (omega (arith, h))

  -- A voter that has just reset its clock, stands for nothing and leads nothing, is no witness and not
  -- the only voter, and hears nothing any more, asks for pre-votes before `electionMaxTicks` ticks
  -- have passed: it is a pre-candidate then, in the same term, and has sent its request to every
  -- voter of its configuration. The random generator returns a number below its bound.
  pub ticks-pre_candidate :
      (n : Node)
      → MayStand n
      → is_candidate n.state ≡ false
      → is_single_voter n ≡ false
      → 0 < n.cfg.election_min_ticks
      → n.cfg.election_min_ticks < n.cfg.election_max_ticks
      → ((k span : ℕ) → 0 < span → n.cfg.int_n k span < span)
      → (k : ℕ) × (k < n.cfg.election_max_ticks)
        × Standing n (ticks disk k (reset_election_timeout n))
  unfolding reset_election_timeout is_single_voter
  ticks-pre_candidate n may role group low high random =
      let span = n.cfg.election_max_ticks - n.cfg.election_min_ticks in
      let drawn = n.cfg.int_n n.draws (if span == 0 then 1 else span) in
      let small : drawn < span =
        rw (spanned span (omega arith)) (random n.draws span (omega arith)) in
      let k = n.cfg.election_min_ticks + drawn - 1 in
      let reset = reset_election_timeout n in
      (
        suc k,
        omega arith,
        subst (Standing n) (sym (ticks-stands k reset may (omega arith)))
            (trigger_election-Standing (timed_out reset) role group),
      )
