-- ===== src/Node/TickHard.antt =====
-- What the clock leaves of the term and the vote: `tick` of node_loop.go.
use raft.Prelude.{
  ℕ, ◌+◌, ltb, not, ◌&&◌, ◌<◌, if-cases, Bool, true, false, none, some, Option-cases, inl, inr,
  List, [], ◌∷◌, NodeId, id_eq, u64_mod, ◌≡◌, refl, ap, ◌∙◌, subst, arith,
}
use raft.Types.{is_leader, is_candidate}
use raft.Node.State.{emit_on, Node, Channel, Effect, Departure}
use raft.Node.Writes.{reset_election_timeout}
use raft.Node.Follower.{nobody, become_follower}
use raft.Node.Reads.{no_acks, broadcast_read_barrier}
use raft.Node.Commit.{commit_quorum_acked}
use raft.Node.Replicate.{Disk, broadcast_heartbeat, end_departure}
use raft.Node.Departures.{age_departures, tick_departures}
use raft.Node.Transfer.{
  transfer_refused, handle_leadership_transfer, begin_transfer, send_timeout_now,
}
use raft.Node.Tick.{
  beat, age_departing, age_transfer, check_quorum, prefer_leader, leader_tick, waiting_tick, tick,
}
use raft.Node.Election.{trigger_election}
use raft.Node.HardState.{
  hard, emit_on-hard, replicate_to_peer-hard, broadcast_heartbeat-hard, reset_election_timeout-hard,
}
use raft.Node.Frame.{broadcast_read_barrier-frame}
use raft.Node.Votes.{
  Kept, Kept-refl, become_follower-Kept, become_candidate-Kept, become_pre_candidate-Kept,
}

beat-hard : (n : Node) → hard (beat n) ≡ hard n
unfolding beat
beat-hard n =
    let restarted = record n { heartbeat_elapsed = 0 } in
    let told = broadcast_heartbeat restarted in
    let barrier : hard (broadcast_read_barrier told) ≡ hard told =
      ap (λ k. (k.0, k.1)) (broadcast_read_barrier-frame told) in
    ground (arith, broadcast_heartbeat-hard restarted, barrier)

age_departures-hard :
    (ds : List (NodeId × Departure)) (n : Node) → hard (age_departures ds n) ≡ hard n
unfolding age_departures end_departure
age_departures-hard [] n = refl
age_departures-hard ((peer, d) ∷ ds) n = age_departures-hard ds _ ∙ ground arith

age_departing-hard : (n : Node) → hard (age_departing n) ≡ hard n
unfolding age_departing tick_departures
age_departing-hard n = ground (arith, age_departures-hard n.departing n)

age_transfer-hard : (n : Node) → hard (age_transfer n) ≡ hard n
unfolding age_transfer
age_transfer-hard n = ground arith

check_quorum-Kept : (n : Node) → Kept (hard n) (hard (check_quorum n))
unfolding check_quorum
check_quorum-Kept n =
    let aged = record n { leader_quorum_elapsed = n.leader_quorum_elapsed + 1 } in
    let has_peers : Bool = elim n.cfg.peers [ [] ↦ false | p ∷ ps ↦ true ] in
    if-cases (λ (m : Node). Kept (hard n) (hard m)) (not (n.cfg.check_quorum && has_peers)) n _
      (λ off. Kept-refl (hard n))
      (λ on.
        if-cases (λ (m : Node). Kept (hard n) (hard m))
          (ltb aged.leader_quorum_elapsed n.election_timeout) aged _ (λ early. Kept-refl (hard n))
          (λ due.
            if-cases (λ (m : Node). Kept (hard n) (hard m))
              (commit_quorum_acked aged (elim n.quorum_acks [ none ↦ no_acks | some a ↦ a ])) _
              (become_follower aged.current_term nobody aged) (λ heard. Kept-refl (hard n))
              (λ silent. become_follower-Kept aged.current_term nobody aged)))

module _ (disk : Disk) where
  begin_transfer-hard : (target : NodeId) (n : Node) → hard (begin_transfer disk target n) ≡ hard n
  unfolding begin_transfer send_timeout_now
  begin_transfer-hard target n = ground (arith, replicate_to_peer-hard disk target n)

  handle_leadership_transfer-hard :
      (target : NodeId) (ch : Channel) (n : Node)
      → hard (handle_leadership_transfer disk target ch n) ≡ hard n
  unfolding handle_leadership_transfer
  handle_leadership_transfer-hard target ch n = elim (Option-cases (transfer_refused target n)) [
    | inl granted ↦
        let aimed = record n { transfer_target = target; transfer_elapsed = 0 } in
        let told = emit_on ch (λ c. Effect.answer_transfer c none) aimed in
        rw (granted, handle_leadership_transfer)
          (begin_transfer-hard target told
            ∙ emit_on-hard ch (λ c. Effect.answer_transfer c none) aimed)
    | inr (e, refused) ↦
        rw (refused, handle_leadership_transfer)
          (emit_on-hard ch (λ c. Effect.answer_transfer c (some e)) n)
  ]

  prefer_leader-hard : (n : Node) → hard (prefer_leader disk n) ≡ hard n
  unfolding prefer_leader
  prefer_leader-hard n =
      if-cases (λ (m : Node). hard m ≡ hard n)
        (not (id_eq n.cfg.preferred_leader nobody)
          && (not (id_eq n.cfg.preferred_leader n.cfg.id)
              && (id_eq n.transfer_target nobody && n.leader_nop_committed)))
        (handle_leadership_transfer disk n.cfg.preferred_leader none n) n
        (λ hands_over. handle_leadership_transfer-hard n.cfg.preferred_leader none n)
        (λ stays. refl)

  leader_tick-Kept : (n : Node) → Kept (hard n) (hard (leader_tick disk n))
  unfolding leader_tick
  leader_tick-Kept n =
      let aged = age_transfer (age_departing (beat n)) in
      let same : hard (prefer_leader disk aged) ≡ hard n =
        prefer_leader-hard aged
        ∙ age_transfer-hard (age_departing (beat n))
        ∙ age_departing-hard (beat n)
        ∙ beat-hard n in
      subst (λ h. Kept h (hard (check_quorum (prefer_leader disk aged)))) same
        (check_quorum-Kept (prefer_leader disk aged))

  pub trigger_election-Kept :
      (n : Node) → n.current_term + 1 < u64_mod → Kept (hard n) (hard (trigger_election disk n))
  unfolding trigger_election
  trigger_election-Kept n h =
      if-cases (λ m. Kept (hard n) (hard m)) (is_candidate n.state) _ _
        (λ c. become_candidate-Kept disk n h) (λ c. become_pre_candidate-Kept disk n h)

  waiting_tick-Kept :
      (n : Node) → n.current_term + 1 < u64_mod → Kept (hard n) (hard (waiting_tick disk n))
  unfolding waiting_tick
  waiting_tick-Kept n room =
      let aged = record n { election_elapsed = n.election_elapsed + 1 } in
      if-cases (λ (m : Node). Kept (hard n) (hard m)) (not n.cfg.voter) n _
        (λ watches. Kept-refl (hard n))
        (λ votes.
          if-cases (λ (m : Node). Kept (hard n) (hard m))
            (ltb aged.election_elapsed n.election_timeout) aged _ (λ early. Kept-refl (hard n))
            (λ due.
              if-cases (λ (m : Node). Kept (hard n) (hard m)) n.cfg.witness _
                (trigger_election disk (reset_election_timeout aged)) (λ never. Kept-refl (hard n))
                (λ stands.
                  let again = reset_election_timeout aged in
                  let same = reset_election_timeout-hard aged in
                  subst (λ h. Kept h (hard (trigger_election disk again))) same
                    (trigger_election-Kept again
                      (omega (arith, room, ap (λ (h : ℕ × NodeId). h.0) same))))))

  pub tick-Kept : (n : Node) → n.current_term + 1 < u64_mod → Kept (hard n) (hard (tick disk n))
  unfolding tick
  tick-Kept n room =
      if-cases (λ (m : Node). Kept (hard n) (hard m)) (is_leader n.state) (leader_tick disk n)
        (waiting_tick disk n) (λ leads. leader_tick-Kept n) (λ waits. waiting_tick-Kept n room)
