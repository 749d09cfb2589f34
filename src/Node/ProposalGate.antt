-- ===== src/Node/ProposalGate.antt =====
-- What `handleProposals` lets through: no proposals without leadership, and one configuration change at
-- a time; and the two entries of its own that it puts at one index.
use raft.Prelude.{
  ℕ, ◌+◌, ◌≤◌, ◌<◌, ◌==◌, not, if◌then◌else◌, if_true, if_false, true, false, ◌≡◌, ap, ◌∙◌, sym,
  ◌⊎◌, inl, inr, List, [], ◌∷◌, ◌++◌, length, length-append, count, u64_mod, add64, arith, id_eq,
}
use mathlib.Core.List.{append-nil, append_assoc}
use raft.Types.{LogEntry, Error, is_leader, not_leader, leadership_transfer_in_progress}
use raft.ConfigEntry.Defs.{
  is_config_entry, encode_client_table_cap_entry, encode_commit_quorum_entry,
}
use raft.RaftLog.Defs.{last_log_index}
use raft.Node.State.{Node, Effect, emit}
use raft.Node.Replicate.{Disk}
use raft.Node.Follower.{nobody}
use raft.Node.Propose.{
  Proposal, Batch, next_entry, cap_due, quorum_due, add_cap_entry, add_quorum_entry, offer,
  take_proposal, answer_now, offer_all, put_together, reject_all, handle_proposals,
}
use raft.Node.ProposalOrder.{empty_batch}

-- The rejections of a list of proposals, in their order.
abbrev pub rejections : List Proposal → Error → List Effect
rejections [] e = []
rejections (p ∷ ps) e = Effect.reject_proposal p.promise e ∷ rejections ps e

reject_all-rejections :
    (ps : List Proposal) (e : Error) (n : Node)
    → reject_all ps e n ≡ record n { effects = n.effects ++ rejections ps e }
unfolding reject_all emit
reject_all-rejections [] e n = ap (λ es. record n { effects = es }) (sym (append-nil n.effects))
reject_all-rejections (p ∷ ps) e n =
    reject_all-rejections ps e (emit (Effect.reject_proposal p.promise e) n)
    ∙ ap (λ es. record n { effects = es })
        (append_assoc n.effects (Effect.reject_proposal p.promise e ∷ []) (rejections ps e))

-- The error with which a node turns every proposal away: it does not lead, or it is handing over.
abbrev pub TurnedAway : Node → Error → Type 0
TurnedAway n e =
    ((is_leader n.state ≡ false) × (e ≡ not_leader n.leader_id))
    ⊎ ((is_leader n.state ≡ true)
        × (id_eq n.transfer_target nobody ≡ false)
        × (e ≡ leadership_transfer_in_progress))

-- A node that does not lead, or is handing its leadership over, rejects every proposal, in their
-- order, with the error that says so and names the leader it knows; nothing else of it changes, and
-- nothing is put in its log.
pub handle_proposals-TurnedAway :
    (disk : Disk) (ps : List Proposal) (n : Node) (e : Error)
    → TurnedAway n e
    → handle_proposals disk ps n ≡ record n { effects = n.effects ++ rejections ps e }
unfolding handle_proposals
handle_proposals-TurnedAway disk ps n e (inl (role, same)) =
    if_true (not (is_leader n.state)) _ _ (ap not role)
    ∙ reject_all-rejections ps (not_leader n.leader_id) n
    ∙ ap (λ x. record n { effects = n.effects ++ rejections ps x }) (sym same)
handle_proposals-TurnedAway disk ps n e (inr (role, busy, same)) =
    if_false (not (is_leader n.state)) _ _ (ap not role)
    ∙ if_true (not (id_eq n.transfer_target nobody)) _ _ (ap not busy)
    ∙ reject_all-rejections ps leadership_transfer_in_progress n
    ∙ ap (λ x. record n { effects = n.effects ++ rejections ps x }) (sym same)

-- How many of the entries change the configuration.
abbrev pub changes : List LogEntry → ℕ
changes es = count (λ e. is_config_entry e.command) es

count-snoc :
    (es : List LogEntry) (e : LogEntry)
    → changes (es ++ e ∷ []) ≡ changes es + (if is_config_entry e.command then 1 else 0)
count-snoc [] e = ground arith
count-snoc (x ∷ es) e = ground (arith, count-snoc es e)

-- Room for the entries of a batch and the proposals that are left.
abbrev pub RoomFor : ℕ → Batch → Type 0
RoomFor more b = last_log_index b.node.log + length b.entries + more + 1 < u64_mod

-- One proposal adds one change at the most, none while a change is pending, and then one is.
offer-changes :
    (more : ℕ) (p : Proposal) (b : Batch)
    → RoomFor (more + 1) b
    → RoomFor more (offer p b)
      × (changes (offer p b).entries + (if (offer p b).node.pending_config_index == 0 then 1 else 0)
          ≤ changes b.entries + (if b.node.pending_config_index == 0 then 1 else 0))
unfolding offer answer_now emit take_proposal next_entry
offer-changes more p b room = ground (
  arith,
  room,
  length-append b.entries (next_entry p.cmd b ∷ []),
  count-snoc b.entries (next_entry p.cmd b),
)

offer_all-changes :
    (ps : List Proposal) (b : Batch)
    → RoomFor (length ps) b
    → changes (offer_all ps b).entries
      ≤ changes b.entries + (if b.node.pending_config_index == 0 then 1 else 0)
unfolding offer_all
offer_all-changes [] b room = omega arith
offer_all-changes (p ∷ ps) b room =
    let step = offer-changes (length ps) p b (omega (arith, room)) in
    omega (arith, step.1, offer_all-changes ps (offer p b) step.0)

own_entries-changes :
    (ps : List Proposal) (n : Node)
    → RoomFor (length ps + 2) (empty_batch n)
    → RoomFor (length ps) (add_quorum_entry (add_cap_entry ps (empty_batch n)))
      × (changes (add_quorum_entry (add_cap_entry ps (empty_batch n))).entries
            + (if (add_quorum_entry (add_cap_entry ps (empty_batch n))).node.pending_config_index
                  == 0
                then 1
                else 0)
          ≤ (if cap_due ps n then 1 else 0) + (if n.pending_config_index == 0 then 1 else 0))
unfolding add_quorum_entry add_cap_entry next_entry quorum_due
own_entries-changes ps n room = ground (arith, room)

-- A batch brings one change of the configuration at the most, the leader's own commit quorum
-- included, and none while a change is pending; the bound on the client table, where it is due, comes
-- on top. The indices fit in 64 bits.
pub put_together-changes :
    (ps : List Proposal) (n : Node)
    → last_log_index n.log + length ps + 3 < u64_mod
    → changes (put_together ps n).entries
      ≤ (if cap_due ps n then 1 else 0) + (if n.pending_config_index == 0 then 1 else 0)
unfolding put_together
put_together-changes ps n room =
    let own = own_entries-changes ps n (omega (arith, room)) in
    omega (
      arith,
      own.1,
      offer_all-changes ps (add_quorum_entry (add_cap_entry ps (empty_batch n))) own.0,
    )

offered_one :
    (p : Proposal) (b : Batch)
    → ((offer p b).entries ≡ b.entries)
      ⊎ ((offer p b).entries ≡ b.entries ++ next_entry p.cmd b ∷ [])
unfolding offer answer_now take_proposal
offered_one p b = ground arith

offered :
    (p : Proposal) (b : Batch) → (one : List LogEntry) × ((offer p b).entries ≡ b.entries ++ one)
offered p b = elim (offered_one p b) [
  | inl e ↦ ([], e ∙ sym (append-nil b.entries))
  | inr e ↦ (next_entry p.cmd b ∷ [], e)
]

-- What is offered comes behind what a batch has.
offer_all-prefix :
    (ps : List Proposal) (b : Batch)
    → (more : List LogEntry) × ((offer_all ps b).entries ≡ b.entries ++ more)
unfolding offer_all
offer_all-prefix [] b = ([], sym (append-nil b.entries))
offer_all-prefix (p ∷ ps) b =
    let (more, e) = offer_all-prefix ps (offer p b) in
    let (one, f) = offered p b in
    (one ++ more, e ∙ ap (λ es. es ++ more) f ∙ append_assoc b.entries one more)

abbrev own_cap : Node → LogEntry
own_cap n = next_entry (encode_client_table_cap_entry n.cfg.max_client_table_size) (empty_batch n)

abbrev own_quorum : Node → LogEntry
own_quorum n = record {
  index = add64 (last_log_index n.log) 1;
  term = n.current_term;
  command = encode_commit_quorum_entry n.cfg.commit_quorum;
}

own_entries :
    (ps : List Proposal) (n : Node)
    → cap_due ps n ≡ true
    → quorum_due n ≡ true
    → (add_quorum_entry (add_cap_entry ps (empty_batch n))).entries ≡ own_cap n ∷ own_quorum n ∷ []
unfolding add_quorum_entry add_cap_entry quorum_due
own_entries ps n c q = ground (arith, c, q)

-- A leader that owes its group both a bound on the client table and a commit quorum puts the two
-- entries at one index, the next one of its log.
pub put_together-same_index :
    (ps : List Proposal) (n : Node)
    → cap_due ps n ≡ true
    → quorum_due n ≡ true
    → last_log_index n.log + 1 < u64_mod
    → (cap quorum : LogEntry) × (more : List LogEntry) × ((put_together ps n).entries
        ≡ cap ∷ quorum ∷ more)
      × (cap.index ≡ last_log_index n.log + 1)
      × (quorum.index ≡ last_log_index n.log + 1)
unfolding put_together next_entry
put_together-same_index ps n c q room =
    let (more, e) = offer_all-prefix ps (add_quorum_entry (add_cap_entry ps (empty_batch n))) in
    (
      own_cap n,
      own_quorum n,
      more,
      e ∙ ap (λ es. es ++ more) (own_entries ps n c q),
      omega (arith, room),
      omega (arith, room),
    )
