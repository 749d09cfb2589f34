-- ===== src/Node/ProposalOrder.antt =====
-- The entries that `handleProposals` appends, and the proposals that it turns away.
use raft.Prelude.{
  ℕ, ◌+◌, ◌<◌, if-cases, if_false, false, ◌≡◌, refl, sym, subst, ◌⊎◌, inl, inr, List, [], ◌∷◌, ◌++◌,
  length, length-append, u64_mod, add64, arith,
}
use raft.Types.{LogEntry}
use raft.ConfigEntry.Defs.{encode_client_table_cap_entry}
use raft.RaftLog.Defs.{last_log_index}
use raft.RaftLog.History.{Chained, Chained-append}
use raft.Node.State.{Node, emit}
use raft.Node.Propose.{
  Proposal, Batch, next_entry, cap_due, quorum_due, add_cap_entry, add_quorum_entry, offer,
  take_proposal, answer_now, offer_all, put_together,
}

-- The entries of a batch follow the log one by one, and leave room for `more`.
abbrev pub Placed : (last more : ℕ) → Batch → Type 0
Placed last more b =
    (last_log_index b.node.log ≡ last)
    × Chained (last + 1) b.entries
    × (last + length b.entries + more + 1 < u64_mod)

-- One more entry behind those of a batch.
Placed-next :
    (last more : ℕ) (b : Batch) (e : LogEntry)
    → Placed last (more + 1) b
    → e.index ≡ add64 (add64 (last_log_index b.node.log) (length b.entries)) 1
    → Chained (last + 1) (b.entries ++ e ∷ [])
      × (last + length (b.entries ++ e ∷ []) + more + 1 < u64_mod)
Placed-next last more b e (at, chain, room) h =
    let here : e.index ≡ last + 1 + length b.entries = omega (arith, h, at, room) in
    (
      Chained-append (last + 1) b.entries (e ∷ []) chain (here, tt),
      omega (arith, room, length-append b.entries (e ∷ [])),
    )

take_proposal-Placed :
    (last more : ℕ) (p : Proposal) (b : Batch)
    → Placed last (more + 1) b
    → Placed last more (take_proposal p b)
unfolding take_proposal next_entry
take_proposal-Placed last more p b h =
    let next = Placed-next last more b (next_entry p.cmd b) h refl in (h.0, next.0, next.1)

offer-Placed :
    (last more : ℕ) (p : Proposal) (b : Batch)
    → Placed last (more + 1) b
    → Placed last more (offer p b)
unfolding offer answer_now emit
offer-Placed last more p b h =
    let taken = take_proposal-Placed last more p b h in
    let kept : Placed last more b = (h.0, h.1, omega (arith, h.2)) in ground (arith, taken, kept)

offer_all-Placed :
    (last : ℕ) (ps : List Proposal) (b : Batch)
    → Placed last (length ps) b
    → Placed last 0 (offer_all ps b)
unfolding offer_all
offer_all-Placed last [] b h = h
offer_all-Placed last (p ∷ ps) b h =
    offer_all-Placed last ps (offer p b)
      (offer-Placed last (length ps) p b (h.0, h.1, omega (arith, h.2)))

add_cap_entry-Placed :
    (last more : ℕ) (ps : List Proposal) (b : Batch)
    → Placed last (more + 1) b
    → Placed last more (add_cap_entry ps b)
unfolding add_cap_entry next_entry
add_cap_entry-Placed last more ps b h =
    let e = next_entry (encode_client_table_cap_entry b.node.cfg.max_client_table_size) b in
    let next = Placed-next last more b e h refl in
    if-cases (Placed last more) (cap_due ps b.node) _ b (λ k. (h.0, next.0, next.1))
      (λ k. (h.0, h.1, omega (arith, h.2)))

add_quorum_entry-Placed :
    (last more : ℕ) (b : Batch)
    → Placed last (more + 1) b
    → b.entries ≡ [] ⊎ (quorum_due b.node ≡ false)
    → Placed last more (add_quorum_entry b)
unfolding add_quorum_entry
add_quorum_entry-Placed last more b h (inl e) =
    if-cases (Placed last more) (quorum_due b.node) _ b
      (λ k. rw e (h.0, (omega (arith, h.0, h.2), tt), omega (arith, h.2)))
      (λ k. (h.0, h.1, omega (arith, h.2)))
add_quorum_entry-Placed last more b h (inr e) =
    subst (Placed last more) (sym (if_false (quorum_due b.node) _ b e))
      (h.0, h.1, omega (arith, h.2))

abbrev pub empty_batch : Node → Batch
empty_batch n = record { entries = []; backlog = n.log.unstable_bytes; node = n }

only_one :
    (ps : List Proposal) (n : Node)
    → (cap_due ps n ≡ false) ⊎ (quorum_due n ≡ false)
    → ((add_cap_entry ps (empty_batch n)).entries ≡ [])
      ⊎ (quorum_due (add_cap_entry ps (empty_batch n)).node ≡ false)
unfolding add_cap_entry quorum_due
only_one ps n (inl e) = inl (ground (arith, e))
only_one ps n (inr e) = inr (ground (arith, e))

-- A leader that does not owe its group both a bound on the client table and a commit quorum appends
-- entries with the next indices, one after the other, whatever it turns away, when they fit in 64
-- bits.
pub put_together-Chained :
    (ps : List Proposal) (n : Node)
    → (cap_due ps n ≡ false) ⊎ (quorum_due n ≡ false)
    → last_log_index n.log + length ps + 3 < u64_mod
    → Chained (last_log_index n.log + 1) (put_together ps n).entries
unfolding put_together
put_together-Chained ps n once room =
    let last = last_log_index n.log in
    let start : Placed last (length ps + 1 + 1) (empty_batch n) = (refl, tt, omega arith) in
    let capped = add_cap_entry ps (empty_batch n) in
    let first = add_cap_entry-Placed last (length ps + 1) ps (empty_batch n) start in
    (offer_all-Placed last ps (add_quorum_entry capped)
      (add_quorum_entry-Placed last (length ps) capped first (only_one ps n once))).1
