-- ===== src/Node/RebuildCore.antt =====
-- What a node that does not lead keeps when it adopts config entries or computes its membership again:
-- everything but the membership, the policies and the index of the last config entry.
use raft.Prelude.{
  ℕ, zero, suc, ◌+◌, ◌-◌, if◌then◌else◌, if-cases, true, false, pos, add64, inl, inr, min, List, [],
  ◌∷◌, NodeId, ◌≡◌, refl, ◌∙◌, ap, arith,
}
use raft.Types.{Result-cases, State, LogEntry, PeerConfig, is_leader}
use raft.ConfigEntry.Defs.{MembershipState, is_config_entry}
use raft.RaftLog.Defs.{RaftLog, entries}
use raft.Node.State.{Node, Effect, DeferredWrite}
use raft.Node.Replicate.{Disk}
use raft.Node.Follower.{with_self}
use raft.Node.Membership.{
  restore_membership, restore_simple, restore_joint, note_witness, adopt_add, adopt_remove,
  adopt_joint, adopt_finalise, adopt_op, adopt_config_entry, welcome_peer, note_entry,
  note_appended_config,
}
use raft.Node.ConfigApply.{
  adopt_entries, adopt_batches, rebuild_base, rebuild_membership, rebuild_batch,
}

-- The part of the node that is kept.
abbrev pub Core : Type 0
Core = State × RaftLog × ℕ × ℕ × NodeId × List DeferredWrite × ℕ × ℕ × List Effect

abbrev pub core : Node → Core
core n = (
  n.state, n.log, n.commit_index, n.current_term, n.voted_for, n.deferred_writes, n.unsafe_term_seq,
  n.completed_write_seq, n.effects,
)

note_witness-core : (ms : List PeerConfig) (n : Node) → core (note_witness ms n) ≡ core n
unfolding note_witness
note_witness-core ms n = ground arith

pub restore_membership-core :
    (ms : MembershipState) (n : Node) → core (restore_membership ms n) ≡ core n
unfolding restore_membership restore_simple restore_joint
restore_membership-core ms n =
    let noted = record n { policy = record n.policy { latest = ms.commit_quorum } } in
    if-cases (λ m. core m ≡ core n) ms.joint (restore_joint ms n) (restore_simple ms n)
      (λ h. note_witness-core ms.old noted) (λ h. note_witness-core ms.members noted)

pub rebuild_base-core : (n : Node) → core (rebuild_base n) ≡ core n
unfolding rebuild_base
rebuild_base-core n = restore_membership-core n.base_membership n

note_entry-core : (e : LogEntry) (n : Node) → core (note_entry e n) ≡ core n
unfolding note_entry
note_entry-core e n = ground arith

pub note_appended_config-core :
    (es : List LogEntry) (n : Node) → core (note_appended_config es n) ≡ core n
unfolding note_appended_config
note_appended_config-core [] n = refl
note_appended_config-core (e ∷ es) n =
    note_appended_config-core es (note_entry e n) ∙ note_entry-core e n

module _ (disk : Disk) where
  adopt_add-core :
      (p : PeerConfig) (n : Node) → is_leader n.state ≡ false → core (adopt_add p n) ≡ core n
  unfolding adopt_add welcome_peer
  adopt_add-core p n h = ground (arith, h)

  adopt_joint-core :
      (old new : List PeerConfig) (n : Node)
      → is_leader n.state ≡ false
      → core (adopt_joint old new n) ≡ core n
  unfolding adopt_joint
  adopt_joint-core old new n h =
      let joint : MembershipState = record {
        joint = true;
        members = [];
        old = with_self old n.cfg.id true n.cfg.voter n.cfg.witness;
        new = new;
        commit_quorum = pos 0;
      } in
      ground (arith, h, restore_membership-core joint n)

  adopt_finalise-core :
      (members : List PeerConfig) (index : ℕ) (n : Node)
      → is_leader n.state ≡ false
      → core (adopt_finalise disk members index n) ≡ core n
  unfolding adopt_finalise
  adopt_finalise-core members index n h =
      let final : MembershipState = record {
        joint = false;
        members = members;
        old = [];
        new = [];
        commit_quorum = pos 0;
      } in
      ground (arith, h, restore_membership-core final n)

  adopt_op-core :
      (op : ℕ) (p : PeerConfig) (cmd : List ℕ) (index : ℕ) (n : Node)
      → is_leader n.state ≡ false
      → core (adopt_op disk op p cmd index n) ≡ core n
  unfolding adopt_op adopt_remove
  adopt_op-core op p cmd index n h =
      grind (arith, h, adopt_add-core p n h, adopt_joint-core, adopt_finalise-core)

  pub adopt_config_entry-core :
      (cmd : List ℕ) (index : ℕ) (n : Node)
      → is_leader n.state ≡ false
      → core (adopt_config_entry disk cmd index n) ≡ core n
  unfolding adopt_config_entry
  adopt_config_entry-core cmd index n h = grind (
    arith,
    h,
    λ (op : ℕ) (p : PeerConfig). adopt_op-core op p cmd index (record n { config_index = index }) h,
  )

  pub adopt_entries-core :
      (es : List LogEntry) (n : Node)
      → is_leader n.state ≡ false
      → core (adopt_entries disk es n) ≡ core n
  unfolding adopt_entries
  adopt_entries-core [] n h = refl
  adopt_entries-core (e ∷ es) n h =
      let adopted =
        if is_config_entry e.command then adopt_config_entry disk e.command e.index n else n in
      let same : core adopted ≡ core n =
        ground (arith, adopt_config_entry-core e.command e.index n h) in
      adopt_entries-core es adopted (ap (λ c. is_leader c.0) same ∙ h) ∙ same

  adopt_batches-core :
      (rounds lo last : ℕ) (n : Node)
      → is_leader n.state ≡ false
      → core (adopt_batches disk rounds lo last n).1 ≡ core n
  unfolding adopt_batches
  adopt_batches-core zero lo last n h = refl
  adopt_batches-core (suc rounds) lo last n h =
      elim (Result-cases
        (entries disk.get_log_entries n.log lo (min (add64 lo rebuild_batch) (add64 last 1)))) [
          | inl (x, e) ↦ ground (arith, e)
          | inr (es, e) ↦
              let adopted = adopt_entries disk es n in
              let same = adopt_entries-core es n h in
              ground (
                arith,
                e,
                same,
                adopt_batches-core rounds (add64 lo rebuild_batch) last adopted
                    (ap (λ c. is_leader c.0) same ∙ h),
              )
        ]

  -- A node that does not lead keeps its role, its log, its commit index, its term and vote, and what it
  -- has promised and sent, when it computes its membership again.
  pub rebuild_membership-core :
      (n : Node) → is_leader n.state ≡ false → core (rebuild_membership disk n).1 ≡ core n
  unfolding rebuild_membership
  rebuild_membership-core n h =
      let base = rebuild_base n in
      let same = rebuild_base-core n in
      ground (
        arith,
        same,
        adopt_batches-core (base.log.last + 1 - base.log.first) base.log.first base.log.last base
            (ap (λ c. is_leader c.0) same ∙ h),
      )
