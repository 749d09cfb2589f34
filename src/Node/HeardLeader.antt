-- ===== src/Node/HeardLeader.antt =====
-- What hearing from a leader leaves of a node: `becomeFollower`, as it concerns the log, the commit
-- index and the answers.
use raft.Prelude.{ℕ, ◌+◌, ◌≤◌, ltb, if-cases, ◌≡◌, refl, ap, ◌∙◌, sym, subst, List, [], ◌∷◌, NodeId}
use raft.Types.{LogEntry, HardState}
use raft.StorageWriter.Queue.{WriteKind}
use raft.RaftLog.Defs.{RaftLog, last_log_index, queue_op, term_at}
use raft.RaftLog.Models.{Models, Ends}
use raft.Node.State.{Node}
use raft.Node.Writes.{save_term}
use raft.Node.Follower.{nobody, forget_leadership, apply_follower_transition, become_follower}
use raft.Node.StepDown.{held, appends_answered, apply_follower_transition-held}
use raft.Node.AppendStore.{Ready}

-- An operation that is queued changes nothing about the log that the state stands for.
pub queue_op-Models :
    (rl : RaftLog) (kind : WriteKind) (es : List LogEntry) (index : ℕ) (hs : HardState) (after : ℕ)
    (log written : List LogEntry)
    → Models rl log written
    → Models (queue_op rl kind es index hs after) log written
unfolding queue_op
queue_op-Models rl kind es index hs after log written m = record {
  ends = go log m.ends;
  chained = m.chained;
  run_index = m.run_index;
  held = m.held;
  boundary = m.boundary;
  filled = m.filled;
  bytes = m.bytes;
  fits = m.fits;
  snap_fits = m.snap_fits;
}
  where
    go : (l : List LogEntry) → Ends rl l → Ends (queue_op rl kind es index hs after) l
    go [] h = h
    go (e ∷ es) h = h

-- A node that heard from a leader: its log is looked up and filled as before, and it follows.
pub record Heard (n m : Node) : Type 0 where
  pub ready :
      (log written : List LogEntry)
      → Models n.log log written
      → n.log.first ≤ n.log.snap_meta.last_included_index + 1
      → Ready m log written
  pub looks : (i : ℕ) → term_at m.log i ≡ term_at n.log i
  pub ends : last_log_index m.log ≡ last_log_index n.log
  pub snap : m.log.snap_meta ≡ n.log.snap_meta
  pub bytes : m.log.unstable_bytes ≡ n.log.unstable_bytes
  pub cfg_kept : m.cfg ≡ n.cfg
  pub commit_kept : m.commit_index ≡ n.commit_index
  pub answers_kept : appends_answered m ≡ appends_answered n

forget_leadership-Heard : (leader : NodeId) (n : Node) → Heard n (forget_leadership leader n)
unfolding forget_leadership
forget_leadership-Heard leader n = record {
  ready = λ log written m base. record { models = m; based = base; follows = refl };
  looks = λ i. refl;
  ends = refl;
  snap = refl;
  bytes = refl;
  cfg_kept = refl;
  commit_kept = refl;
  answers_kept = refl;
}

forget_saved-Heard :
    (term : ℕ) (leader : NodeId) (n : Node)
    → Heard n (forget_leadership leader (save_term term nobody n).1)
unfolding forget_leadership save_term term_at last_log_index queue_op
forget_saved-Heard term leader n = record {
  ready = λ log written m base. record {
    models =
        queue_op-Models n.log WriteKind.hard_state [] 0
          (record { current_term = term; voted_for = nobody }) n.log.queued_durable log written m;
    based = base;
    follows = refl;
  };
  looks = λ i. refl;
  ends = refl;
  snap = refl;
  bytes = refl;
  cfg_kept = refl;
  commit_kept = refl;
  answers_kept = refl;
}

Heard-held : (n m m' : Node) → held m' ≡ held m → Heard n m → Heard n m'
Heard-held n m m' e h =
    let log_same : m'.log ≡ m.log = ap (λ k. k.0) e in
    let state_same : m'.state ≡ m.state = ap (λ k. k.8) e in
    record {
      ready = λ log written models base.
          let r = h.ready log written models base in
          record {
            models = subst (λ l. Models l log written) (sym log_same) r.models;
            based = rw log_same r.based;
            follows = rw state_same r.follows;
          };
      looks = λ i. ap (λ l. term_at l i) log_same ∙ h.looks i;
      ends = ap last_log_index log_same ∙ h.ends;
      snap = ap (λ l. l.snap_meta) log_same ∙ h.snap;
      bytes = ap (λ l. l.unstable_bytes) log_same ∙ h.bytes;
      cfg_kept = ap (λ k. k.7) e ∙ h.cfg_kept;
      commit_kept = ap (λ k. k.6) e ∙ h.commit_kept;
      answers_kept = ap (λ k. k.5) e ∙ h.answers_kept;
    }

pub become_follower-Heard :
    (term : ℕ) (leader : NodeId) (n : Node) → Heard n (become_follower term leader n)
unfolding become_follower
become_follower-Heard term leader n =
    if-cases (λ b. Heard n (apply_follower_transition leader b)) (ltb n.current_term term)
      (save_term term nobody n).1 n
      (λ h.
        Heard-held n (forget_leadership leader (save_term term nobody n).1) _
          (apply_follower_transition-held leader (save_term term nobody n).1)
          (forget_saved-Heard term leader n))
      (λ h.
        Heard-held n (forget_leadership leader n) (apply_follower_transition leader n)
          (apply_follower_transition-held leader n) (forget_leadership-Heard leader n))
