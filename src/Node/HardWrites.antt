-- ===== src/Node/HardWrites.antt =====
-- The writes that land, and what they release: they keep the term and the vote.
use raft.Prelude.{
  ℕ, ltb, leb, ◌==◌, not, ◌&&◌, if◌then◌else◌, if-cases, Option, none, some, List, [], ◌∷◌, ◌≡◌,
  refl, ◌∙◌, arith,
}
use raft.Types.{Error, is_leader}
use raft.StorageWriter.Queue.{WriteDone, take_done}
use raft.RaftLog.Defs.{stabilize}
use raft.Node.State.{Node, DeferredWrite}
use raft.Node.Writes.{fail, notify_apply}
use raft.Node.Commit.{maybe_advance_commit}
use raft.Node.Replicate.{Disk}
use raft.Node.Transitions.{run_deferred, fail_deferred}
use raft.Node.Completions.{
  run_landed, run_deferred_writes, fail_all, fail_deferred_writes, complete_write, complete_writes,
  on_durable_advanced, handle_write_completions,
}
use raft.Node.HardState.{
  hard, maybe_record_commit-hard, notify_apply-hard, maybe_advance_commit-hard,
}
use raft.Node.HardTurns.{run_deferred-hard, fail_deferred-hard}

module _ (disk : Disk) where
  run_landed-hard :
      (seq : ℕ) (ds : List DeferredWrite) (n : Node) → hard (run_landed disk seq ds n) ≡ hard n
  unfolding run_landed
  run_landed-hard seq [] n = refl
  run_landed-hard seq (d ∷ ds) n =
      run_landed-hard seq ds (if ltb seq d.seq then n else run_deferred disk d.action n)
      ∙ if-cases (λ m. hard m ≡ hard n) (ltb seq d.seq) n (run_deferred disk d.action n) (λ h. refl)
          (λ h. run_deferred-hard disk d.action n)

  fail_all-hard :
      (ds : List DeferredWrite) (e : Error) (n : Node) → hard (fail_all disk ds e n) ≡ hard n
  unfolding fail_all
  fail_all-hard [] e n = refl
  fail_all-hard (d ∷ ds) e n =
      fail_all-hard ds e (fail_deferred disk d.action e n) ∙ fail_deferred-hard disk d.action e n

  run_deferred_writes-hard : (seq : ℕ) (n : Node) → hard (run_deferred_writes disk seq n) ≡ hard n
  unfolding run_deferred_writes
  run_deferred_writes-hard seq n =
      run_landed-hard seq n.deferred_writes (record n { deferred_writes = [] })

  fail_deferred_writes-hard : (e : Error) (n : Node) → hard (fail_deferred_writes disk e n) ≡ hard n
  unfolding fail_deferred_writes
  fail_deferred_writes-hard e n =
      fail_all-hard n.deferred_writes e (record n { deferred_writes = [] })

  fail-hard : (e : Error) (n : Node) → hard (fail e n) ≡ hard n
  unfolding fail
  fail-hard e n = ground arith

  -- One completion, landed or failed.
  complete_write-hard : (d : WriteDone) (n : Node) → hard (complete_write disk d n) ≡ hard n
  unfolding complete_write
  complete_write-hard d n = go d.error
    where
      seen : ℕ
      seen = if ltb n.completed_write_seq d.seq then d.seq else n.completed_write_seq

      landed : Node
      landed = record n { log = stabilize n.log d; completed_write_seq = seen }

      safe : Node
      safe =
          if not (n.unsafe_term_seq == 0) && leb n.unsafe_term_seq d.seq
          then record landed { unsafe_term_seq = 0 }
          else landed

      go :
          (o : Option Error)
          → hard (elim o [
            | some e ↦
                fail_deferred_writes disk e (fail e (record n { completed_write_seq = seen }))
            | none ↦ run_deferred_writes disk d.seq safe
          ])
            ≡ hard n
      go (some e) =
          fail_deferred_writes-hard e (fail e (record n { completed_write_seq = seen }))
          ∙ fail-hard e (record n { completed_write_seq = seen })
      go none =
          run_deferred_writes-hard d.seq safe
          ∙ if-cases (λ m. hard m ≡ hard n)
              (not (n.unsafe_term_seq == 0) && leb n.unsafe_term_seq d.seq)
              (record landed { unsafe_term_seq = 0 }) landed (λ h. refl) (λ h. refl)

  complete_writes-hard :
      (ds : List WriteDone) (n : Node) → hard (complete_writes disk ds n) ≡ hard n
  unfolding complete_writes
  complete_writes-hard [] n = refl
  complete_writes-hard (d ∷ ds) n =
      complete_writes-hard ds (complete_write disk d n) ∙ complete_write-hard d n

  on_durable_advanced-hard : (n : Node) → hard (on_durable_advanced disk n) ≡ hard n
  unfolding on_durable_advanced
  on_durable_advanced-hard n =
      let told = notify_apply n in
      maybe_record_commit-hard (if is_leader told.state then maybe_advance_commit told else told)
      ∙ if-cases (λ m. hard m ≡ hard told) (is_leader told.state) (maybe_advance_commit told) told
          (λ h. maybe_advance_commit-hard told) (λ h. refl)
      ∙ notify_apply-hard n

  pub handle_write_completions-hard : (n : Node) → hard (handle_write_completions disk n) ≡ hard n
  unfolding handle_write_completions take_done
  handle_write_completions-hard n = go n.log.w.done
    where
      taken : Node
      taken = record n { log = record n.log { w = record n.log.w { done = [] } } }

      go :
          (done : List WriteDone)
          → hard (elim done [
            | [] ↦ taken
            | d ∷ ds ↦ on_durable_advanced disk (complete_writes disk (d ∷ ds) taken)
          ])
            ≡ hard n
      go [] = refl
      go (d ∷ ds) =
          on_durable_advanced-hard (complete_writes disk (d ∷ ds) taken)
          ∙ complete_writes-hard (d ∷ ds) taken
