-- ===== src/StorageWriter/Drain.antt =====
-- The goroutine of storage_writer.go, working off its queue.
use raft.Prelude.{
  ℕ, zero, suc, ◌≤◌, Option, none, some, List, [], ◌∷◌, ◌++◌, map, ◌≡◌, refl, ap, sym, ◌∙◌, length,
  length-append, arith,
}
use mathlib.Core.List.{append-nil, append_assoc, map-append}
use raft.Types.{Error}
use raft.StorageWriter.Queue.{WriteOp, WriteDone, StorageWriter, take_run}
use raft.StorageWriter.Batches.{Shape, Run, take_run-Run}
use raft.StorageWriter.Execute.{
  Store, run_batch, run, completion, first_failure, execute, work_off, loop, then_run, run_each,
}
use raft.StorageWriter.InOrder.{InOrder, run_batch-run_each, run_each-append, then_run-ok}

abbrev pub done_seqs : List WriteDone → List ℕ
done_seqs = map (λ d. d.seq)

abbrev pub op_seqs : List WriteOp → List ℕ
op_seqs = map (λ op. op.seq)

completion-seqs :
    (e : Option Error) (ops : List WriteOp) → done_seqs (map (completion e) ops) ≡ op_seqs ops
completion-seqs e [] = refl
completion-seqs e (op ∷ ops) = ap (λ l. op.seq ∷ l) (completion-seqs e ops)

first_failure-none : (a b : Option Error) → first_failure a b ≡ none → (a ≡ none) × (b ≡ none)
first_failure-none none b h = (refl, h)
first_failure-none (some e) b h = absurd (ground (arith, h))

module _ {S : Type 0} (store : Store S) (in_order : InOrder store) where
  -- The queue is worked off, every operation of it has its completion, in order, and if nothing
  -- failed the storage is as the operations one by one leave it.
  abbrev pub Drained : StorageWriter → S → StorageWriter × S → Type 0
  Drained w s r =
      (r.0.queue ≡ [])
      × (done_seqs r.0.done ≡ done_seqs w.done ++ op_seqs w.queue)
      × (r.0.failed ≡ none
          → (w.failed ≡ none) × (run_each store w.records_commits w.queue s ≡ (none, r.1)))

  run_ok :
      (w : StorageWriter) (batch : List WriteOp) (s : S)
      → Shape batch
      → w.failed ≡ none
      → (run store w batch s).0 ≡ none
      → run_each store w.records_commits batch s ≡ run store w batch s
  unfolding run
  run_ok w batch s shape fine h =
      let ran : run store w batch s ≡ run_batch store w.records_commits batch s = rw fine refl in
      sym (
        ran
        ∙ run_batch-run_each store in_order w.records_commits batch s shape
            (ap (λ r. r.0) (sym ran) ∙ h))

  execute-Drained :
      (w : StorageWriter) (s : S) (batch rest : List WriteOp) (r : StorageWriter × S)
      → batch ++ rest ≡ w.queue
      → Shape batch
      → Drained
          (execute store batch (record w { queue = rest }) s).0
          (execute store batch (record w { queue = rest }) s).1
          r
      → Drained w s r
  unfolding execute
  execute-Drained w s batch rest r parts shape (empty, seqs, ok) =
      let at_batch : StorageWriter = record w { queue = rest } in
      let ran = run store at_batch batch s in
      (
        empty,
        seqs
            ∙ ap (λ l. l ++ op_seqs rest)
                (map-append (λ d. d.seq) w.done (map (completion ran.0) batch)
                  ∙ ap (λ l. done_seqs w.done ++ l) (completion-seqs ran.0 batch))
            ∙ append_assoc (done_seqs w.done) (op_seqs batch) (op_seqs rest)
            ∙ ap (λ l. done_seqs w.done ++ l)
                (sym (map-append (λ op. op.seq) batch rest) ∙ ap op_seqs parts),
        λ fine.
            let (none_failed, after) = ok fine in
            let (was_fine, ran_fine) = first_failure-none w.failed ran.0 none_failed in
            let each = run_ok at_batch batch s shape was_fine ran_fine in
            (
              was_fine,
              ap (λ q. run_each store w.records_commits q s) (sym parts)
                  ∙ run_each-append store in_order w.records_commits batch rest s
                  ∙ ap (λ p. then_run p (run_each store w.records_commits rest)) each
                  ∙ then_run-ok store in_order ran (run_each store w.records_commits rest) ran_fine
                  ∙ after,
            ),
      )

  empty-Drained : (w : StorageWriter) (s : S) → w.queue ≡ [] → Drained w s (w, s)
  unfolding run_each
  empty-Drained w s h = (h, rw h (sym (append-nil (done_seqs w.done))), λ fine. (fine, rw h refl))

  nothing_taken : (queue rest : List WriteOp) → Run queue ([], rest) → queue ≡ []
  nothing_taken [] rest h = refl
  nothing_taken (op ∷ ops) rest h = absurd (h.1 (λ z. cc) refl)

  shorter :
      (op : WriteOp) (ops rest queue : List WriteOp) (rounds : ℕ)
      → op ∷ ops ++ rest ≡ queue
      → length queue ≤ suc rounds
      → length rest ≤ rounds
  shorter op ops rest queue rounds e k = omega (arith, ap length e, length-append (op ∷ ops) rest)

  -- One turn of the loop with the run that `take` gave, and what comes after it.
  turn-Drained :
      (rounds : ℕ) (w : StorageWriter) (s : S) (taken : List WriteOp × List WriteOp)
      → length w.queue ≤ suc rounds
      → Run w.queue taken
      → ((v : StorageWriter) (t : S)
          → length v.queue ≤ rounds
          → Drained v t (loop store rounds v t))
      → Drained w s (
          let after : StorageWriter × S = elim taken.0 [
            | [] ↦ (w, s)
            | op ∷ ops ↦ execute store (op ∷ ops) (record w { queue = taken.1 }) s
          ] in
          loop store rounds after.0 after.1)
  unfolding execute
  turn-Drained rounds w s ([], rest) h taken again =
      again w s (ground (arith, nothing_taken w.queue rest taken))
  turn-Drained rounds w s (op ∷ ops, rest) h taken again =
      let after = execute store (op ∷ ops) (record w { queue = rest }) s in
      execute-Drained w s (op ∷ ops) rest (loop store rounds after.0 after.1) taken.0 taken.2
        (again after.0 after.1 (shorter op ops rest w.queue rounds taken.0 h))

  none_left : (q : List WriteOp) → length q ≤ 0 → q ≡ []
  none_left [] k = refl
  none_left (op ∷ ops) k = absurd (omega arith)

  -- Given as many rounds as operations are queued, the loop works the queue off. Every queued
  -- operation gets its completion, in the order of the queue, whether or not a write failed; and if
  -- none failed, the storage is as the operations one by one leave it, whatever runs they were
  -- coalesced into.
  pub loop-Drained :
      (rounds : ℕ) (w : StorageWriter) (s : S)
      → length w.queue ≤ rounds
      → Drained w s (loop store rounds w s)
  unfolding loop work_off
  loop-Drained zero w s h = empty-Drained w s (none_left w.queue h)
  loop-Drained (suc rounds) w s h =
      turn-Drained rounds w s (take_run w w.queue) h (take_run-Run w w.queue) (loop-Drained rounds)
