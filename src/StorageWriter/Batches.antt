-- ===== src/StorageWriter/Batches.antt =====
-- The runs that `take` of storage_writer.go gives: a prefix of the queue, of one of three shapes.
use raft.Prelude.{
  ℕ, ◌+◌, ltb, Bool, true, false, not, ◌&&◌, ◌||◌, List, [], ◌∷◌, ◌++◌, if-cases, ◌≡◌, ◌≢◌, refl,
  ap, ◌⊎◌, inl, inr, All, length, arith,
}
use raft.StorageWriter.Queue.{
  WriteOp, StorageWriter, take_appends, take_run, is_append, is_hard_state,
}

-- A single operation, appends, or a hard state with appends behind it.
abbrev pub AllAppends : List WriteOp → Type 0
AllAppends = All (λ op. is_append op ≡ true)

abbrev pub Shape : List WriteOp → Type 0
Shape [] = Unit {0}
Shape (op ∷ []) = Unit {0}
Shape (op ∷ next ∷ ops) =
    AllAppends (next ∷ ops) × ((is_hard_state op ≡ true) ⊎ (is_append op ≡ true))

take_appends-AllAppends :
    (cap : ℕ) (fresh : Bool) (entries : ℕ) (ops : List WriteOp)
    → AllAppends (take_appends cap fresh entries ops).0
unfolding take_appends
take_appends-AllAppends cap fresh entries [] = tt
take_appends-AllAppends cap fresh entries (op ∷ ops) =
    if-cases (λ (r : List WriteOp × List WriteOp). AllAppends r.0)
      (is_append op && (fresh || not (ltb cap (entries + length op.entries)))) _ _
      (λ h.
        (ground (arith, h), take_appends-AllAppends cap false (entries + length op.entries) ops))
      (λ h. tt)

take_appends-parts :
    (cap : ℕ) (fresh : Bool) (entries : ℕ) (ops : List WriteOp)
    → (take_appends cap fresh entries ops).0 ++ (take_appends cap fresh entries ops).1 ≡ ops
unfolding take_appends
take_appends-parts cap fresh entries [] = refl
take_appends-parts cap fresh entries (op ∷ ops) =
    if-cases (λ (r : List WriteOp × List WriteOp). r.0 ++ r.1 ≡ op ∷ ops)
      (is_append op && (fresh || not (ltb cap (entries + length op.entries)))) _ _
      (λ h. ap (λ l. op ∷ l) (take_appends-parts cap false (entries + length op.entries) ops))
      (λ h. refl)

-- What a run is: a prefix of the queue, which is not empty where the queue is not, and of a shape.
abbrev pub Run : List WriteOp → List WriteOp × List WriteOp → Type 0
Run queue r = (r.0 ++ r.1 ≡ queue) × (queue ≢ [] → r.0 ≢ []) × Shape r.0

Shape-cons :
    (op : WriteOp) (ops : List WriteOp)
    → AllAppends ops
    → (is_hard_state op ≡ true) ⊎ (is_append op ≡ true)
    → Shape (op ∷ ops)
Shape-cons op [] h k = tt
Shape-cons op (next ∷ ops) h k = (h, k)

appends-Run :
    (cap : ℕ) (op : WriteOp) (ops : List WriteOp)
    → is_append op ≡ true
    → Run (op ∷ ops) (take_appends cap true 0 (op ∷ ops))
unfolding take_appends
appends-Run cap op ops h = rw h (
  ap (λ l. op ∷ l) (take_appends-parts cap false (0 + length op.entries) ops),
  (λ a b. cc),
  Shape-cons op _ (take_appends-AllAppends cap false (0 + length op.entries) ops) (inr h),
)

pub take_run-Run : (w : StorageWriter) (queue : List WriteOp) → Run queue (take_run w queue)
unfolding take_run
take_run-Run w [] = (refl, (λ h. h), tt)
take_run-Run w (op ∷ []) = (refl, (λ a b. cc), tt)
take_run-Run w (op ∷ next ∷ ops) =
    if-cases (Run (op ∷ next ∷ ops)) (w.batches && is_hard_state op && is_append next) _ _
      (λ h. (
        ap (λ l. op ∷ l) (take_appends-parts w.max_batch_entries true 0 (next ∷ ops)),
        (λ a b. cc),
        Shape-cons op _ (take_appends-AllAppends w.max_batch_entries true 0 (next ∷ ops))
            (inl (ground (arith, h))),
      ))
      (λ h.
        if-cases (Run (op ∷ next ∷ ops)) (is_append op) _ _
          (λ k. appends-Run w.max_batch_entries op (next ∷ ops) k) (λ k. (refl, (λ a b. cc), tt)))
