-- ===== src/StorageWriter/InOrder.antt =====
-- What the writer does to its storage: a coalesced run leaves it as its operations one by one.
use raft.Prelude.{
  Bool, true, false, Option, none, some, List, [], ◌∷◌, ◌++◌, ◌≡◌, ◌≢◌, refl, ap, sym, ◌∙◌, inl,
  inr, arith,
}
use mathlib.Core.List.{append-nil}
use raft.Types.{LogEntry, HardState, Error}
use raft.StorageWriter.Queue.{WriteOp, is_append, is_hard_state}
use raft.StorageWriter.Batches.{AllAppends, Shape}
use raft.StorageWriter.Execute.{Store, append_run, joined, run_one, run_batch, then_run, run_each}

-- What the interfaces promise of calls that succeed: entries are appended in order, so two calls in
-- a row do what one call for both does, and `SaveState` does what its two halves do.
pub record InOrder {S : Type 0} (store : Store S) : Type 0 where
  pub appends :
      (xs ys : List LogEntry) (s : S)
      → xs ≢ []
      → ys ≢ []
      → (store.append_log_entries (xs ++ ys) s).0 ≡ none
      → store.append_log_entries (xs ++ ys) s
        ≡ then_run (store.append_log_entries xs s) (store.append_log_entries ys)
  pub both :
      (hs : HardState) (es : List LogEntry) (s : S)
      → (store.save_state hs es s).0 ≡ none
      → store.save_state hs es s ≡ then_run (store.save_hard_state hs s) (append_run store es)

module _ {S : Type 0} (store : Store S) (in_order : InOrder store) where
  then_run-unit : (r : Option Error × S) → then_run r (λ s. (none, s)) ≡ r
  then_run-unit (none, s) = refl
  then_run-unit (some e, s) = refl

  append_run-append :
      (xs ys : List LogEntry) (s : S)
      → (append_run store (xs ++ ys) s).0 ≡ none
      → append_run store (xs ++ ys) s ≡ then_run (append_run store xs s) (append_run store ys)
  unfolding append_run
  append_run-append [] ys s h = refl
  append_run-append (x ∷ xs) [] s h =
      ap (λ l. append_run store (x ∷ l) s) (append-nil xs)
      ∙ sym (then_run-unit (append_run store (x ∷ xs) s))
  append_run-append (x ∷ xs) (y ∷ ys) s h =
      in_order.appends (x ∷ xs) (y ∷ ys) s (λ z. cc) (λ z. cc) h

  ok-left :
      (r : Option Error × S) (f : S → Option Error × S)
      → (then_run r f).0 ≡ none
      → (r.0 ≡ none) × (then_run r f ≡ f r.1)
  ok-left (none, s) f h = (refl, refl)
  ok-left (some e, s) f h = (h, cc)

  pub then_run-ok :
      (r : Option Error × S) (f : S → Option Error × S) → r.0 ≡ none → then_run r f ≡ f r.1
  then_run-ok (none, s) f h = refl
  then_run-ok (some e, s) f h = cc

  run_one-append :
      (rc : Bool) (op : WriteOp) (s : S)
      → is_append op ≡ true
      → run_one store rc op s ≡ append_run store op.entries s
  unfolding run_one
  run_one-append rc op s h = ground (arith, h)

  run_one-hard_state :
      (rc : Bool) (op : WriteOp) (s : S)
      → is_hard_state op ≡ true
      → run_one store rc op s ≡ store.save_hard_state op.hs s
  unfolding run_one
  run_one-hard_state rc op s h = ground (arith, h)

  append_no_hard_state : (op : WriteOp) → is_append op ≡ true → is_hard_state op ≡ false
  append_no_hard_state op h = ground (arith, h)

  joined-run_each :
      (rc : Bool) (ops : List WriteOp) (s : S)
      → AllAppends ops
      → (append_run store (joined store ops) s).0 ≡ none
      → append_run store (joined store ops) s ≡ run_each store rc ops s
  unfolding joined run_each
  joined-run_each rc [] s a h = refl
  joined-run_each rc (op ∷ ops) s (is, a) h =
      let here = run_one-append rc op s is in
      let split = append_run-append op.entries (joined store ops) s h in
      let (first, rest) =
        ok-left (append_run store op.entries s) (append_run store (joined store ops))
          (ap (λ r. r.0) (sym split) ∙ h) in
      split
      ∙ rest
      ∙ joined-run_each rc ops (append_run store op.entries s).1 a
          (ap (λ r. r.0) (sym (split ∙ rest)) ∙ h)
      ∙ sym (then_run-ok (append_run store op.entries s) (run_each store rc ops) first)
      ∙ ap (λ r. then_run r (run_each store rc ops)) (sym here)

  -- A run of a shape that `take` gives, when it succeeds, does what its operations do one by one.
  pub run_batch-run_each :
      (rc : Bool) (ops : List WriteOp) (s : S)
      → Shape ops
      → (run_batch store rc ops s).0 ≡ none
      → run_batch store rc ops s ≡ run_each store rc ops s
  unfolding run_batch run_each joined
  run_batch-run_each rc [] s a h = refl
  run_batch-run_each rc (op ∷ []) s a h = sym (then_run-unit (run_one store rc op s))
  run_batch-run_each rc (op ∷ next ∷ ops) s (a, inr is) h =
      let batch : run_batch store rc (op ∷ next ∷ ops) s
          ≡ append_run store (joined store (op ∷ next ∷ ops)) s =
        rw (append_no_hard_state op is) refl in
      batch ∙ joined-run_each rc (op ∷ next ∷ ops) s (is, a) (ap (λ r. r.0) (sym batch) ∙ h)
  run_batch-run_each rc (op ∷ next ∷ ops) s (a, inl is) h =
      let tail = joined store (next ∷ ops) in
      let batch : run_batch store rc (op ∷ next ∷ ops) s ≡ store.save_state op.hs tail s =
        rw is refl in
      let halves = in_order.both op.hs tail s (ap (λ r. r.0) (sym batch) ∙ h) in
      let saved = batch ∙ halves in
      let (first, rest) =
        ok-left (store.save_hard_state op.hs s) (append_run store tail)
          (ap (λ r. r.0) (sym saved) ∙ h) in
      saved
      ∙ rest
      ∙ joined-run_each rc (next ∷ ops) (store.save_hard_state op.hs s).1 a
          (ap (λ r. r.0) (sym (saved ∙ rest)) ∙ h)
      ∙ sym (then_run-ok (store.save_hard_state op.hs s) (run_each store rc (next ∷ ops)) first)
      ∙ ap (λ r. then_run r (run_each store rc (next ∷ ops))) (sym (run_one-hard_state rc op s is))

  then_run-each :
      (r : Option Error × S) (f g k : S → Option Error × S)
      → ((t : S) → f t ≡ then_run (g t) k)
      → then_run r f ≡ then_run (then_run r g) k
  then_run-each (none, s) f g k h = h s
  then_run-each (some e, s) f g k h = refl

  pub run_each-append :
      (rc : Bool) (xs ys : List WriteOp) (s : S)
      → run_each store rc (xs ++ ys) s ≡ then_run (run_each store rc xs s) (run_each store rc ys)
  unfolding run_each
  run_each-append rc [] ys s = refl
  run_each-append rc (x ∷ xs) ys s =
      then_run-each (run_one store rc x s) (run_each store rc (xs ++ ys)) (run_each store rc xs)
        (run_each store rc ys) (λ t. run_each-append rc xs ys t)
