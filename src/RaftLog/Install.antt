-- ===== src/RaftLog/Install.antt =====
-- `installSnapshot` and `stabilize` of raft_log.go.
use raft.Prelude.{
  ℕ, ◌+◌, ◌≤◌, ◌<◌, ltb, ◌==◌, if◌then◌else◌, ◌≡◌, refl, ap, ◌∙◌, sym, subst, u64_mod, add64, true,
  false, none, some, Option, List, [], ◌∷◌, ◌++◌, arith, Bool-cases, inl, inr,
}
use mathlib.Core.List.{append_assoc}
use raft.Types.{LogEntry, SnapshotMeta, ok}
use raft.RaftLog.Terms.{term_at-answer}
use raft.StorageWriter.Queue.{WriteDone}
use raft.RaftLog.History.{
  Chained, term_in, from_on, below, below-none, from_on-Chained, term_in_outside, from_on-all,
}
use raft.RaftLog.Runs.{extend_runs}
use raft.RaftLog.Segments.{release_written}
use raft.RaftLog.Release.{released, release_written-Holds}
use raft.RaftLog.Defs.{RaftLog, set_base, agrees_with, install_snapshot, truncate_prefix, stabilize}
use raft.RaftLog.Models.{Models, Ends}
use raft.RaftLog.Truncate.{truncate_suffix-Models}
use raft.RaftLog.Prefix.{truncate_prefix-Models}

-- A new base below everything that the log still holds.
set_base-Models :
    (snap : SnapshotMeta) (rl : RaftLog) (log written : List LogEntry) (a : ℕ)
    → Models rl log written
    → Chained a log
    → snap.last_included_index < a
    → snap.last_included_index + 1 < u64_mod
    → Models (set_base snap rl) log written
unfolding set_base
set_base-Models snap rl [] written a m c k f =
    let none_left : (rl.last == 0) ≡ true = ground (arith, m.ends.1) in
    rw none_left (record {
      ends = (refl, m.ends.1, refl);
      chained = tt;
      run_index = unfold extend_runs in refl;
      held = m.held;
      boundary = λ t q. cc;
      filled = m.filled;
      bytes = m.bytes;
      fits = m.fits;
      snap_fits = f;
    })
set_base-Models snap rl (e ∷ es) written a m c k f =
    let some_left : (rl.last == 0) ≡ false = ground (arith, m.ends.0, m.ends.1) in
    rw some_left (record {
      ends = (m.ends.0, m.ends.1, m.ends.2, omega (arith, m.ends.1, m.chained.0, c.0));
      chained = m.chained;
      run_index = m.run_index;
      held = m.held;
      boundary = λ t q. cc (term_in_outside a snap.last_included_index (e ∷ es) c k, q);
      filled = m.filled;
      bytes = m.bytes;
      fits = m.fits;
      snap_fits = f;
    })

set_base-snap_meta : (snap : SnapshotMeta) (rl : RaftLog) → (set_base snap rl).snap_meta ≡ snap
unfolding set_base
set_base-snap_meta snap rl = ground arith

log-empty : (rl : RaftLog) (log : List LogEntry) → Ends rl log → rl.first ≡ 0 → log ≡ []
log-empty rl [] h e = refl
log-empty rl (x ∷ xs) h e = absurd (omega (arith, h.0))

-- The term that a log behind the snapshot `base` has at an index; the index 0 has the term 0.
abbrev pub known_term : SnapshotMeta → List LogEntry → ℕ → Option ℕ
known_term base log i =
    if i == 0
    then some 0
    else if i == base.last_included_index
    then some base.last_included_term
    else term_in log i

-- What of the log outlives the installation of a snapshot: the entries after it where the term at its
-- index is the snapshot's, and nothing where it is another, or none.
abbrev pub surviving : SnapshotMeta → SnapshotMeta → List LogEntry → List LogEntry
surviving base snap log = elim (known_term base log snap.last_included_index) [
  | none ↦ []
  | some t ↦ if t == snap.last_included_term then from_on (snap.last_included_index + 1) log else []
]

agrees_with-surviving :
    (rl : RaftLog) (snap : SnapshotMeta) (log written : List LogEntry)
    → Models rl log written
    → surviving rl.snap_meta snap log
      ≡ (if agrees_with rl snap then from_on (snap.last_included_index + 1) log else [])
unfolding agrees_with
agrees_with-surviving rl snap log written m =
    ground (arith, term_at-answer rl log written snap.last_included_index m)

from_on-Chained-outside :
    (a i : ℕ) (es : List LogEntry) → Chained a es → (b : ℕ) × (i ≤ b) × Chained b (from_on i es)
from_on-Chained-outside a i es c = elim (Bool-cases (ltb a i)) [
  | inl h ↦ (i, omega arith, from_on-Chained a i es c (ground arith))
  | inr h ↦ (a, ground arith, subst (Chained a) (sym (from_on-all a i es c (ground arith))) c)
]

module _ (rl : RaftLog) (snap : SnapshotMeta) (log written : List LogEntry)
    (m : Models rl log written) (f : snap.last_included_index + 1 < u64_mod) where
  abbrev Installed : List LogEntry → Type 0
  Installed kept =
      (r : RaftLog) × (install_snapshot rl snap ≡ ok r)
      × (r.snap_meta ≡ snap)
      × ((w : List LogEntry) × Models r kept w)

  install_agreeing :
      agrees_with rl snap ≡ true → Installed (from_on (snap.last_included_index + 1) log)
  unfolding install_snapshot
  install_agreeing h =
      let to = snap.last_included_index + 1 in
      let exact : add64 snap.last_included_index 1 ≡ to = omega arith in
      let (b, above, chain) = from_on-Chained-outside rl.first to log m.chained in
      (
        set_base snap (truncate_prefix rl to),
        rw (h, exact) refl,
        set_base-snap_meta snap (truncate_prefix rl to),
        (
          from_on to written,
          set_base-Models snap (truncate_prefix rl to) (from_on to log) (from_on to written) b
              (truncate_prefix-Models rl log written to m (omega arith)) chain
              (omega (arith, above)) f,
        ),
      )

  install_differing : agrees_with rl snap ≡ false → Installed []
  unfolding install_snapshot
  install_differing h = elim (Bool-cases (rl.first == 0)) [
    | inl empty ↦ (
      set_base snap rl,
      rw (h, empty) refl,
      set_base-snap_meta snap rl,
      (
        written,
        set_base-Models snap rl [] written (snap.last_included_index + 1)
            (subst (λ l. Models rl l written) (log-empty rl log m.ends (ground arith)) m) tt
            (omega arith) f,
      ),
    )
    | inr some_left ↦
        let (cut, done, models) =
          truncate_suffix-Models rl log written rl.first m (inl (omega arith)) in
        let none_left = below-none rl.first rl.first log m.chained (omega arith) in
        (
          set_base snap cut,
          rw (h, some_left, done) refl,
          set_base-snap_meta snap cut,
          (
            below rl.first written,
            set_base-Models snap cut [] (below rl.first written) (snap.last_included_index + 1)
                (subst (λ l. Models cut l (below rl.first written)) none_left models) tt
                (omega arith) f,
          ),
        )
  ]

-- Installing a snapshot never fails, and its boundary becomes the base. The entries after it are
-- kept where the entry at the snapshot's index (or the boundary before) has the snapshot's term;
-- where it has another term, or the log has no entry there, none is kept.
pub install_snapshot-Models :
    (rl : RaftLog) (snap : SnapshotMeta) (log written : List LogEntry)
    → Models rl log written
    → snap.last_included_index + 1 < u64_mod
    → (r : RaftLog) × (install_snapshot rl snap ≡ ok r)
      × (r.snap_meta ≡ snap)
      × ((w : List LogEntry) × Models r (surviving rl.snap_meta snap log) w)
install_snapshot-Models rl snap log written m f =
    let same = agrees_with-surviving rl snap log written m in
    subst (Installed rl snap log written m f) (sym same) (elim (Bool-cases (agrees_with rl snap)) [
      | inl h ↦ rw h (install_agreeing rl snap log written m f h)
      | inr h ↦ rw h (install_differing rl snap log written m f h)
    ])

Ends-same :
    (rl r : RaftLog) (log : List LogEntry)
    → r.first ≡ rl.first
    → r.last ≡ rl.last
    → r.last_term ≡ rl.last_term
    → r.snap_meta ≡ rl.snap_meta
    → Ends rl log
    → Ends r log
Ends-same rl r [] f l t s h = (f ∙ h.0, l ∙ h.1, cc (h.2, t, s))
Ends-same rl r (e ∷ es) f l t s h = (
  omega (arith, f, h.0),
  omega (arith, f, l, h.1),
  t ∙ h.2,
  omega (arith, l, h.3, ap (λ x. x.last_included_index) s),
)

-- A completed write leaves the log as it is: the entries of the segments up to its number count as
-- written, and the others stay in memory.
pub stabilize-Models :
    (rl : RaftLog) (d : WriteDone) (log written : List LogEntry)
    → Models rl log written
    → d.error ≡ none
    → Models (stabilize rl d) log (written ++ released d.seq rl.segs)
unfolding stabilize
stabilize-Models rl d log written m h =
    let (held, size, filled) =
      release_written-Holds d.seq rl.unstable_bytes rl.segs m.filled (omega (arith, m.bytes)) in
    let after : RaftLog = record rl {
      durable = d.durable_after;
      segs = (release_written d.seq rl.segs rl.unstable_bytes).0;
      unstable_bytes = (release_written d.seq rl.segs rl.unstable_bytes).1;
    } in
    rw h (record {
      ends = Ends-same rl after log refl refl refl refl m.ends;
      chained = m.chained;
      run_index = m.run_index;
      held = append_assoc written (released d.seq rl.segs) _ ∙ ap (λ x. written ++ x) held ∙ m.held;
      boundary = m.boundary;
      filled = filled;
      bytes = omega (arith, size, m.bytes);
      fits = m.fits;
      snap_fits = m.snap_fits;
    })
