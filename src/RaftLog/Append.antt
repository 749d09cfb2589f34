-- ===== src/RaftLog/Append.antt =====
-- `append` of raft_log.go: the log it stands for grows by the entries.
use raft.Prelude.{
  ℕ, ◌+◌, ◌<◌, ◌≡◌, refl, ap, ◌∙◌, sym, subst, ◌≢◌, u64_mod, add64, List, [], ◌∷◌, ◌++◌, length,
  length-append, arith,
}
use mathlib.Core.List.{append-nil, append_assoc}
use raft.Types.{LogEntry}
use raft.RaftLog.History.{Chained, term_in, Chained-append, term_in_outside}
use raft.RaftLog.Runs.{extend_runs}
use raft.RaftLog.RunIndex.{extend_runs-append}
use raft.RaftLog.Segments.{UnstableSeg, command_bytes, last_entry}
use raft.RaftLog.Unstable.{flat, Filled, command_bytes-append, last_entry-index}
use raft.RaftLog.Defs.{RaftLog, last_log_index, append}
use raft.RaftLog.Models.{Models, Ends}

flat-append : (ss : List UnstableSeg) (s : UnstableSeg) → flat (ss ++ s ∷ []) ≡ flat ss ++ s.entries
flat-append [] s = append-nil s.entries
flat-append (t ∷ ts) s =
    ap (λ x. t.entries ++ x) (flat-append ts s) ∙ sym (append_assoc t.entries (flat ts) s.entries)

Filled-append :
    (ss : List UnstableSeg) (s : UnstableSeg) → s.entries ≢ [] → Filled ss → Filled (ss ++ s ∷ [])
Filled-append [] s n d = (n, tt)
Filled-append (t ∷ ts) s n d = (d.0, Filled-append ts s n d.1)

pub last_entry-append :
    (x : LogEntry) (xs : List LogEntry) (e : LogEntry) (es : List LogEntry)
    → last_entry x (xs ++ e ∷ es) ≡ last_entry e es
last_entry-append x [] e es = refl
last_entry-append x (y ∷ ys) e es = last_entry-append y ys e es

pub term_in-append_outside :
    (i a : ℕ) (xs ys : List LogEntry) → Chained a ys → i < a → term_in (xs ++ ys) i ≡ term_in xs i
term_in-append_outside i a [] ys c h = term_in_outside a i ys c h
term_in-append_outside i a (x ∷ xs) ys c h = ground (arith, term_in-append_outside i a xs ys c h)

-- New entries start one past what the log, or the snapshot where it is empty, reaches.
abbrev pub end_of : RaftLog → List LogEntry → ℕ
end_of rl [] = rl.snap_meta.last_included_index
end_of rl (x ∷ xs) = rl.last

pub last_log_index-end_of :
    (rl : RaftLog) (log : List LogEntry) → Ends rl log → last_log_index rl ≡ end_of rl log
unfolding last_log_index
last_log_index-end_of rl [] h = ground arith
last_log_index-end_of rl (x ∷ xs) h = ground arith

module _ (rl : RaftLog) (e : LogEntry) (es : List LogEntry) where
  append-Ends :
      (log : List LogEntry)
      → Ends rl log
      → Chained (end_of rl log + 1) (e ∷ es)
      → Ends (append rl (e ∷ es)).1 (log ++ e ∷ es)
  unfolding append
  append-Ends [] h c = ground (arith, h.0, last_entry-index e es (rw c.0 c.1))
  append-Ends (x ∷ xs) h c = ground (
    arith,
    h.0,
    h.1,
    h.3,
    last_entry-index e es (rw c.0 c.1),
    length-append xs (e ∷ es),
    last_entry-append x xs e es,
  )

  append-Chained :
      (log : List LogEntry)
      → Ends rl log
      → Chained rl.first log
      → Chained (end_of rl log + 1) (e ∷ es)
      → Chained (append rl (e ∷ es)).1.first (log ++ e ∷ es)
  unfolding append
  append-Chained [] h k c = rw h.0 (refl, rw c.0 c.1)
  append-Chained (x ∷ xs) h k c =
      let there : rl.first ≢ 0 = omega (arith, h.0) in
      subst (λ n. Chained n (x ∷ xs ++ e ∷ es)) (ground arith)
        (Chained-append rl.first (x ∷ xs) (e ∷ es) k
          (subst (λ n. Chained n (e ∷ es)) (omega (arith, h.1)) c))

  append-boundary :
      (log : List LogEntry)
      → Ends rl log
      → Chained (end_of rl log + 1) (e ∷ es)
      → term_in (log ++ e ∷ es) rl.snap_meta.last_included_index
        ≡ term_in log rl.snap_meta.last_included_index
  append-boundary [] h c =
      term_in-append_outside rl.snap_meta.last_included_index (rl.snap_meta.last_included_index + 1)
        [] (e ∷ es) c (omega arith)
  append-boundary (x ∷ xs) h c =
      term_in-append_outside rl.snap_meta.last_included_index (rl.last + 1) (x ∷ xs) (e ∷ es) c
        (omega (arith, h.3))

module _ (rl : RaftLog) (log written : List LogEntry) (e : LogEntry) (es : List LogEntry) where
  -- `append` makes the state stand for the log with the entries at its end, none of them written,
  -- when they carry the next indices and those fit in 64 bits.
  pub append-Models :
      Models rl log written
      → Chained (last_log_index rl + 1) (e ∷ es)
      → last_log_index rl + length (e ∷ es) + 1 < u64_mod
      → Models (append rl (e ∷ es)).1 (log ++ e ∷ es) written
  unfolding append
  append-Models m c h =
      let place : Chained (end_of rl log + 1) (e ∷ es) =
        subst (λ n. Chained (n + 1) (e ∷ es)) (last_log_index-end_of rl log m.ends) c in
      let grown = flat-append rl.segs (record { seq = add64 rl.next_seq 1; entries = e ∷ es }) in
      record {
        ends = append-Ends rl e es log m.ends place;
        chained = append-Chained rl e es log m.ends m.chained place;
        run_index =
            ap (λ r. extend_runs r (e ∷ es)) m.run_index ∙ sym (extend_runs-append [] log (e ∷ es));
        held =
            ap (λ x. written ++ x) grown
            ∙ sym (append_assoc written (flat rl.segs) (e ∷ es))
            ∙ ap (λ x. x ++ e ∷ es) m.held;
        boundary = λ t q. m.boundary t (sym (append-boundary rl e es log m.ends place) ∙ q);
        filled = Filled-append rl.segs _ (λ z. cc) m.filled;
        bytes =
            ap (λ n. n + command_bytes (e ∷ es)) m.bytes
            ∙ sym (command_bytes-append (flat rl.segs) (e ∷ es))
            ∙ ap command_bytes (sym grown);
        fits = omega (arith, h, c.0, last_entry-index e es (rw c.0 c.1));
        snap_fits = m.snap_fits;
      }
