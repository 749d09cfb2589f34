-- ===== src/RaftLog/Stable.antt =====
-- `stableIndex` of raft_log.go: how far the node may vouch for its own storage.
use raft.Prelude.{
  ℕ, ◌+◌, ◌≤◌, ◌<◌, ◌≡◌, ◌≢◌, refl, sym, ap, ◌∙◌, subst, List, [], ◌∷◌, ◌++◌, All, length,
  length-append, u64_mod, arith, ◌⊎◌, inl, inr,
}
use raft.Types.{LogEntry}
use raft.RaftLog.History.{Chained}
use raft.RaftLog.Segments.{UnstableSeg, unstable_first}
use raft.RaftLog.Unstable.{flat, Filled, Chained-left, Chained-right}
use raft.RaftLog.Defs.{RaftLog, last_log_index, cap_unstable, stable_index}
use raft.RaftLog.Models.{Models, Ends}

first_of :
    (a : ℕ) (es : List LogEntry) (segs : List UnstableSeg)
    → es ≢ []
    → Chained a (es ++ flat segs)
    → (elim es as (λ l. ℕ) [ [] ↦ unstable_first segs | e ∷ es ↦ e.index ]) ≡ a
first_of a [] segs h c = absurd (h refl)
first_of a (e ∷ es) segs h c = c.0

-- The first entry that is held is where the held part of the log begins.
unstable_first-flat :
    (a : ℕ) (segs : List UnstableSeg)
    → Filled segs
    → Chained a (flat segs)
    → flat segs ≢ []
    → unstable_first segs ≡ a
unfolding unstable_first
unstable_first-flat a [] f c h = absurd (h refl)
unstable_first-flat a (s ∷ segs) f c h = first_of a s.entries segs f.0 c

nothing_held : (segs : List UnstableSeg) → Filled segs → flat segs ≡ [] → unstable_first segs ≡ 0
unfolding unstable_first
nothing_held [] f h = refl
nothing_held (s ∷ segs) f h = go s.entries f.0 h
  where
    go :
        (es : List LogEntry)
        → es ≢ []
        → es ++ flat segs ≡ []
        → (elim es as (λ l. ℕ) [ [] ↦ unstable_first segs | e ∷ es ↦ e.index ]) ≡ 0
    go [] full k = absurd (full refl)
    go (e ∷ es) full k = cc

pub Ends-length :
    (rl : RaftLog) (log : List LogEntry)
    → Ends rl log
    → 0 < rl.first
    → rl.last + 1 ≡ rl.first + length log
Ends-length rl [] h some_left = absurd (omega (arith, h.0, some_left))
Ends-length rl (e ∷ es) h some_left = omega (arith, h.1)

pub written-Chained :
    (rl : RaftLog) (log written : List LogEntry) → Models rl log written → Chained rl.first written
written-Chained rl log written m =
    Chained-left rl.first written (flat rl.segs) (subst (Chained rl.first) (sym m.held) m.chained)

-- The written part of a log ends where the segments begin, or at the end of the log.
pub written-end :
    (rl : RaftLog) (log written : List LogEntry)
    → Models rl log written
    → 0 < rl.first
    → ((unstable_first rl.segs ≡ 0) × (rl.last + 1 ≡ rl.first + length written))
      ⊎ (unstable_first rl.segs ≡ rl.first + length written)
written-end rl log written m some_left = go (flat rl.segs) refl
  where
    long : rl.first + length written + length (flat rl.segs) ≡ rl.last + 1
    long = omega (
      arith,
      Ends-length rl log m.ends some_left,
      length-append written (flat rl.segs),
      ap length m.held,
    )

    go :
        (held : List LogEntry)
        → flat rl.segs ≡ held
        → ((unstable_first rl.segs ≡ 0) × (rl.last + 1 ≡ rl.first + length written))
          ⊎ (unstable_first rl.segs ≡ rl.first + length written)
    go [] q = inl (nothing_held rl.segs m.filled q, omega (arith, long, ap length q))
    go (e ∷ es) q = inr (
        unstable_first-flat (rl.first + length written) rl.segs m.filled
          (Chained-right rl.first written (flat rl.segs)
            (subst (Chained rl.first) (sym m.held) m.chained))
          (λ z. cc (q, z)))

Chained-above : (a k : ℕ) (es : List LogEntry) → Chained a es → k < a → All (λ e. k < e.index) es
Chained-above a k [] c h = tt
Chained-above a k (e ∷ es) c h = (omega (arith, c.0), Chained-above (a + 1) k es c.1 (omega arith))

cap_unstable-lt : (us d : ℕ) → 0 < us → us < u64_mod → cap_unstable us d < us
unfolding cap_unstable
cap_unstable-lt us d h k = ground arith

stable_index-last : (rl : RaftLog) → stable_index rl ≤ last_log_index rl
unfolding stable_index last_log_index
stable_index-last rl = ground arith

stable_index-capped :
    (rl : RaftLog)
    → 0 < unstable_first rl.segs
    → unstable_first rl.segs < u64_mod
    → stable_index rl < unstable_first rl.segs
unfolding stable_index last_log_index
stable_index-capped rl h k = ground (
  arith,
  cap_unstable-lt (unstable_first rl.segs) rl.durable h k,
  cap_unstable-lt (unstable_first rl.segs) rl.snap_meta.last_included_index h k,
)

held_above :
    (rl : RaftLog) (written held : List LogEntry)
    → held ≡ flat rl.segs
    → Chained (rl.first + length written) held
    → Filled rl.segs
    → 0 < rl.first
    → rl.first + length written + length held < u64_mod
    → All (λ e. stable_index rl < e.index) held
held_above rl written [] q c f p h = tt
held_above rl written (e ∷ es) q c f p h =
    let a = rl.first + length written in
    let first : unstable_first rl.segs ≡ a =
      unstable_first-flat a rl.segs f (subst (Chained a) q c) (λ z. cc) in
    Chained-above a (stable_index rl) (e ∷ es) c
      (omega (arith, first, stable_index-capped rl (omega (arith, first)) (omega (arith, first))))

none_held : (xs ys : List LogEntry) → xs ++ ys ≡ [] → ys ≡ []
none_held [] ys h = h
none_held (x ∷ xs) ys h = cc

-- `stableIndex` never vouches for an entry that is only in memory: every entry that the segments
-- hold lies above it, and it lies within the log.
pub stable_index-held :
    (rl : RaftLog) (log written : List LogEntry)
    → Models rl log written
    → (stable_index rl ≤ last_log_index rl) × All (λ e. stable_index rl < e.index) (flat rl.segs)
stable_index-held rl log written m = (stable_index-last rl, go log refl m.ends)
  where
    go :
        (l : List LogEntry)
        → log ≡ l
        → Ends rl l
        → All (λ e. stable_index rl < e.index) (flat rl.segs)
    go [] q h =
        subst (All (λ e. stable_index rl < e.index))
          (sym (none_held written (flat rl.segs) (m.held ∙ q))) tt
    go (e ∷ es) q h =
        held_above rl written (flat rl.segs) refl
          (Chained-right rl.first written (flat rl.segs)
            (subst (Chained rl.first) (sym m.held) m.chained))
          m.filled h.0
          (omega (
            arith,
            h.1,
            m.fits,
            length-append written (flat rl.segs),
            ap length m.held,
            ap length q,
          ))
