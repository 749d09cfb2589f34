-- ===== src/RaftLog/UnstableCuts.antt =====
-- `dropUnstableFrom`, `dropUnstableBelow` and the release of written segments (raft_log.go): what
-- the segments hold afterwards, and that the byte count follows.
use raft.Prelude.{
  ℕ, ◌+◌, ◌-◌, ◌≤◌, ltb, leb, ◌≡◌, ◌≢◌, refl, ap, ◌∙◌, sym, subst, List, [], ◌∷◌, ◌++◌, length,
  drop, arith, Bool-cases, inl, inr, leb→le, ltb→lt, false,
}
use mathlib.Core.List.{append-nil}
use raft.Types.{LogEntry}
use raft.RaftLog.History.{
  Chained, below, from_on, below-none, below-all, from_on-all, from_on-none, below-append,
  from_on-append, length-from_on,
}
use raft.RaftLog.Segments.{
  UnstableSeg, command_bytes, last_entry, trim_last, keep_older, drop_unstable_from,
  drop_unstable_below,
}
use raft.RaftLog.Unstable.{
  flat, Filled, command_bytes-append, Chained-left, Chained-right, last_entry-index, take-below,
  drop-from_on, bytes-split,
}

-- The segments `r.0` hold the entries `es`, which were cut from `all`, and `bytes` went to `r.1`.
abbrev pub Holds : ℕ → List LogEntry → List UnstableSeg × ℕ → List LogEntry → Type 0
Holds bytes all r es =
    (flat r.0 ≡ es) × (command_bytes es + bytes ≡ r.1 + command_bytes all) × Filled r.0

not_lt : (a b : ℕ) → ltb a b ≡ false → b ≤ a
not_lt a b h = ground arith

append-ne-nil : (xs ys : List LogEntry) → xs ≢ [] → xs ++ ys ≢ []
append-ne-nil [] ys n e = n refl
append-ne-nil (x ∷ xs) ys n e = cc

module _ (i : ℕ) where
  trim_entries :
      (seq bytes : ℕ) (e : LogEntry) (es : List LogEntry)
      → Chained e.index (e ∷ es)
      → command_bytes (e ∷ es) ≤ bytes
      → Holds bytes
          (e ∷ es)
          (trim_last i (record { seq = seq; entries = e ∷ es }) bytes)
          (below i (e ∷ es))
  unfolding trim_last
  trim_entries seq bytes e es h k =
      let at_end = last_entry-index e es h.1 in
      let n = i - e.index in
      elim (Bool-cases (leb i e.index)) [
        | inl gone ↦
            rw (gone, below-none e.index i (e ∷ es) h (ground arith))
              (refl, unfold command_bytes in omega arith, tt)
        | inr some_left ↦
            let t = take-below e.index i (e ∷ es) h (ground arith) in
            elim (Bool-cases (leb i (last_entry e es).index)) [
              | inl cut ↦
                  rw (some_left, cut)
                    (
                      append-nil _ ∙ t,
                      omega (arith, ap command_bytes t, bytes-split n (e ∷ es), k),
                      (λ z. ground (arith, sym t ∙ z), tt),
                    )
              | inr kept ↦
                  rw (some_left, kept, below-all e.index i (e ∷ es) h (ground arith))
                    (append-nil _, omega arith, (λ z. cc, tt))
            ]
      ]

  trim_segment :
      (seq : ℕ) (es : List LogEntry) (bytes a : ℕ)
      → es ≢ []
      → Chained a es
      → command_bytes es ≤ bytes
      → Holds bytes es (trim_last i (record { seq = seq; entries = es }) bytes) (below i es)
  trim_segment seq [] bytes a n h k = absurd (n refl)
  trim_segment seq (e ∷ es) bytes a n h k = trim_entries seq bytes e es (refl, rw h.0 h.1) k

  keep_older-Holds :
      (s : UnstableSeg) (a bytes : ℕ) (newer : List LogEntry) (r : List UnstableSeg × ℕ)
      → s.entries ≢ []
      → Chained a s.entries
      → Chained (a + length s.entries) newer
      → command_bytes (s.entries ++ newer) ≤ bytes
      → Holds bytes newer r (below i newer)
      → Holds bytes (s.entries ++ newer) (keep_older i s r) (below i (s.entries ++ newer))
  keep_older-Holds s a bytes newer ([], left) n h c k (f, b, _) =
      let none_newer : below i newer ≡ [] = sym f in
      let cut =
        below-append i s.entries newer
        ∙ ap (λ x. below i s.entries ++ x) none_newer
        ∙ append-nil (below i s.entries) in
      let sizes : left + command_bytes newer ≡ bytes =
        unfold command_bytes in omega (arith, b, ap command_bytes none_newer) in
      let fits : command_bytes s.entries ≤ left =
        omega (arith, sizes, k, command_bytes-append s.entries newer) in
      let (held, size, filled) = trim_segment s.seq s.entries left a n h fits in
      rw cut (held, omega (arith, size, sizes, command_bytes-append s.entries newer), filled)
  keep_older-Holds s a bytes newer (t ∷ ts, left) n h c k (f, b, d) =
      elim (Bool-cases (leb (a + length s.entries) i)) [
        | inl above ↦
            let whole = below-all a i s.entries h (leb→le _ _ above) in
            let cut = below-append i s.entries newer ∙ ap (λ x. x ++ below i newer) whole in
            rw cut (
              ap (λ x. s.entries ++ x) f,
              omega (
                arith,
                b,
                command_bytes-append s.entries newer,
                command_bytes-append s.entries (below i newer),
              ),
              (n, d),
            )
        | inr under ↦ absurd (
            append-ne-nil t.entries (flat ts) d.0
              (f ∙ below-none (a + length s.entries) i newer c (ground arith)))
      ]

  pub drop_unstable_from-Holds :
      (ss : List UnstableSeg) (a bytes : ℕ)
      → Filled ss
      → Chained a (flat ss)
      → command_bytes (flat ss) ≤ bytes
      → Holds bytes (flat ss) (drop_unstable_from i ss bytes) (below i (flat ss))
  unfolding drop_unstable_from
  drop_unstable_from-Holds [] a bytes d h k = (refl, omega arith, tt)
  drop_unstable_from-Holds (s ∷ ss) a bytes d h k =
      let older = Chained-left a s.entries (flat ss) h in
      let newer = Chained-right a s.entries (flat ss) h in
      keep_older-Holds s a bytes (flat ss) (drop_unstable_from i ss bytes) d.0 older newer k (
        drop_unstable_from-Holds ss (a + length s.entries) bytes d.1 newer
          (omega (arith, k, command_bytes-append s.entries (flat ss))))

  -- What `dropUnstableBelow` does with one segment of entries, given the result for the rest.
  below_segment :
      (seq a bytes : ℕ) (e : LogEntry) (es : List LogEntry) (ss : List UnstableSeg)
      → Chained a (e ∷ es ++ flat ss)
      → Filled ss
      → command_bytes (e ∷ es ++ flat ss) ≤ bytes
      → Holds
          (bytes - command_bytes (e ∷ es))
          (flat ss)
          (drop_unstable_below i ss (bytes - command_bytes (e ∷ es)))
          (from_on i (flat ss))
      → Holds bytes
          (e ∷ es ++ flat ss)
          (drop_unstable_below i (record { seq = seq; entries = e ∷ es } ∷ ss) bytes)
          (from_on i (e ∷ es ++ flat ss))
  unfolding drop_unstable_below
  below_segment seq a bytes e es ss h d k (f, b, g) =
      let own : Chained e.index (e ∷ es) = (refl, rw h.0 (Chained-left a (e ∷ es) (flat ss) h).1) in
      let newer : Chained (e.index + length (e ∷ es)) (flat ss) =
        rw h.0 (Chained-right a (e ∷ es) (flat ss) h) in
      let at_end = last_entry-index e es own.1 in
      let parts = from_on-append i (e ∷ es) (flat ss) in
      let sizes = command_bytes-append (e ∷ es) (flat ss) in
      let n = i - e.index in
      elim (Bool-cases (ltb (last_entry e es).index i)) [
        | inl gone ↦
            let cut =
              parts
              ∙ ap (λ x. x ++ from_on i (flat ss))
                  (from_on-none e.index i (e ∷ es) own (ground arith)) in
            rw (gone, cut) (f, omega (arith, b, sizes, k), g)
        | inr some_left ↦
            let rest_kept =
              from_on-all (e.index + length (e ∷ es)) i (flat ss) newer (ground arith) in
            elim (Bool-cases (ltb e.index i)) [
              | inl trimmed ↦
                  let t = drop-from_on e.index i (e ∷ es) own (ground arith) in
                  let cut =
                    parts
                    ∙ ap (λ x. from_on i (e ∷ es) ++ x) rest_kept
                    ∙ ap (λ x. x ++ flat ss) (sym t) in
                  subst (Holds bytes (e ∷ es ++ flat ss) _) (sym cut) (
                    rw (some_left, trimmed)
                      (
                        refl,
                        omega (
                          arith,
                          bytes-split n (e ∷ es),
                          command_bytes-append (drop n (e ∷ es)) (flat ss),
                          sizes,
                          k,
                        ),
                        (
                          λ z. absurd (
                              omega (
                                arith,
                                ap length z,
                                ap length t,
                                length-from_on e.index i (e ∷ es) own,
                                ltb→lt e.index i trimmed,
                                not_lt (last_entry e es).index i some_left,
                              )),
                          d,
                        ),
                      ))
              | inr whole ↦
                  let cut =
                    from_on-all e.index i (e ∷ es ++ flat ss) (refl, rw h.0 h.1) (ground arith) in
                  subst (Holds bytes (e ∷ es ++ flat ss) _) (sym cut)
                    (rw (some_left, whole) (refl, omega arith, ((λ z. cc), d)))
            ]
      ]

  pub drop_unstable_below-Holds :
      (ss : List UnstableSeg) (a bytes : ℕ)
      → Filled ss
      → Chained a (flat ss)
      → command_bytes (flat ss) ≤ bytes
      → Holds bytes (flat ss) (drop_unstable_below i ss bytes) (from_on i (flat ss))
  drop_unstable_below-Holds [] a bytes d h k = unfold drop_unstable_below in (refl, omega arith, tt)
  drop_unstable_below-Holds (s ∷ ss) a bytes d h k = go s.entries s.seq d.0 h k (λ n.
      drop_unstable_below-Holds ss (a + length s.entries) n d.1
        (Chained-right a s.entries (flat ss) h))
    where
      go :
          (es : List LogEntry) (seq : ℕ)
          → es ≢ []
          → Chained a (es ++ flat ss)
          → command_bytes (es ++ flat ss) ≤ bytes
          → ((n : ℕ)
              → command_bytes (flat ss) ≤ n
              → Holds n (flat ss) (drop_unstable_below i ss n) (from_on i (flat ss)))
          → Holds bytes
              (es ++ flat ss)
              (drop_unstable_below i (record { seq = seq; entries = es } ∷ ss) bytes)
              (from_on i (es ++ flat ss))
      go [] seq n c b rest = absurd (n refl)
      go (e ∷ es) seq n c b rest = below_segment seq a bytes e es ss c d.1 b (
          rest (bytes - command_bytes (e ∷ es))
            (omega (arith, b, command_bytes-append (e ∷ es) (flat ss))))
