-- ===== src/Recovery/Replay.antt =====
-- Replaying a log that ends in a finalise entry leaves the membership that the entry records.
use raft.Prelude.{
  ℕ, zero, suc, ◌+◌, ◌≤◌, ◌<◌, leb, Bool, Bool-cases, true, inl, inr, min, List, [], ◌∷◌, ◌++◌,
  length, length-append, add64, u64_mod, ◌≡◌, refl, sym, ap, ◌∙◌, subst, arith, ◌⊎◌,
}
use raft.Types.{LogEntry, PeerConfig, ok}
use raft.ConfigEntry.Defs.{
  MembershipState, encode_finalise_config_entry, decode_config_entry, config_body, is_config_entry,
}
use raft.ConfigEntry.RoundTrip.{Fits, decode-encode_finalise}
use raft.RaftLog.History.{
  Chained, below, from_on, below-all, length-below, length-from_on, from_on-Chained,
}
use raft.RaftLog.Segments.{last_entry}
use raft.MemStore.Defs.{MemStore, get_log_entries}
use raft.MemStore.Log.{get_log_entries-range}
use raft.Recovery.Members.{no_membership, adopt_membership_op, adopt_membership_entry, replay_batch}
use raft.Recovery.Defs.{replay_config_entries, replay_size}
use raft.Recovery.Store.{mem_storage}

-- The membership that a finalise entry states.
abbrev pub whole : List PeerConfig → MembershipState
whole members = record no_membership { members = members }

is_config_entry-finalise :
    (ps : List PeerConfig) → is_config_entry (encode_finalise_config_entry ps) ≡ true
unfolding is_config_entry encode_finalise_config_entry config_body
is_config_entry-finalise ps = refl

adopt_membership_entry-finalise :
    (ps : List PeerConfig) (ms : MembershipState)
    → Fits ps
    → adopt_membership_entry (encode_finalise_config_entry ps) ms ≡ (true, whole ps)
unfolding adopt_membership_entry adopt_membership_op decode_config_entry
    encode_finalise_config_entry config_body
adopt_membership_entry-finalise ps ms h = rw (decode-encode_finalise ps h) refl

replay_batch-finalise :
    (xs : List LogEntry) (e : LogEntry) (ps : List PeerConfig) (st : Bool × MembershipState)
    → e.command ≡ encode_finalise_config_entry ps
    → Fits ps
    → replay_batch (xs ++ e ∷ []) st ≡ (true, whole ps)
unfolding replay_batch
replay_batch-finalise [] e ps st c h =
    ground (arith, c, is_config_entry-finalise ps, adopt_membership_entry-finalise ps st.1 h)
replay_batch-finalise (x ∷ xs) e ps st c h = replay_batch-finalise xs e ps _ c h

last_entry-end :
    (x : LogEntry) (xs : List LogEntry) (e : LogEntry) → last_entry x (xs ++ e ∷ []) ≡ e
last_entry-end x [] e = refl
last_entry-end x (y ∷ ys) e = last_entry-end y ys e

ends :
    (ys : List LogEntry) (e : LogEntry)
    → (x : LogEntry) × (xs : List LogEntry) × (ys ++ e ∷ [] ≡ x ∷ xs) × (last_entry x xs ≡ e)
ends [] e = (e, [], refl, refl)
ends (y ∷ ys) e = (y, ys ++ e ∷ [], refl, last_entry-end y ys e)

pub not_empty :
    (l : List LogEntry) → 0 < length l → (x : LogEntry) × (xs : List LogEntry) × (l ≡ x ∷ xs)
not_empty [] h = absurd (omega (arith, h))
not_empty (x ∷ xs) h = (x, xs, refl)

replay-over :
    (rounds lo last t : ℕ) (st : Bool × MembershipState) (m : MemStore)
    → last < lo
    → replay_config_entries mem_storage rounds lo last t st m ≡ ok (t, st.0, st.1)
unfolding replay_config_entries
replay-over zero lo last t st m h = refl
replay-over (suc rounds) lo last t st m h = ground (arith, h)

replay-step :
    (rounds lo last t : ℕ) (st : Bool × MembershipState) (m : MemStore) (x : LogEntry)
    (xs : List LogEntry)
    → lo ≤ last
    → get_log_entries lo (min (add64 lo replay_size) (add64 last 1)) m ≡ ok (x ∷ xs)
    → replay_config_entries mem_storage (suc rounds) lo last t st m
      ≡ replay_config_entries mem_storage rounds
          (add64 lo replay_size)
          last
          (last_entry x xs).term
          (replay_batch (x ∷ xs) st)
          m
unfolding replay_config_entries mem_storage
replay-step rounds lo last t st m x xs h read = ground (arith, h, read)

from_on-end :
    (a lo : ℕ) (pre : List LogEntry) (e : LogEntry)
    → Chained a (pre ++ e ∷ [])
    → lo ≤ a + length pre
    → from_on lo (pre ++ e ∷ []) ≡ from_on lo pre ++ e ∷ []
from_on-end a lo [] e c h = ground (arith, c.0, h)
from_on-end a lo (x ∷ xs) e c h = ground (arith, from_on-end (a + 1) lo xs e c.1)

-- A log from `a` on that ends in a finalise entry.
pub record Finalised (m : MemStore) (a last : ℕ) (e : LogEntry) (ps : List PeerConfig)
    : Type 0 where
  pub pre : List LogEntry
  pub held : m.entries ≡ pre ++ e ∷ []
  pub chained : Chained a m.entries
  pub ends_at : a + length pre ≡ last
  pub final : e.command ≡ encode_finalise_config_entry ps
  pub fits : Fits ps
  pub room : last + 1 + replay_size < u64_mod

pub length-Finalised :
    (m : MemStore) (a last : ℕ) (e : LogEntry) (ps : List PeerConfig)
    → (f : Finalised m a last e ps) → a + length m.entries ≡ last + 1
length-Finalised m a last e ps f =
    omega (arith, ap length f.held, length-append f.pre (e ∷ []), f.ends_at)

read-Finalised :
    (m : MemStore) (a last lo hi : ℕ) (e : LogEntry) (ps : List PeerConfig)
    → (f : Finalised m a last e ps) → a ≤ lo
    → lo < hi
    → hi ≤ last + 1
    → get_log_entries lo hi m ≡ ok (below hi (from_on lo m.entries))
read-Finalised m a last lo hi e ps f h k l =
    let long = length-Finalised m a last e ps f in
    let room = f.room in
    ground
      (arith, h, k, l, long, get_log_entries-range m a lo hi f.chained (omega (arith, long, room)))

leb-cases : (a b : ℕ) → (a ≤ b) ⊎ (b < a)
leb-cases a b = elim (Bool-cases (leb a b)) [
  | inl within ↦ inl (ground (arith, within))
  | inr beyond ↦ inr (ground (arith, beyond))
]

-- The batch that reaches the end of the log ends in the finalise entry.
last_batch :
    (m : MemStore) (a last lo : ℕ) (e : LogEntry) (ps : List PeerConfig)
    → (f : Finalised m a last e ps) → a ≤ lo
    → lo ≤ last
    → below (last + 1) (from_on lo m.entries) ≡ from_on lo f.pre ++ e ∷ []
last_batch m a last lo e ps f h k =
    let long = length-Finalised m a last e ps f in
    let rest = length-from_on a lo m.entries f.chained h (omega (arith, long, k)) in
    below-all lo (last + 1) (from_on lo m.entries) (from_on-Chained a lo m.entries f.chained h)
      (omega (arith, long, rest))
    ∙ ap (from_on lo) f.held
    ∙ from_on-end a lo f.pre e (subst (Chained a) f.held f.chained) (omega (arith, k, f.ends_at))

-- A batch in front of it is not empty.
middle_batch :
    (m : MemStore) (a last lo : ℕ) (e : LogEntry) (ps : List PeerConfig)
    → (f : Finalised m a last e ps) → a ≤ lo
    → lo + replay_size < last + 1
    → 0 < length (below (lo + replay_size) (from_on lo m.entries))
middle_batch m a last lo e ps f h k =
    let long = length-Finalised m a last e ps f in
    let rest = length-from_on a lo m.entries f.chained h (omega (arith, long, k)) in
    omega (
      arith,
      length-below lo (lo + replay_size) (from_on lo m.entries)
          (from_on-Chained a lo m.entries f.chained h) (omega arith) (omega (arith, long, rest, k)),
    )

pub replay-Finalised :
    (rounds lo t : ℕ) (m : MemStore) (a last : ℕ) (e : LogEntry) (ps : List PeerConfig)
    (st : Bool × MembershipState)
    → (f : Finalised m a last e ps) → a ≤ lo
    → lo ≤ last
    → last < lo + rounds
    → replay_config_entries mem_storage rounds lo last t st m ≡ ok (e.term, true, whole ps)
replay-Finalised zero lo t m a last e ps st f h k l = absurd (omega (arith, k, l))
replay-Finalised (suc rounds) lo t m a last e ps st f h k l =
    let room = f.room in
    elim (leb-cases (last + 1) (lo + replay_size)) [
      | inl reaches ↦
          let (x, xs, whole_batch, is_last) = ends (from_on lo f.pre) e in
          let batch = last_batch m a last lo e ps f h k in
          let read : get_log_entries lo (min (add64 lo replay_size) (add64 last 1)) m
              ≡ ok (x ∷ xs) =
            ap (λ hi. get_log_entries lo hi m) (omega (arith, reaches, k, room))
            ∙ read-Finalised m a last lo (last + 1) e ps f h (omega (arith, k)) (omega arith)
            ∙ ap ok (batch ∙ whole_batch) in
          let done =
            ap (λ b. replay_batch b st) (sym whole_batch)
            ∙ replay_batch-finalise (from_on lo f.pre) e ps st f.final f.fits in
          replay-step rounds lo last t st m x xs k read
          ∙ replay-over rounds (add64 lo replay_size) last (last_entry x xs).term
              (replay_batch (x ∷ xs) st) m (omega (arith, reaches, k, room))
          ∙ ap (λ (r : ℕ × Bool × MembershipState). ok r)
              (ap (λ (b : Bool × MembershipState). ((last_entry x xs).term, b.0, b.1)) done
                ∙ ap (λ (y : LogEntry). (y.term, true, whole ps)) is_last)
      | inr short ↦
          let (x, xs, batch) =
            not_empty (below (lo + replay_size) (from_on lo m.entries))
              (middle_batch m a last lo e ps f h short) in
          let read : get_log_entries lo (min (add64 lo replay_size) (add64 last 1)) m
              ≡ ok (x ∷ xs) =
            ap (λ hi. get_log_entries lo hi m) (omega (arith, short, k, room))
            ∙ read-Finalised m a last lo (lo + replay_size) e ps f h (omega arith)
                (omega (arith, short))
            ∙ ap ok batch in
          let next : add64 lo replay_size ≡ lo + replay_size = omega (arith, short, k, room) in
          replay-step rounds lo last t st m x xs k read
          ∙ ap
              (λ (n : ℕ).
                replay_config_entries mem_storage rounds n last (last_entry x xs).term
                  (replay_batch (x ∷ xs) st) m)
              next
          ∙ replay-Finalised rounds (lo + replay_size) (last_entry x xs).term m a last e ps
              (replay_batch (x ∷ xs) st) f (omega (arith, h)) (omega (arith, short))
              (omega (arith, l))
    ]
