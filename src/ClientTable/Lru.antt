-- ===== src/ClientTable/Lru.antt =====
-- What the table of client_dedup.go promises: it stays within its bound and without duplicates, a
-- client that was put is found, and a snapshot's records give the table back in the same order.
use raft.Prelude.{
  ℕ, ◌+◌, ◌≤◌, ◌<◌, ltb, leb, ◌&&◌, if-cases, true, false, Option, some, List, [], ◌∷◌, ◌++◌,
  length, NodeId, id_eq, id_eq_iff, id_eq_refl, ◌≡◌, refl, sym, ap, ◌∙◌, subst, ◌⊎◌, arith,
  length-append,
}
use mathlib.Core.List.{append_assoc, append-nil}
use raft.ClientTable.Defs.{
  ClientEntry, ClientRecord, ClientTable, find, has, without, split_last, get, full, put, records,
  load, load_from,
}

-- No client stands twice, and a bounded table is within its bound.
abbrev pub Distinct : List ClientRecord → Type 0
Distinct [] = Unit {0}
Distinct (r ∷ rs) = (has r.id rs ≡ false) × Distinct rs

abbrev pub IsValid : ClientTable → Type 0
IsValid c = Distinct c.items × ((c.cap ≡ 0) ⊎ (length c.items ≤ c.cap))

has-without_other :
    (a id : NodeId) (rs : List ClientRecord) → has a rs ≡ false → has a (without id rs) ≡ false
unfolding has without
has-without_other a id [] h = refl
has-without_other a id (r ∷ rs) h = ground (arith, has-without_other a id rs)

has-without : (id : NodeId) (rs : List ClientRecord) → has id (without id rs) ≡ false
unfolding has without
has-without id [] = refl
has-without id (r ∷ rs) = ground (arith, has-without id rs)

without-Distinct : (id : NodeId) (rs : List ClientRecord) → Distinct rs → Distinct (without id rs)
unfolding without
without-Distinct id [] h = tt
without-Distinct id (r ∷ rs) h =
    ground (arith, h, has-without_other r.id id rs, without-Distinct id rs)

length-without_le : (id : NodeId) (rs : List ClientRecord) → length (without id rs) ≤ length rs
unfolding without
length-without_le id [] = omega arith
length-without_le id (r ∷ rs) = ground (arith, length-without_le id rs)

length-without :
    (id : NodeId) (rs : List ClientRecord)
    → has id rs ≡ true
    → length (without id rs) + 1 ≤ length rs
unfolding has without
length-without id [] h = cc
length-without id (r ∷ rs) h = ground (arith, h, length-without id rs, length-without_le id rs)

pub split_last-parts :
    (r : ClientRecord) (rs : List ClientRecord)
    → (split_last r rs).0 ++ (split_last r rs).1 ∷ [] ≡ r ∷ rs
unfolding split_last
split_last-parts r [] = refl
split_last-parts r (s ∷ ss) = ap (λ l. r ∷ l) (split_last-parts s ss)

has-init :
    (a : NodeId) (xs : List ClientRecord) (l : ClientRecord)
    → has a (xs ++ l ∷ []) ≡ false
    → has a xs ≡ false
unfolding has
has-init a [] l h = refl
has-init a (x ∷ xs) l h = ground (arith, has-init a xs l)

init-Distinct : (xs : List ClientRecord) (l : ClientRecord) → Distinct (xs ++ l ∷ []) → Distinct xs
init-Distinct [] l h = tt
init-Distinct (x ∷ xs) l h = (has-init x.id xs l h.0, init-Distinct xs l h.1)

length-init : (xs : List ClientRecord) (l : ClientRecord) → length (xs ++ l ∷ []) ≡ length xs + 1
length-init xs l = omega (arith, length-append xs (l ∷ []))

-- `put` keeps the table valid, whether the client is known, the table has room, or one is dropped.
pub put-IsValid :
    (id : NodeId) (entry : ClientEntry) (c : ClientTable) → IsValid c → IsValid (put id entry c).1
unfolding put full
put-IsValid id entry c (distinct, bound) =
    if-cases P (has id c.items) _ _
      (λ known. (
        (has-without id c.items, without-Distinct id c.items distinct),
        ground (arith, bound, length-without id c.items known),
      ))
      (λ new.
        if-cases P (ltb 0 c.cap && ltb c.cap (length c.items + 1)) _ _
          (λ over. (
            init-Distinct split.0 split.1
                (subst Distinct (sym (split_last-parts front c.items)) (new, distinct)),
            ground (arith, bound, lengths),
          ))
          (λ room. ((new, distinct), ground (arith, bound, room))))
  where
    P : Option NodeId × ClientTable → Type 0
    P r = IsValid r.1

    front : ClientRecord
    front = record { id = id; entry = entry }

    split : List ClientRecord × ClientRecord
    split = split_last front c.items

    lengths : length split.0 ≡ length c.items
    lengths = omega (arith, length-init split.0 split.1, ap length (split_last-parts front c.items))

has-middle :
    (a : NodeId) (kept rs : List ClientRecord) (r : ClientRecord)
    → has a (kept ++ r ∷ rs) ≡ false
    → id_eq r.id a ≡ false
unfolding has
has-middle a [] rs r h = ground (arith, h)
has-middle a (k ∷ kept) rs r h = ground (arith, h, has-middle a kept rs r)

id_eq_sym : (a b : NodeId) → id_eq a b ≡ false → id_eq b a ≡ false
id_eq_sym a b h = ground (arith, h, id_eq_iff a b, id_eq_iff b a)

pub Distinct-apart :
    (kept rs : List ClientRecord) (r : ClientRecord)
    → Distinct (kept ++ r ∷ rs)
    → has r.id kept ≡ false
unfolding has
Distinct-apart [] rs r h = refl
Distinct-apart (k ∷ kept) rs r h =
    ground
      (arith, Distinct-apart kept rs r h.1, id_eq_sym r.id k.id (has-middle k.id kept rs r h.0))

load-all :
    (cap : ℕ) (kept rs : List ClientRecord)
    → Distinct (kept ++ rs)
    → (cap ≡ 0) ⊎ (length kept + length rs ≤ cap)
    → load cap kept rs ≡ kept ++ rs
unfolding load
load-all cap kept [] h b = sym (append-nil kept)
load-all cap kept (r ∷ rs) h b =
    if-cases (λ l. l ≡ kept ++ r ∷ rs) (ltb 0 cap && leb cap (length kept)) kept _
      (λ over. absurd (ground (arith, over, b)))
      (λ room.
        if-cases (λ l. l ≡ kept ++ r ∷ rs) (has r.id kept) (load cap kept rs)
          (load cap (kept ++ r ∷ []) rs)
          (λ twice. absurd (ground (arith, twice, Distinct-apart kept rs r h)))
          (λ once.
            load-all cap (kept ++ r ∷ []) rs
              (subst Distinct (sym (append_assoc kept (r ∷ []) rs)) h)
              (ground (arith, b, length-init kept r))
            ∙ append_assoc kept (r ∷ []) rs))

-- A replica that loads the records of a valid table, under the same bound, holds that table, in the
-- same order: from then on both drop the same clients.
pub load_from-records :
    (c d : ClientTable) → IsValid c → d.cap ≡ c.cap → load_from (records c) d ≡ c
unfolding load_from records
load_from-records c d (distinct, bound) same =
    rw (same, load-all c.cap [] c.items distinct (ground (arith, bound))) refl

find-front :
    (id : NodeId) (entry : ClientEntry) (rs : List ClientRecord)
    → find id (record { id = id; entry = entry } ∷ rs) ≡ some entry
unfolding find
find-front id entry rs = rw (id_eq_refl id) refl

kept_front :
    (r : ClientRecord) (rs : List ClientRecord)
    → 0 < length rs
    → (l : List ClientRecord) × ((split_last r rs).0 ≡ r ∷ l)
unfolding split_last
kept_front r [] h = absurd (omega arith)
kept_front r (s ∷ ss) h = ((split_last s ss).0, refl)

-- A client that was put is found with what was put, even where the table had to drop a client.
pub get-put :
    (id : NodeId) (entry : ClientEntry) (c : ClientTable) → get id (put id entry c).1 ≡ some entry
unfolding get put full
get-put id entry c =
    if-cases P (has id c.items) _ _ (λ known. find-front id entry (without id c.items))
      (λ new.
        if-cases P (ltb 0 c.cap && ltb c.cap (length c.items + 1)) _ _
          (λ over.
            let (l, e) = kept_front front c.items (ground (arith, over)) in
            ap (find id) e ∙ find-front id entry l)
          (λ room. find-front id entry c.items))
  where
    P : Option NodeId × ClientTable → Type 0
    P r = find id r.1.items ≡ some entry

    front : ClientRecord
    front = record { id = id; entry = entry }
