-- ===== src/ClientTable/Others.antt =====
-- What `put` of client_dedup.go does to the other clients of the table.
use raft.Prelude.{
  ◌+◌, ltb, ◌&&◌, if-cases, Bool-cases, false, Option, none, some, List, [], ◌∷◌, ◌++◌, length,
  NodeId, id_eq, id_eq_iff, ◌≡◌, refl, sym, ap, ◌∙◌, subst, ◌⊎◌, inl, inr, arith,
}
use raft.ClientTable.Defs.{
  ClientEntry, ClientRecord, ClientTable, find, has, without, split_last, get, full, put,
}
use raft.ClientTable.Lru.{Distinct, IsValid, split_last-parts, Distinct-apart}

find-without :
    (id other : NodeId) (rs : List ClientRecord)
    → id_eq id other ≡ false
    → find other (without id rs) ≡ find other rs
unfolding find without
find-without id other [] h = refl
find-without id other (r ∷ rs) h = ground (
  arith,
  h,
  find-without id other rs h,
  id_eq_iff r.id id,
  id_eq_iff r.id other,
  id_eq_iff id other,
)

find-init :
    (other : NodeId) (xs : List ClientRecord) (l : ClientRecord)
    → id_eq l.id other ≡ false
    → find other xs ≡ find other (xs ++ l ∷ [])
unfolding find
find-init other [] l h = rw h refl
find-init other (x ∷ xs) l h = ground (arith, find-init other xs l h)

find-absent :
    (other : NodeId) (xs : List ClientRecord) → has other xs ≡ false → find other xs ≡ none
unfolding find has
find-absent other [] h = refl
find-absent other (x ∷ xs) h = ground (arith, h, find-absent other xs)

find-past :
    (id other : NodeId) (entry : ClientEntry) (rs : List ClientRecord)
    → id_eq id other ≡ false
    → find other (record { id = id; entry = entry } ∷ rs) ≡ find other rs
unfolding find
find-past id other entry rs h = rw h refl

-- `put` leaves the answer for every other client as it was, but for the one client that it says it
-- dropped, which is not found any more.
pub get-put_other :
    (id other : NodeId) (entry : ClientEntry) (c : ClientTable)
    → IsValid c
    → id_eq id other ≡ false
    → (get other (put id entry c).1 ≡ get other c)
      ⊎ (((put id entry c).0 ≡ some other) × (get other (put id entry c).1 ≡ none))
unfolding get put full
get-put_other id other entry c (distinct, bound) apart =
    if-cases P (has id c.items) _ _
      (λ known. inl (past (without id c.items) ∙ find-without id other c.items apart))
      (λ new.
        if-cases P (ltb 0 c.cap && ltb c.cap (length c.items + 1)) _ _ (λ over. dropped new)
          (λ room. inl (past c.items)))
  where
    P : Option NodeId × ClientTable → Type 0
    P r =
        (find other r.1.items ≡ find other c.items)
        ⊎ ((r.0 ≡ some other) × (find other r.1.items ≡ none))

    front : ClientRecord
    front = record { id = id; entry = entry }

    past : (rs : List ClientRecord) → find other (front ∷ rs) ≡ find other rs
    past rs = find-past id other entry rs apart

    split : List ClientRecord × ClientRecord
    split = split_last front c.items

    dropped : has id c.items ≡ false → P (some split.1.id, record c { items = split.0 })
    dropped new =
        let parts = split_last-parts front c.items in
        let all : Distinct (split.0 ++ split.1 ∷ []) = subst Distinct (sym parts) (new, distinct) in
        elim (Bool-cases (id_eq split.1.id other)) [
          | inl is ↦
              let same = (id_eq_iff split.1.id other).0 is in
              inr (
                ap some same,
                find-absent other split.0 (
                    subst (λ a. has a split.0 ≡ false) same
                      (Distinct-apart split.0 [] split.1 all)),
              )
          | inr not_it ↦
              inl (find-init other split.0 split.1 not_it ∙ ap (find other) parts ∙ past c.items)
        ]
