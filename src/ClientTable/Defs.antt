-- ===== src/ClientTable/Defs.antt =====
-- The table of client_dedup.go: who has been answered, bounded by dropping the client that was heard
-- of longest ago. The list of elements, front first, is the table; the map that finds an element by
-- its client is the search of the list. A capacity of 0 is none; it is never negative.
use raft.Prelude.{
  ℕ, zero, suc, ◌+◌, ltb, leb, ◌&&◌, ◌||◌, if◌then◌else◌, Bool, false, Option, none, some, List, [],
  ◌∷◌, ◌++◌, length, NodeId, id_eq,
}

-- `clientEntry`
pub record ClientEntry : Type 0 where
  pub seq_num : ℕ
  pub result : List ℕ

-- `clientRecord`, which is also `lruItem`
pub record ClientRecord : Type 0 where
  pub id : NodeId
  pub entry : ClientEntry

-- `clientLRU`
pub record ClientTable : Type 0 where
  pub items : List ClientRecord
  pub cap : ℕ

-- The element of a client, and the elements of the others.
unfoldable pub find : NodeId → List ClientRecord → Option ClientEntry
find id [] = none
find id (r ∷ rs) = if id_eq r.id id then some r.entry else find id rs

unfoldable pub has : NodeId → List ClientRecord → Bool
has id [] = false
has id (r ∷ rs) = id_eq r.id id || has id rs

unfoldable pub without : NodeId → List ClientRecord → List ClientRecord
without id [] = []
without id (r ∷ rs) = let rest = without id rs in if id_eq r.id id then rest else r ∷ rest

-- The list without its last element, behind `r`, and that element.
unfoldable pub split_last : ClientRecord → List ClientRecord → List ClientRecord × ClientRecord
split_last r [] = ([], r)
split_last r (s ∷ ss) = let rest = split_last s ss in (r ∷ rest.0, rest.1)

-- `get`
unfoldable pub get : NodeId → ClientTable → Option ClientEntry
unfolding find
get id c = find id c.items

-- Whether one more element is too many.
unfoldable pub full : ClientTable → Bool
full c = ltb 0 c.cap && ltb c.cap (length c.items + 1)

-- `put`, and the client that it drops.
unfoldable pub put : NodeId → ClientEntry → ClientTable → Option NodeId × ClientTable
unfolding has without split_last full
put id entry c =
    let front : ClientRecord = record { id = id; entry = entry } in
    let split = split_last front c.items in
    if has id c.items
    then (none, record c { items = front ∷ without id c.items })
    else if full c
    then (some split.1.id, record c { items = split.0 })
    else (none, record c { items = front ∷ c.items })

-- The loop of `setCap`, with the clients dropped so far; as many rounds as elements are enough.
unfoldable pub shrink :
    (rounds cap : ℕ) → List ClientRecord → List NodeId → List ClientRecord × List NodeId
unfolding split_last
shrink zero cap items evicted = (items, evicted)
shrink (suc rounds) cap [] evicted = ([], evicted)
shrink (suc rounds) cap (r ∷ rs) evicted =
    let split = split_last r rs in
    let rest = shrink rounds cap split.0 (evicted ++ split.1.id ∷ []) in
    if ltb 0 cap && ltb cap (length rs + 1) then rest else (r ∷ rs, evicted)

-- `setCap`, with the clients that it drops.
unfoldable pub set_cap : ℕ → ClientTable → List NodeId × ClientTable
unfolding shrink
set_cap cap c =
    let shrunk = shrink (length c.items) cap c.items [] in
    (shrunk.1, record c { items = shrunk.0; cap = cap })

-- `records`
unfoldable pub records : ClientTable → List ClientRecord
records c = c.items

-- The loop of `loadFrom`; `kept` is the list so far.
unfoldable pub load : (cap : ℕ) → (kept rest : List ClientRecord) → List ClientRecord
load cap kept [] = kept
load cap kept (r ∷ rs) =
    let without_it = load cap kept rs in
    let with_it = load cap (kept ++ r ∷ []) rs in
    if ltb 0 cap && leb cap (length kept)
    then kept
    else if has r.id kept
    then without_it
    else with_it

-- `loadFrom`
unfoldable pub load_from : List ClientRecord → ClientTable → ClientTable
unfolding load
load_from rs c = record c { items = load c.cap [] rs }
