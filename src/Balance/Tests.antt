-- ===== src/Balance/Tests.antt =====
-- Two hosts, one of which leads both groups; insertion sort as the sorting.
use mathlib.Core.List.{Permᴰ}
use mathlib.Core.List.Permᴰ
use raft.Prelude.{
  ℕ, ◌≡◌, refl, ltb, if◌then◌else◌, if-cases, some, List, [], ◌∷◌, length, All, true, false, NodeId,
  id_eq,
}
use raft.Types.{State}
use raft.Balance.Defs.{GroupStatus, LeaderMove, PhysHost, View, plan}
use raft.Balance.Handovers.{Handover}
use raft.Balance.Plans.{Leads, Replica, plan-Handover}

abbrev insert : PhysHost → List PhysHost → List PhysHost
insert h [] = h ∷ []
insert h (k ∷ ks) =
    let rest = insert h ks in
    if ltb (length h.leaders) (length k.leaders) then k ∷ rest else h ∷ k ∷ ks

abbrev busiest_first : List PhysHost → List PhysHost
busiest_first [] = []
busiest_first (h ∷ hs) = insert h (busiest_first hs)

insert-Permᴰ : (h : PhysHost) (hs : List PhysHost) → Permᴰ (h ∷ hs) (insert h hs)
insert-Permᴰ h [] = Permᴰ.refl (h ∷ [])
insert-Permᴰ h (k ∷ ks) =
    if-cases (Permᴰ (h ∷ k ∷ ks)) (ltb (length h.leaders) (length k.leaders)) (k ∷ insert h ks)
      (h ∷ k ∷ ks)
      (λ less. Permᴰ.trans (Permᴰ.swap refl refl) (Permᴰ.cons refl (insert-Permᴰ h ks)))
      (λ more. Permᴰ.refl (h ∷ k ∷ ks))

busiest_first-Permᴰ : (hs : List PhysHost) → Permᴰ hs (busiest_first hs)
busiest_first-Permᴰ [] = Permᴰ.nil
busiest_first-Permᴰ (h ∷ hs) =
    Permᴰ.trans (Permᴰ.cons refl (busiest_first-Permᴰ hs)) (insert-Permᴰ h (busiest_first hs))

abbrev status : ℕ → NodeId → State → GroupStatus
status group node state = record {
  group_id = group;
  node_id = node;
  state = state;
  term = 3;
  last_applied = 90;
  voter = true;
  witness = false;
}

abbrev view : View
view =
    let rs =
      (9 ∷ [], status 1 (11 ∷ []) State.leader ∷ status 2 (12 ∷ []) State.leader ∷ [])
      ∷ (8 ∷ [], status 1 (21 ∷ []) State.follower ∷ status 2 (22 ∷ []) State.follower ∷ [])
      ∷ [] in
    record { for_nodes = rs; for_groups = rs; for_hosts = rs }

-- The planner takes the first group away from the busy host.
planned :
    plan busiest_first 0 view
    ≡ some (record { group_id = 1; from_node = 11 ∷ []; to_node = 21 ∷ [] } ∷ [])
unfolding plan id_eq
planned = refl

plan-Handover_example :
    (ts : List LeaderMove) × (plan busiest_first 0 view ≡ some ts)
    × All (Handover (Leads view) (Replica view) 0) ts
plan-Handover_example = plan-Handover busiest_first 0 view busiest_first-Permᴰ

-- Three groups led on one host, which only the third host has replicas of.
abbrev lopsided : View
lopsided =
    let rs =
      (
        9 ∷ [],
        status 1 (11 ∷ []) State.leader
            ∷ status 2 (12 ∷ []) State.leader
            ∷ status 3 (13 ∷ []) State.leader
            ∷ [],
      )
      ∷ (
        8 ∷ [],
        status 1 (31 ∷ []) State.follower
            ∷ status 2 (32 ∷ []) State.follower
            ∷ status 3 (33 ∷ []) State.follower
            ∷ [],
      )
      ∷ (7 ∷ [], [])
      ∷ [] in
    record { for_nodes = rs; for_groups = rs; for_hosts = rs }

-- The planner gives up at the host that leads nothing and has no replica.
stuck : plan busiest_first 0 lopsided ≡ some []
unfolding plan id_eq
stuck = refl
