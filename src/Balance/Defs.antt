-- ===== src/Balance/Defs.antt =====
-- `LeastLeadersBalancer` of balance.go, with the status of a group as manager.go reports it. `sort.Slice`
-- of the standard library is the parameter `sort`: which of two hosts with as many leaders comes first
-- is its choice. The loop has a number of rounds to go, and gives nothing when they do not do.
use raft.Prelude.{
  ℕ, zero, suc, ◌+◌, ◌*◌, ltb, leb, ◌==◌, not, ◌||◌, if◌then◌else◌, Bool, false, Option, none, some,
  List, [], ◌∷◌, ◌++◌, length, NodeId, id_eq, update, add64,
}
use raft.Types.{State, is_leader}

-- A host is named by a string as well.
abbrev pub HostId : Type 0
HostId = NodeId

pub record GroupStatus : Type 0 where
  pub group_id : ℕ
  pub node_id : NodeId
  pub state : State
  pub term : ℕ
  pub last_applied : ℕ
  pub voter : Bool
  pub witness : Bool

pub record LeaderMove : Type 0 where
  pub group_id : ℕ
  pub from_node : NodeId
  pub to_node : NodeId

-- A host and the groups that it leads.
pub record PhysHost : Type 0 where
  pub host : HostId
  pub leaders : List GroupStatus

-- What the hosts reported, in the order in which the loops over the map come by them: each loop has
-- an order of its own.
pub record View : Type 0 where
  pub for_nodes : List (HostId × List GroupStatus)
  pub for_groups : List (HostId × List GroupStatus)
  pub for_hosts : List (HostId × List GroupStatus)

abbrev pub default_balancer_max_lag : ℕ
default_balancer_max_lag = 1024

unfoldable pub eligible_target : GroupStatus → GroupStatus → ℕ → Bool
eligible_target leader candidate max_lag =
    let lag = if max_lag == 0 then default_balancer_max_lag else max_lag in
    if id_eq candidate.node_id leader.node_id || (not candidate.voter || candidate.witness)
    then false
    else leb leader.last_applied (add64 candidate.last_applied lag)

-- Which host runs a node; the last report wins.
unfoldable pub note_nodes : HostId → List GroupStatus → (NodeId → HostId) → NodeId → HostId
note_nodes host [] m = m
note_nodes host (s ∷ ss) m = note_nodes host ss (update m s.node_id host)

unfoldable pub node_to_host : List (HostId × List GroupStatus) → (NodeId → HostId) → NodeId → HostId
unfolding note_nodes
node_to_host [] m = m
node_to_host (r ∷ rs) m = node_to_host rs (note_nodes r.0 r.1 m)

-- The reports on a group.
unfoldable pub statuses_of : ℕ → List GroupStatus → List GroupStatus
statuses_of group [] = []
statuses_of group (s ∷ ss) =
    let rest = statuses_of group ss in if s.group_id == group then s ∷ rest else rest

unfoldable pub by_group : List (HostId × List GroupStatus) → ℕ → List GroupStatus
unfolding statuses_of
by_group [] group = []
by_group (r ∷ rs) group = statuses_of group r.1 ++ by_group rs group

unfoldable pub leaders_of : List GroupStatus → List GroupStatus
leaders_of [] = []
leaders_of (s ∷ ss) = let rest = leaders_of ss in if is_leader s.state then s ∷ rest else rest

unfoldable pub phys_hosts : List (HostId × List GroupStatus) → List PhysHost
unfolding leaders_of
phys_hosts [] = []
phys_hosts (r ∷ rs) = record { host = r.0; leaders = leaders_of r.1 } ∷ phys_hosts rs

-- The host at the end of the order, or the first when it is the only one.
unfoldable pub last_host : PhysHost → List PhysHost → PhysHost
last_host first [] = first
last_host first (h ∷ hs) = last_host h hs

unfoldable pub set_last_host : PhysHost → List PhysHost → List PhysHost
set_last_host least [] = []
set_last_host least (_ ∷ []) = least ∷ []
set_last_host least (h ∷ h' ∷ hs) = h ∷ set_last_host least (h' ∷ hs)

-- The first replica on the host that is fit to lead the group.
unfoldable pub find_target :
    (NodeId → HostId) → HostId → ℕ → GroupStatus → List GroupStatus → Option GroupStatus
unfolding eligible_target
find_target hosts_of least max_lag leader [] = none
find_target hosts_of least max_lag leader (c ∷ cs) =
    let later = find_target hosts_of least max_lag leader cs in
    if not (id_eq (hosts_of c.node_id) least)
    then later
    else if not (eligible_target leader c max_lag)
    then later
    else some c

-- A group to hand over, its new leader, and the groups that stay.
pub record Found : Type 0 where
  pub leader : GroupStatus
  pub target : GroupStatus
  pub kept : List GroupStatus

module _ (hosts_of : NodeId → HostId) (groups : ℕ → List GroupStatus) (max_lag : ℕ) where
  unfoldable pub find_move : HostId → List GroupStatus → Option Found
  unfolding find_target
  find_move least [] = none
  find_move least (l ∷ ls) =
      let later : Option Found = elim (find_move least ls) [
        | none ↦ none
        | some f ↦ some (record f { kept = l ∷ f.kept })
      ] in
      elim (find_target hosts_of least max_lag l (groups l.group_id)) [
        | none ↦ later
        | some c ↦ some (record { leader = l; target = c; kept = ls })
      ]

  -- One round on the sorted hosts: the handover, and the hosts after it.
  unfoldable pub round : List PhysHost → Option (LeaderMove × List PhysHost)
  unfolding find_move last_host set_last_host
  round [] = none
  round (busiest ∷ others) =
      let least_busy = last_host busiest others in
      if leb (length busiest.leaders) (length least_busy.leaders + 1)
      then none
      else elim (find_move least_busy.host busiest.leaders) [
        | none ↦ none
        | some f ↦ some (
          record {
            group_id = f.leader.group_id;
            from_node = f.leader.node_id;
            to_node = f.target.node_id;
          },
          record busiest { leaders = f.kept }
              ∷ set_last_host (record least_busy { leaders = least_busy.leaders ++ f.leader ∷ [] })
                  others,
        )
      ]

  unfoldable pub plan_rounds :
      (List PhysHost → List PhysHost) → ℕ → List PhysHost → Option (List LeaderMove)
  unfolding round
  plan_rounds sort zero hosts = none
  plan_rounds sort (suc rounds) hosts = elim (round (sort hosts)) [
    | none ↦ some []
    | some r ↦ elim (plan_rounds sort rounds r.1) [ none ↦ none | some ts ↦ some (r.0 ∷ ts) ]
  ]

-- The sum of the squares of how many groups the hosts lead.
unfoldable pub imbalance : List PhysHost → ℕ
imbalance [] = 0
imbalance (h ∷ hs) = length h.leaders * length h.leaders + imbalance hs

unfoldable pub plan : (List PhysHost → List PhysHost) → ℕ → View → Option (List LeaderMove)
unfolding node_to_host by_group phys_hosts plan_rounds imbalance
plan sort max_lag view =
    let hosts = phys_hosts view.for_hosts in
    if ltb (length view.for_hosts) 2
    then some []
    else plan_rounds (node_to_host view.for_nodes (λ _. [])) (by_group view.for_groups) max_lag sort
        (imbalance hosts + 1) hosts
