-- ===== src/Balance/Handovers.antt =====
-- The handovers that the search of `Plan` in balance.go comes by.
use mathlib.Core.List.{mem-append_left, mem-append_right}
use raft.Prelude.{
  ℕ, ◌≤◌, ◌==◌, id_eq, id_eq_iff, if-cases, if◌then◌else◌, add64, Bool-cases, Option-cases, true,
  false, inl, inr, some, List, [], ◌∷◌, ◌++◌, NodeId, Mem, All, All-append, All-mem, ◌≡◌, ◌≢◌,
  subst, arith,
}
use raft.Types.{is_leader}
use raft.Balance.Defs.{
  GroupStatus, LeaderMove, PhysHost, HostId, Found, default_balancer_max_lag, eligible_target,
  statuses_of, by_group, leaders_of, phys_hosts, find_target, find_move, last_host, set_last_host,
}

-- All the statuses that the hosts reported.
abbrev pub statuses : List (HostId × List GroupStatus) → List GroupStatus
statuses [] = []
statuses (r ∷ rs) = r.1 ++ statuses rs

-- `candidate` may take over from `leader`: it is another node, votes, holds entries, and is behind by
-- no more than the lag.
abbrev pub Fit : ℕ → GroupStatus → GroupStatus → Type 0
Fit max_lag leader candidate =
    (candidate.node_id ≢ leader.node_id)
    × (candidate.voter ≡ true)
    × (candidate.witness ≡ false)
    × (leader.last_applied
        ≤ add64 candidate.last_applied (if max_lag == 0 then default_balancer_max_lag else max_lag))

eligible_target-Fit :
    (max_lag : ℕ) (l c : GroupStatus) → eligible_target l c max_lag ≡ true → Fit max_lag l c
unfolding eligible_target
eligible_target-Fit max_lag l c h = ground (arith, h, id_eq_iff c.node_id l.node_id)

statuses_of-All :
    (P : GroupStatus → Type 0) (group : ℕ) (ss : List GroupStatus)
    → All P ss
    → All (λ (s : GroupStatus). P s × (s.group_id ≡ group)) (statuses_of group ss)
unfolding statuses_of
statuses_of-All P group [] h = tt
statuses_of-All P group (s ∷ ss) h =
    let rest = statuses_of group ss in
    if-cases (All (λ (s : GroupStatus). P s × (s.group_id ≡ group))) (s.group_id == group)
      (s ∷ rest) rest (λ same. ((h.0, ground (arith, same)), statuses_of-All P group ss h.1))
      (λ other. statuses_of-All P group ss h.1)

leaders_of-All :
    (P : GroupStatus → Type 0) (ss : List GroupStatus)
    → All P ss
    → All (λ (s : GroupStatus). P s × (is_leader s.state ≡ true)) (leaders_of ss)
unfolding leaders_of
leaders_of-All P [] h = tt
leaders_of-All P (s ∷ ss) h =
    let rest = leaders_of ss in
    if-cases (All (λ (s : GroupStatus). P s × (is_leader s.state ≡ true))) (is_leader s.state)
      (s ∷ rest) rest (λ leads. ((h.0, leads), leaders_of-All P ss h.1))
      (λ other. leaders_of-All P ss h.1)

pub by_group-All :
    (P : GroupStatus → Type 0) (group : ℕ) (rs : List (HostId × List GroupStatus))
    → ((s : GroupStatus) → Mem s (statuses rs) → P s)
    → All (λ (s : GroupStatus). P s × (s.group_id ≡ group)) (by_group rs group)
unfolding by_group
by_group-All P group [] h = tt
by_group-All P group (r ∷ rs) h =
    All-append (λ (s : GroupStatus). P s × (s.group_id ≡ group)) (statuses_of group r.1)
      (by_group rs group)
      (statuses_of-All P group r.1 (All-mem P r.1 (λ s m. h s (mem-append_left (statuses rs) m))))
      (by_group-All P group rs (λ s m. h s (mem-append_right r.1 m)))

-- All group that the hosts are held to lead has the property.
abbrev pub Lead : (GroupStatus → Type 0) → List PhysHost → Type 0
Lead Q hosts = All (λ (h : PhysHost). All Q h.leaders) hosts

pub phys_hosts-Lead :
    (P : GroupStatus → Type 0) (rs : List (HostId × List GroupStatus))
    → ((s : GroupStatus) → Mem s (statuses rs) → P s)
    → Lead (λ s. P s × (is_leader s.state ≡ true)) (phys_hosts rs)
unfolding phys_hosts
phys_hosts-Lead P [] h = tt
phys_hosts-Lead P (r ∷ rs) h = (
  leaders_of-All P r.1 (All-mem P r.1 (λ s m. h s (mem-append_left (statuses rs) m))),
  phys_hosts-Lead P rs (λ s m. h s (mem-append_right r.1 m)),
)

pub last_host-All :
    (Q : GroupStatus → Type 0) (h : PhysHost) (hs : List PhysHost)
    → Lead Q (h ∷ hs)
    → All Q (last_host h hs).leaders
unfolding last_host
last_host-All Q h [] led = led.0
last_host-All Q h (k ∷ ks) led = last_host-All Q k ks led.1

pub set_last_host-Lead :
    (Q : GroupStatus → Type 0) (least : PhysHost) (hs : List PhysHost)
    → All Q least.leaders
    → Lead Q hs
    → Lead Q (set_last_host least hs)
unfolding set_last_host
set_last_host-Lead Q least [] new led = tt
set_last_host-Lead Q least (h ∷ []) new led = (new, tt)
set_last_host-Lead Q least (h ∷ k ∷ ks) new led =
    (led.0, set_last_host-Lead Q least (k ∷ ks) new led.1)

-- What a handover is for: the group's leader gives it to a replica that is fit for it.
abbrev pub Handover : (GroupStatus → Type 0) → (ℕ → GroupStatus → Type 0) → ℕ → LeaderMove → Type 0
Handover Q R max_lag t =
    (l : GroupStatus) × (c : GroupStatus) × Q l
    × R l.group_id c
    × Fit max_lag l c
    × (t.group_id ≡ l.group_id)
    × (t.from_node ≡ l.node_id)
    × (t.to_node ≡ c.node_id)

module _ (hosts_of : NodeId → HostId) (groups : ℕ → List GroupStatus) (max_lag : ℕ)
    (Q : GroupStatus → Type 0) (R : ℕ → GroupStatus → Type 0)
    (replicas : (g : ℕ) → All (R g) (groups g)) where
  find_target-Fit :
      (g : ℕ) (least : HostId) (l : GroupStatus) (cs : List GroupStatus) (c : GroupStatus)
      → All (R g) cs
      → find_target hosts_of least max_lag l cs ≡ some c
      → R g c × Fit max_lag l c
  unfolding find_target
  find_target-Fit g least l [] c h e = ground (arith, e)
  find_target-Fit g least l (d ∷ ds) c h e =
      let later = find_target-Fit g least l ds c h.1 in
      elim (Bool-cases (id_eq (hosts_of d.node_id) least)) [
        | inr away ↦ later (ground (arith, e, away))
        | inl there ↦ elim (Bool-cases (eligible_target l d max_lag)) [
          | inr unfit ↦ later (ground (arith, e, there, unfit))
          | inl fit ↦
              let same : d ≡ c = ground (arith, e, there, fit) in
              subst (λ (x : GroupStatus). R g x × Fit max_lag l x) same
                (h.0, eligible_target-Fit max_lag l d fit)
        ]
      ]

  pub find_move-All :
      (least : HostId) (ls : List GroupStatus) (f : Found)
      → All Q ls
      → find_move hosts_of groups max_lag least ls ≡ some f
      → Q f.leader × All Q f.kept × R f.leader.group_id f.target × Fit max_lag f.leader f.target
  unfolding find_move
  find_move-All least [] f h e = ground (arith, e)
  find_move-All least (l ∷ ls) f h e =
      elim (Option-cases (find_target hosts_of least max_lag l (groups l.group_id))) [
        | inr (c, found) ↦
            let same : record { leader = l; target = c; kept = ls } ≡ f =
              ground (arith, e, found) in
            let fit =
              find_target-Fit l.group_id least l (groups l.group_id) c (replicas l.group_id)
                found in
            subst
              (λ (g : Found).
                Q g.leader
                × All Q g.kept
                × R g.leader.group_id g.target
                × Fit max_lag g.leader g.target)
              same (h.0, h.1, fit.0, fit.1)
        | inl unfound ↦ elim (Option-cases (find_move hosts_of groups max_lag least ls)) [
          | inl stuck ↦ ground (arith, e, unfound, stuck)
          | inr (g, later) ↦
              let same : record g { kept = l ∷ g.kept } ≡ f = ground (arith, e, unfound, later) in
              let rest = find_move-All least ls g h.1 later in
              subst
                (λ (x : Found).
                  Q x.leader
                  × All Q x.kept
                  × R x.leader.group_id x.target
                  × Fit max_lag x.leader x.target)
                same (rest.0, (h.0, rest.1), rest.2, rest.3)
        ]
      ]
