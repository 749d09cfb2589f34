-- ===== src/Balance/Plans.antt =====
-- What `Plan` of balance.go plans: handovers that can be made, and an end to them.
use mathlib.Core.List.{Permᴰ}
use raft.Prelude.{
  ℕ, zero, suc, ◌+◌, ◌<◌, ltb, leb, Bool-cases, Option-cases, true, inl, inr, some, List, [], ◌∷◌,
  ◌++◌, length, NodeId, Mem, All, All-append, All-permᴰ, ◌≡◌, refl, subst, arith,
}
use raft.Types.{is_leader}
use raft.Balance.Defs.{
  GroupStatus, LeaderMove, PhysHost, HostId, View, by_group, phys_hosts, node_to_host, find_move,
  last_host, round, plan_rounds, imbalance, plan, set_last_host,
}
use raft.Balance.Load.{imbalance-permᴰ, round-imbalance}
use raft.Balance.Handovers.{
  statuses, by_group-All, Lead, phys_hosts-Lead, last_host-All, set_last_host-Lead, Handover,
  find_move-All,
}

module _ (hosts_of : NodeId → HostId) (groups : ℕ → List GroupStatus) (max_lag : ℕ)
    (Q : GroupStatus → Type 0) (R : ℕ → GroupStatus → Type 0)
    (replicas : (g : ℕ) → All (R g) (groups g)) where
  round-Handover :
      (hosts : List PhysHost) (t : LeaderMove) (next : List PhysHost)
      → Lead Q hosts
      → round hosts_of groups max_lag hosts ≡ some (t, next)
      → Handover Q R max_lag t × Lead Q next
  unfolding round
  round-Handover [] t next led e = ground (arith, e)
  round-Handover (b ∷ hs) t next led e =
      let least = last_host b hs in
      elim (Bool-cases (leb (length b.leaders) (length least.leaders + 1))) [
        | inl even ↦ ground (arith, e, even)
        | inr uneven ↦
            elim (Option-cases (find_move hosts_of groups max_lag least.host b.leaders)) [
              | inl stuck ↦ ground (arith, e, uneven, stuck)
              | inr (f, found) ↦
                  let got =
                    find_move-All hosts_of groups max_lag Q R replicas least.host b.leaders f led.0
                      found in
                  let moved : LeaderMove = record {
                    group_id = f.leader.group_id;
                    from_node = f.leader.node_id;
                    to_node = f.target.node_id;
                  } in
                  let grown : PhysHost = record least {
                    leaders = least.leaders ++ f.leader ∷ [];
                  } in
                  let after : List PhysHost =
                    record b { leaders = f.kept } ∷ set_last_host grown hs in
                  let same : (moved, after) ≡ (t, next) = ground (arith, e, uneven, found) in
                  subst (λ (r : LeaderMove × List PhysHost). Handover Q R max_lag r.0 × Lead Q r.1)
                    same
                    (
                      (f.leader, f.target, got.0, got.2, got.3, refl, refl, refl),
                      (
                        got.1,
                        set_last_host-Lead Q grown hs
                            (All-append Q least.leaders (f.leader ∷ []) (last_host-All Q b hs led)
                              (got.0, tt))
                            led.1,
                      ),
                    )
            ]
      ]

  -- The loop ends when it has more rounds than the imbalance.
  plan_rounds-Handover :
      (sort : List PhysHost → List PhysHost) (rounds : ℕ) (hosts : List PhysHost)
      → ((hs : List PhysHost) → Permᴰ hs (sort hs))
      → imbalance hosts < rounds
      → Lead Q hosts
      → (ts : List LeaderMove) × (plan_rounds hosts_of groups max_lag sort rounds hosts ≡ some ts)
        × All (Handover Q R max_lag) ts
  unfolding plan_rounds
  plan_rounds-Handover sort zero hosts sorts enough led = absurd (omega (arith, enough))
  plan_rounds-Handover sort (suc rounds) hosts sorts enough led =
      elim (Option-cases (round hosts_of groups max_lag (sort hosts))) [
        | inl over ↦ ([], rw (over, plan_rounds) refl, tt)
        | inr (r, more) ↦
            let one =
              round-Handover (sort hosts) r.0 r.1
                (All-permᴰ (λ (h : PhysHost). All Q h.leaders) (sorts hosts) led) more in
            let fewer = round-imbalance hosts_of groups max_lag (sort hosts) r.0 r.1 more in
            let rest =
              plan_rounds-Handover sort rounds r.1 sorts
                (omega (arith, enough, fewer, imbalance-permᴰ (sorts hosts))) one.1 in
            (r.0 ∷ rest.0, rw (more, plan_rounds) (rw (rest.1, plan_rounds) refl), (one.0, rest.2))
      ]

-- The view has reported the status, and the node leads its group.
abbrev pub Leads : View → GroupStatus → Type 0
Leads view s = Mem s (statuses view.for_hosts) × (is_leader s.state ≡ true)

-- The view has reported the status, and it is on the group.
abbrev pub Replica : View → ℕ → GroupStatus → Type 0
Replica view group s = Mem s (statuses view.for_groups) × (s.group_id ≡ group)

-- Planning ends, whatever order sorting brings the hosts in, as long as it only permutes them. All
-- transfer that it plans takes a group from a node that was reported to lead it to another node that
-- was reported to have a replica of it, votes, is no witness, and is behind by no more than the lag.
pub plan-Handover :
    (sort : List PhysHost → List PhysHost) (max_lag : ℕ) (view : View)
    → ((hs : List PhysHost) → Permᴰ hs (sort hs))
    → (ts : List LeaderMove) × (plan sort max_lag view ≡ some ts)
      × All (Handover (Leads view) (Replica view) max_lag) ts
unfolding plan
plan-Handover sort max_lag view sorts =
    let hosts = phys_hosts view.for_hosts in
    let many =
      plan_rounds-Handover (node_to_host view.for_nodes (λ _. [])) (by_group view.for_groups)
        max_lag (Leads view) (Replica view)
        (λ g.
          by_group-All (λ (s : GroupStatus). Mem s (statuses view.for_groups)) g view.for_groups
            (λ s m. m))
        sort (imbalance hosts + 1) hosts sorts (omega arith)
        (phys_hosts-Lead (λ (s : GroupStatus). Mem s (statuses view.for_hosts)) view.for_hosts
          (λ s m. m)) in
    elim (Bool-cases (ltb (length view.for_hosts) 2)) [
      | inl few ↦ ([], rw few refl, tt)
      | inr several ↦ (many.0, rw several many.1, many.2)
    ]
