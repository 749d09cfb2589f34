-- ===== src/Balance/Load.antt =====
-- How far from even the leaders lie, for the planner of balance.go: the sum of the squares, which no order
-- of the hosts changes and each handover lowers.
use mathlib.Core.List.{Permᴰ}
use raft.Prelude.{
  ℕ, suc, ◌+◌, ◌*◌, ◌<◌, Option-cases, inl, inr, some, List, [], ◌∷◌, ◌++◌, length, length-append,
  NodeId, ◌≡◌, refl, ◌∙◌, arith,
}
use raft.Balance.Defs.{
  GroupStatus, LeaderMove, PhysHost, HostId, Found, find_move, last_host, set_last_host, round,
  imbalance,
}

square_suc : (n : ℕ) → suc n * suc n ≡ n * n + 2 * n + 1
square_suc n = ground arith

pub imbalance-permᴰ : {hs ks : List PhysHost} → Permᴰ hs ks → imbalance hs ≡ imbalance ks
unfolding imbalance
imbalance-permᴰ Permᴰ.nil = refl
imbalance-permᴰ (Permᴰ.cons e h) = ground (arith, e, imbalance-permᴰ h)
imbalance-permᴰ (Permᴰ.swap e f) = ground (arith, e, f)
imbalance-permᴰ (Permᴰ.trans h k) = imbalance-permᴰ h ∙ imbalance-permᴰ k

-- One host more at the end has one group more.
imbalance-set_last_host :
    (least : PhysHost) (h : PhysHost) (hs : List PhysHost)
    → length least.leaders ≡ length (last_host h hs).leaders + 1
    → imbalance (set_last_host least (h ∷ hs))
      ≡ imbalance (h ∷ hs) + 2 * length (last_host h hs).leaders + 1
unfolding imbalance last_host set_last_host
imbalance-set_last_host least h [] e = ground (arith, e, square_suc (length h.leaders))
imbalance-set_last_host least h (k ∷ ks) e = ground (arith, imbalance-set_last_host least k ks e)

module _ (hosts_of : NodeId → HostId) (groups : ℕ → List GroupStatus) (max_lag : ℕ) where
  find_move-length :
      (least : HostId) (ls : List GroupStatus) (f : Found)
      → find_move hosts_of groups max_lag least ls ≡ some f
      → length ls ≡ length f.kept + 1
  unfolding find_move
  find_move-length least [] f e = ground arith
  find_move-length least (l ∷ ls) f e = grind (arith, e, λ (g : Found). find_move-length least ls g)

  round-imbalance_pair :
      (b k : PhysHost) (ks : List PhysHost) (t : LeaderMove) (next : List PhysHost)
      → round hosts_of groups max_lag (b ∷ k ∷ ks) ≡ some (t, next)
      → imbalance next < imbalance (b ∷ k ∷ ks)
  unfolding round imbalance last_host
  round-imbalance_pair b k ks t next e =
      let least = last_host k ks in
      elim (Option-cases (find_move hosts_of groups max_lag least.host b.leaders)) [
        | inl stuck ↦ ground (arith, e, stuck)
        | inr (f, found) ↦
            let grown : PhysHost = record least { leaders = least.leaders ++ f.leader ∷ [] } in
            ground (
              arith,
              e,
              found,
              find_move-length least.host b.leaders f found,
              square_suc (length f.kept),
              imbalance-set_last_host grown k ks (length-append least.leaders (f.leader ∷ [])),
            )
      ]

  pub round-imbalance :
      (hs : List PhysHost) (t : LeaderMove) (next : List PhysHost)
      → round hosts_of groups max_lag hs ≡ some (t, next)
      → imbalance next < imbalance hs
  unfolding round last_host
  round-imbalance [] t next e = ground (arith, e)
  round-imbalance (b ∷ []) t next e = ground (arith, e)
  round-imbalance (b ∷ k ∷ ks) t next e = round-imbalance_pair b k ks t next e
