-- ===== src/Prelude/Ids.antt =====
-- Go's strings as byte sequences, with `==`. Node, host and zone names are such strings.
use Prim.Native.Nat.{ℕ}
use mathlib.Core.Path.{◌≡◌, refl}
use mathlib.Core.Logic.{◌↔◌}
use mathlib.Core.Bool.{Bool, true, false, ◌&&◌}
use mathlib.Core.List.{List, [], ◌∷◌}
use native.Mathlib.Omega.{arith}
use raft.Prelude.Tests.{◌==◌, if◌then◌else◌}

abbrev pub NodeId : Type 0
NodeId = List ℕ

unfoldable pub id_eq : NodeId → NodeId → Bool
id_eq [] [] = true
id_eq [] (_ ∷ _) = false
id_eq (_ ∷ _) [] = false
id_eq (a ∷ as') (b ∷ bs) = a == b && id_eq as' bs

id_eq_sound : (a b : NodeId) → id_eq a b ≡ true → a ≡ b
unfolding id_eq
id_eq_sound [] [] h = refl
id_eq_sound [] (_ ∷ _) h = cc
id_eq_sound (_ ∷ _) [] h = cc
id_eq_sound (a ∷ as') (b ∷ bs) h = ground (arith, id_eq_sound as' bs)

pub id_eq_refl : (a : NodeId) → id_eq a a ≡ true
unfolding id_eq
id_eq_refl [] = refl
id_eq_refl (a ∷ as') = ground (arith, id_eq_refl as')

-- `ground` is given this at each pair of names that is compared.
pub id_eq_iff : (a b : NodeId) → (id_eq a b ≡ true) ↔ (a ≡ b)
id_eq_iff a b = (id_eq_sound a b, λ e. rw e (id_eq_refl b))

-- A Go map as a function: a missing key reads as the zero value of its type.
abbrev pub update {ℓ} : {A : Type ℓ} → (NodeId → A) → NodeId → A → NodeId → A
update f k v j = if id_eq k j then v else f j
