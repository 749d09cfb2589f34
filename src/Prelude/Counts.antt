-- ===== src/Prelude/Counts.antt =====
-- How many elements of a list pass a test, and the pigeonhole that quorums rest on.
use Prim.Native.Nat.{ℕ, ◌+◌, ◌≤◌, ◌<◌}
use mathlib.Core.Path.{◌≡◌, refl, ◌∙◌}
use mathlib.Core.Logic.{∥∥₁_elim, inl, inr}
use mathlib.Core.Bool.{Bool, true}
use mathlib.Core.List.{List, [], ◌∷◌, Mem, Perm, Permᴰ, mem-cons_self, mem-cons_of_mem}
use native.Mathlib.Nat.{ℕ_set}
use native.Mathlib.Omega.{arith}
use raft.Prelude.Tests.{if◌then◌else◌, Bool-cases}
use raft.Prelude.Lists.{length}

module _ {ℓ} {A : Type ℓ} where
  abbrev pub count : (A → Bool) → List A → ℕ
  count p [] = 0
  count p (x ∷ xs) = (if p x then 1 else 0) + count p xs

  pub count-le-length : (p : A → Bool) (xs : List A) → count p xs ≤ length xs
  count-le-length p [] = omega arith
  count-le-length p (x ∷ xs) = ground (arith, count-le-length p xs)

  pub count_mono :
      (p q : A → Bool) (xs : List A) → ((x : A) → p x ≡ true → q x ≡ true) → count p xs ≤ count q xs
  count_mono p q [] h = omega arith
  count_mono p q (x ∷ xs) h = ground (arith, h x, count_mono p q xs h)

  count-permᴰ : (p : A → Bool) {xs ys : List A} → Permᴰ xs ys → count p xs ≡ count p ys
  count-permᴰ p Permᴰ.nil = refl
  count-permᴰ p (Permᴰ.cons e h) = ground (arith, e, count-permᴰ p h)
  count-permᴰ p (Permᴰ.swap e f) = ground (arith, e, f)
  count-permᴰ p (Permᴰ.trans h k) = count-permᴰ p h ∙ count-permᴰ p k

  -- Two tests that together pass more often than there are elements pass at one element.
  pub overlap :
      (p q : A → Bool) (xs : List A)
      → length xs < count p xs + count q xs
      → (x : A) × Mem x xs × (p x ≡ true) × (q x ≡ true)
  overlap p q [] h = absurd (omega arith)
  overlap p q (x ∷ xs) h = elim (Bool-cases (p x)) [
    | inl px ↦ elim (Bool-cases (q x)) [
      | inl qx ↦ (x, mem-cons_self, px, qx)
      | inr qx ↦ later (overlap p q xs (ground arith))
    ]
    | inr px ↦ later (overlap p q xs (ground arith))
  ]
    where
      later :
          ((y : A) × Mem y xs × (p y ≡ true) × (q y ≡ true))
          → (y : A) × Mem y (x ∷ xs) × (p y ≡ true) × (q y ≡ true)
      later (y, m, py, qy) = (y, mem-cons_of_mem x m, py, qy)

  pub count-perm : (p : A → Bool) {xs ys : List A} → Perm xs ys → count p xs ≡ count p ys
  count-perm p h = ∥∥₁_elim h (ℕ_set _ _) (count-permᴰ p)

  count_all : (xs : List A) → count (λ _. true) xs ≡ length xs
  count_all [] = refl
  count_all (x ∷ xs) = omega (arith, count_all xs)

  pub length-perm : {xs ys : List A} → Perm xs ys → length xs ≡ length ys
  length-perm {xs} {ys} h = omega (arith, count-perm (λ _. true) h, count_all xs, count_all ys)
