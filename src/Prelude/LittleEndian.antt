-- ===== src/Prelude/LittleEndian.antt =====
-- The fixed-width integers of `encoding/binary`, little endian, and reads that fail on short input.
use raft.Prelude.Bytes.{word16, word32, word64}
use Prim.Native.Nat.{ℕ, ◌/◌, ◌%◌, ◌^◌, ◌<◌}
use mathlib.Core.Path.{◌≡◌, ap}
use mathlib.Core.List.{List, [], ◌∷◌, ◌++◌}
use mathlib.Core.Option.{Option, none, some}
use native.Mathlib.Omega.{arith}

abbrev pub le16 : ℕ → List ℕ
le16 n = n % 256 ∷ n / 2 ^ 8 % 256 ∷ []

abbrev pub le32 : ℕ → List ℕ
le32 n = n % 256 ∷ n / 2 ^ 8 % 256 ∷ n / 2 ^ 16 % 256 ∷ n / 2 ^ 24 % 256 ∷ []

abbrev pub le64 : ℕ → List ℕ
le64 n =
    n % 256
    ∷ n / 2 ^ 8 % 256
    ∷ n / 2 ^ 16 % 256
    ∷ n / 2 ^ 24 % 256
    ∷ n / 2 ^ 32 % 256
    ∷ n / 2 ^ 40 % 256
    ∷ n / 2 ^ 48 % 256
    ∷ n / 2 ^ 56 % 256
    ∷ []

unfoldable pub read_le16 : List ℕ → Option (ℕ × List ℕ)
read_le16 (a ∷ b ∷ rest) = some (word16 b a, rest)
read_le16 _ = none

unfoldable pub read_le32 : List ℕ → Option (ℕ × List ℕ)
read_le32 (a ∷ b ∷ c ∷ d ∷ rest) = some (word32 d c b a, rest)
read_le32 _ = none

unfoldable pub read_le64 : List ℕ → Option (ℕ × List ℕ)
read_le64 (a ∷ b ∷ c ∷ d ∷ e ∷ f ∷ g ∷ h ∷ rest) = some (word64 h g f e d c b a, rest)
read_le64 _ = none

pub read_le16-le16 :
    (n : ℕ) (rest : List ℕ) → n < 2 ^ 16 → read_le16 (le16 n ++ rest) ≡ some (n, rest)
unfolding read_le16
read_le16-le16 n rest h = ap (λ m. some (m, rest)) (omega arith)

pub read_le32-le32 :
    (n : ℕ) (rest : List ℕ) → n < 2 ^ 32 → read_le32 (le32 n ++ rest) ≡ some (n, rest)
unfolding read_le32
read_le32-le32 n rest h = ap (λ m. some (m, rest)) (omega arith)

pub read_le64-le64 :
    (n : ℕ) (rest : List ℕ) → n < 2 ^ 64 → read_le64 (le64 n ++ rest) ≡ some (n, rest)
unfolding read_le64
read_le64-le64 n rest h = ap (λ m. some (m, rest)) (omega arith)
