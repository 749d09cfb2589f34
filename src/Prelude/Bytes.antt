-- ===== src/Prelude/Bytes.antt =====
-- The fixed-width integers of `encoding/binary`, big endian, and reads that fail on short input.
use raft.Prelude.Tests.{if◌then◌else◌, leb}
use raft.Prelude.Lists.{length, take, drop, take-length_append, drop-length_append, length-append}
use Prim.Native.Nat.{ℕ, ◌+◌, ◌*◌, ◌/◌, ◌%◌, ◌^◌, ◌<◌}
use mathlib.Core.Path.{◌≡◌, ap}
use mathlib.Core.List.{List, [], ◌∷◌, ◌++◌}
use mathlib.Core.Option.{Option, none, some}
use native.Mathlib.Omega.{arith}

abbrev pub be16 : ℕ → List ℕ
be16 n = n / 2 ^ 8 % 256 ∷ n % 256 ∷ []

abbrev pub be32 : ℕ → List ℕ
be32 n = n / 2 ^ 24 % 256 ∷ n / 2 ^ 16 % 256 ∷ n / 2 ^ 8 % 256 ∷ n % 256 ∷ []

abbrev pub be64 : ℕ → List ℕ
be64 n =
    n / 2 ^ 56 % 256
    ∷ n / 2 ^ 48 % 256
    ∷ n / 2 ^ 40 % 256
    ∷ n / 2 ^ 32 % 256
    ∷ n / 2 ^ 24 % 256
    ∷ n / 2 ^ 16 % 256
    ∷ n / 2 ^ 8 % 256
    ∷ n % 256
    ∷ []

abbrev pub word16 : ℕ → ℕ → ℕ
word16 a b = a * 2 ^ 8 + b

abbrev pub word32 : ℕ → ℕ → ℕ → ℕ → ℕ
word32 a b c d = a * 2 ^ 24 + b * 2 ^ 16 + c * 2 ^ 8 + d

abbrev pub word64 : ℕ → ℕ → ℕ → ℕ → ℕ → ℕ → ℕ → ℕ → ℕ
word64 a b c d e f g h = word32 a b c d * 2 ^ 32 + word32 e f g h

-- A number at the head of the input and the input behind it.
abbrev pub read16 : List ℕ → Option (ℕ × List ℕ)
read16 (a ∷ b ∷ rest) = some (word16 a b, rest)
read16 _ = none

abbrev pub read32 : List ℕ → Option (ℕ × List ℕ)
read32 (a ∷ b ∷ c ∷ d ∷ rest) = some (word32 a b c d, rest)
read32 _ = none

abbrev pub read64 : List ℕ → Option (ℕ × List ℕ)
read64 (a ∷ b ∷ c ∷ d ∷ e ∷ f ∷ g ∷ h ∷ rest) = some (word64 a b c d e f g h, rest)
read64 _ = none

-- `n` bytes and what follows.
unfoldable pub read_bytes : ℕ → List ℕ → Option (List ℕ × List ℕ)
read_bytes n buf = if leb n (length buf) then some (take n buf, drop n buf) else none

pub read16-be16 : (n : ℕ) (rest : List ℕ) → n < 2 ^ 16 → read16 (be16 n ++ rest) ≡ some (n, rest)
read16-be16 n rest h = ap (λ m. some (m, rest)) (omega arith)

pub read32-be32 : (n : ℕ) (rest : List ℕ) → n < 2 ^ 32 → read32 (be32 n ++ rest) ≡ some (n, rest)
read32-be32 n rest h = ap (λ m. some (m, rest)) (omega arith)

pub read64-be64 : (n : ℕ) (rest : List ℕ) → n < 2 ^ 64 → read64 (be64 n ++ rest) ≡ some (n, rest)
read64-be64 n rest h = ap (λ m. some (m, rest)) (omega arith)

pub read_bytes-append : (xs rest : List ℕ) → read_bytes (length xs) (xs ++ rest) ≡ some (xs, rest)
unfolding read_bytes
read_bytes-append xs rest =
    ground (arith, length-append xs rest, take-length_append xs rest, drop-length_append xs rest)
