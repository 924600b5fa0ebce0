-- ===== src/Base/Arrays.antt =====
-- Arrays of a fixed size as functions of the index, with sums over the first entries. An index from
-- the size on names no entry of the array.
use Prim.Native.Nat.{ℕ, zero, suc, ◌+◌, ◌≤◌, ◌<◌}
use mathlib.Core.Path.{◌≡◌}
use native.Mathlib.Omega.{arith}
use mathlib.Core.Logic.{inl, inr}
use os_transport.Base.Tests.{◌==◌, ltb, Bool-cases, ==→eq, if◌then◌else◌}

module _ {ℓ} {A : Type ℓ} where
  abbrev pub update : (ℕ → A) → ℕ → A → ℕ → A
  update f i a j = if i == j then a else f j

-- The sum of the sizes of the first entries.
module _ {ℓ} {B : Type ℓ} (size : B → ℕ) where
  pub total : (count : ℕ) → (ℕ → B) → ℕ
  total zero xs = 0
  total (suc k) xs = size (xs k) + total k xs

  -- What an index adds to the sum of the first `k` entries when its entry has size `s`.
  abbrev share : (j k s : ℕ) → ℕ
  share j k s = if ltb j k then s else 0

  share_moves :
      (k : ℕ) (xs : ℕ → B) (j : ℕ) (b : B)
      → total k (update xs j b) + share j k (size (xs j)) ≡ total k xs + share j k (size b)
  unfolding total
  share_moves zero xs j b = ground arith
  share_moves (suc k) xs j b = ground (arith, share_moves k xs j b)

  -- A write changes the sum by the difference at its index.
  pub total-update :
      (k : ℕ) (xs : ℕ → B) (j : ℕ) (b : B)
      → j < k
      → total k (update xs j b) + size (xs j) ≡ total k xs + size b
  total-update k xs j b inside = ground (arith, share_moves k xs j b)

  pub total-zero : (k : ℕ) (xs : ℕ → B) → ((j : ℕ) → size (xs j) ≡ 0) → total k xs ≡ 0
  unfolding total
  total-zero zero xs all = omega arith
  total-zero (suc k) xs all = omega (arith, total-zero k xs all, all k)

  pub le-total : (k : ℕ) (xs : ℕ → B) (j : ℕ) → j < k → size (xs j) ≤ total k xs
  unfolding total
  le-total (suc k) xs j inside = elim (Bool-cases (j == k)) [
    | inl here ↦ rw (==→eq j k here) (omega arith)
    | inr there ↦ ground (arith, le-total k xs j)
  ]
  le-total zero xs j inside = absurd (omega arith)

pub total_mono {ℓ} :
    {B : Type ℓ} (few many : B → ℕ) (k : ℕ) (xs : ℕ → B)
    → ((b : B) → few b ≤ many b)
    → total few k xs ≤ total many k xs
unfolding total
total_mono few many zero xs grows = omega arith
total_mono few many (suc k) xs grows = omega (arith, grows (xs k), total_mono few many k xs grows)
