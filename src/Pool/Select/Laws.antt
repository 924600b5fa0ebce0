-- ===== src/Pool/Select/Laws.antt =====
-- Which worker select_best_worker of src/os_transport_thread_pool.c takes.
use native.Mathlib.Decide.{dec_lt}
use mathlib.Core.Path.{subst}
use os_transport.Base.{
  ℕ, zero, suc, ◌+◌, ◌-◌, ◌^◌, ◌≤◌, ◌<◌, ◌≡◌, refl, true, false, ◌⊎◌, inl, inr, Option, none, some,
  Bool-cases, arith,
}
use os_transport.Pool.{ThreadPool, WorkerThread, worker_count}
use os_transport.Pool.Select.{is_busy, is_free, is_better, select_from, select_best_worker}

from_next :
    (P : ℕ → Type 0) (i hi : ℕ)
    → P i
    → ((k : ℕ) → suc i ≤ k → k < hi → P k)
    → (k : ℕ) → i ≤ k
    → k < hi
    → P k
from_next P i hi here later k lo up = elim (dec_lt i k) [
  | yes above ↦ later k above up
  | no same ↦ subst P (omega arith) here
]

module _ {A S : Type 0} where
  -- `j` is the first free worker among those from `i` on.
  abbrev pub IsFirstFree : (ℕ → WorkerThread A S) → ℕ → ℕ → Type 0
  IsFirstFree ws i j = (is_free (ws j) ≡ true) × ((k : ℕ) → i ≤ k → k < j → is_free (ws k) ≡ false)

  -- What the loop returns for the workers `i`, ..., `i + n - 1`.
  abbrev pub Selects :
      (ℕ → WorkerThread A S) → (i n : ℕ) → (best : Option ℕ) → (min_load : ℕ) → Option ℕ → Type 0
  Selects ws i n best min_load r =
      ((j : ℕ) × (i ≤ j) × (j < i + n) × IsFirstFree ws i j × (r ≡ some j))
      ⊎ (((k : ℕ) → i ≤ k → k < i + n → is_free (ws k) ≡ false)
          × (((j : ℕ) × (i ≤ j)
                × (j < i + n)
                × (r ≡ some j)
                × (is_busy (ws j).state ≡ true)
                × ((ws j).queue_size < min_load)
                × ((k : ℕ)
                    → i ≤ k
                    → k < i + n
                    → is_busy (ws k).state ≡ true
                    → (ws j).queue_size ≤ (ws k).queue_size))
              ⊎ ((r ≡ best)
                  × ((k : ℕ)
                      → i ≤ k
                      → k < i + n
                      → is_busy (ws k).state ≡ true
                      → min_load ≤ (ws k).queue_size))))

  module _ (ws : ℕ → WorkerThread A S) (i n : ℕ) where
    abbrev Load : ℕ → ℕ → Type 0
    Load bound k = is_busy (ws k).state ≡ true → bound ≤ (ws k).queue_size

    abbrev NotFree : ℕ → Type 0
    NotFree k = is_free (ws k) ≡ false

    better_next :
        (best : Option ℕ) (min_load : ℕ) {r : Option ℕ}
        → is_free (ws i) ≡ false
        → is_better (ws i) min_load ≡ true
        → Selects ws (suc i) n (some i) (ws i).queue_size r
        → Selects ws i (suc n) best min_load r
    better_next best min_load nf b (inl (j, lo, hi, (fr, before), e)) =
        inl (j, omega arith, omega arith, (fr, from_next NotFree i j nf before), e)
    better_next best min_load nf b (inr (none_free, inl (j, lo, hi, e, bz, less, least))) = inr (
      from_next NotFree i (i + suc n) nf (λ k p q. none_free k p (omega arith)),
      inl (
        j,
        omega arith,
        omega arith,
        e,
        bz,
        ground arith,
        from_next (Load (ws j).queue_size) i (i + suc n) (λ _. omega arith)
            (λ k p q. least k p (omega arith)),
      ),
    )
    better_next best min_load nf b (inr (none_free, inr (e, least))) = inr (
      from_next NotFree i (i + suc n) nf (λ k p q. none_free k p (omega arith)),
      inl (
        i,
        omega arith,
        omega arith,
        e,
        ground arith,
        ground arith,
        from_next (Load (ws i).queue_size) i (i + suc n) (λ _. omega arith)
            (λ k p q. least k p (omega arith)),
      ),
    )

    other_next :
        (best : Option ℕ) (min_load : ℕ) {r : Option ℕ}
        → is_free (ws i) ≡ false
        → Load min_load i
        → Selects ws (suc i) n best min_load r
        → Selects ws i (suc n) best min_load r
    other_next best min_load nf b (inl (j, lo, hi, (fr, before), e)) =
        inl (j, omega arith, omega arith, (fr, from_next NotFree i j nf before), e)
    other_next best min_load nf b (inr (none_free, inl (j, lo, hi, e, bz, less, least))) = inr (
      from_next NotFree i (i + suc n) nf (λ k p q. none_free k p (omega arith)),
      inl (
        j,
        omega arith,
        omega arith,
        e,
        bz,
        less,
        from_next (Load (ws j).queue_size) i (i + suc n) (λ z. omega (arith, b z))
            (λ k p q. least k p (omega arith)),
      ),
    )
    other_next best min_load nf b (inr (none_free, inr (e, least))) = inr (
      from_next NotFree i (i + suc n) nf (λ k p q. none_free k p (omega arith)),
      inr (e, from_next (Load min_load) i (i + suc n) b (λ k p q. least k p (omega arith))),
    )

  select_from-Selects :
      (ws : ℕ → WorkerThread A S) (i n : ℕ) (best : Option ℕ) (min_load : ℕ)
      → Selects ws i n best min_load (select_from ws i n best min_load)
  unfolding select_from
  select_from-Selects ws i zero best min_load =
      inr (λ k a b. absurd (omega arith), inr (refl, λ k a b. absurd (omega arith)))
  select_from-Selects ws i (suc n) best min_load = elim (Bool-cases (is_free (ws i))) [
    | inl fr ↦ inl (i, omega arith, omega arith, (fr, λ k a b. absurd (omega arith)), rw fr)
    | inr nf ↦ elim (Bool-cases (is_better (ws i) min_load)) [
      | inl b ↦
          rw (nf, b)
            (better_next ws i n best min_load nf b
              (select_from-Selects ws (suc i) n (some i) (ws i).queue_size))
      | inr b ↦
          rw (nf, b)
            (other_next ws i n best min_load nf (ground arith)
              (select_from-Selects ws (suc i) n best min_load))
    ]
  ]

  pub select_best_worker-Selects :
      (p : ThreadPool A S)
      → Selects p.workers 0 worker_count none (2 ^ 32 - 1) (select_best_worker p)
  unfolding select_best_worker
  select_best_worker-Selects p = select_from-Selects p.workers 0 worker_count none (2 ^ 32 - 1)
