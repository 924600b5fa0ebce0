-- ===== src/Memory.antt =====
-- The C library's `malloc`, `calloc` and `free`, as the program sees them: a call succeeds or
-- returns NULL, and a block that was obtained has to be freed once. The allocator is not part of the
-- program: which calls it grants is a parameter, the field `grants`, and may be any function.
use os_transport.Base.{ℕ, ◌+◌, ◌≡◌, Bool, true, false, if◌then◌else◌, arith}

-- `grants k` says whether the k-th request succeeds.
pub record Memory : Type 0 where
  pub grants : ℕ → Bool
  pub requests : ℕ
  pub allocs : ℕ
  pub frees : ℕ

-- What `malloc` and `calloc` return (`false` is NULL), and the memory after the call.
abbrev pub malloc : Memory → Bool × Memory
malloc m =
    if m.grants m.requests
    then (true, record m { requests = m.requests + 1; allocs = m.allocs + 1 })
    else (false, record m { requests = m.requests + 1 })

-- `free` of `n` blocks, one after another.
abbrev pub free : ℕ → Memory → Memory
free n m = record m { frees = m.frees + n }

-- From `m` to `m'` the number of blocks in use has grown by `n`.
abbrev pub Holds : ℕ → Memory → Memory → Type 0
Holds n m m' = m'.allocs + m.frees ≡ m.allocs + m'.frees + n

pub Holds-trans : (a b : ℕ) (m n o : Memory) → Holds a m n → Holds b n o → Holds (a + b) m o
Holds-trans a b m n o h k = omega arith

-- `m'` has heard `n` requests since `m`, granted or refused as `m` says, and holds `k` blocks more.
abbrev pub Asked : (n k : ℕ) → Memory → Memory → Type 0
Asked n k m m' = (m'.grants ≡ m.grants) × (m'.requests ≡ m.requests + n) × Holds k m m'
