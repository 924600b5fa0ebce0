-- ===== src/Split/Tiling.antt =====
-- The chunks of src/os_transport.c's common_split_chunks tile the transfer.
use os_transport.Base.{
  ==_ne, ap, ℕ, zero, suc, ◌+◌, ◌-◌, ◌*◌, ◌%◌, ◌^◌, ◌≤◌, ◌<◌, ◌≡◌, refl, some, List, [], ◌∷◌, true,
  length, arith,
}
use Prim.Native.Nat.{min}
use os_transport.Memory.{Memory, Holds}
use os_transport.Types.{BufferInfo, DeviceInfo, ChunkInfo, default_chunk_size}
use os_transport.Split.{
  chunk_count, chunk_at, fill_chunks, common_split_chunks, send_split_chunks, recv_split_chunks,
}

-- From the offset `off` on, the chunks lie side by side in the source and in the destination, none is
-- empty or larger than a chunk may be, and the last one ends at `len`.
abbrev pub Tiles : (src dst len off : ℕ) → List ChunkInfo → Type 0
Tiles src dst len off [] = off ≡ len
Tiles src dst len off (c ∷ cs) =
    (c.src ≡ (src + off) % 2 ^ 64)
    × (c.dst ≡ (dst + off) % 2 ^ 64)
    × (0 < c.len)
    × (c.len ≤ default_chunk_size)
    × Tiles src dst len (off + c.len) cs

-- The chunk of index `i` starts at `i` chunk sizes and goes to the next multiple or to the end.
pub chunk_at_lem :
    (src dst len i : ℕ)
    → len < 2 ^ 32
    → i < chunk_count len
    → (i * default_chunk_size < len)
      × ((chunk_at src dst len i).len ≡ min default_chunk_size (len - i * default_chunk_size))
unfolding chunk_at chunk_count
chunk_at_lem src dst len i small h = (omega arith, ground arith)

chunk_at_bounds :
    (src dst len i : ℕ)
    → len < 2 ^ 32
    → i < chunk_count len
    → (0 < (chunk_at src dst len i).len)
      × ((chunk_at src dst len i).len ≤ default_chunk_size)
      × (min (i * default_chunk_size) len ≡ i * default_chunk_size)
      × (min (suc i * default_chunk_size) len
          ≡ i * default_chunk_size + (chunk_at src dst len i).len)
chunk_at_bounds src dst len i small h =
    let (before, size) = chunk_at_lem src dst len i small h in
    (omega arith, omega arith, omega arith, omega arith)

fill_chunks-Tiles :
    (src dst len i n : ℕ)
    → len < 2 ^ 32
    → i + n ≡ chunk_count len
    → Tiles src dst len (min (i * default_chunk_size) len) (fill_chunks src dst len i n)
unfolding fill_chunks chunk_count
fill_chunks-Tiles src dst len i zero small e = omega arith
fill_chunks-Tiles src dst len i (suc n) small e =
    let (pos, bound, start, next) = chunk_at_bounds src dst len i small (omega arith) in
    rw start (
      unfold chunk_at in refl,
      unfold chunk_at in refl,
      pos,
      bound,
      rw next at (fill_chunks-Tiles src dst len (suc i) n small (omega arith)),
    )

length-fill_chunks : (src dst len i n : ℕ) → length (fill_chunks src dst len i n) ≡ n
unfolding fill_chunks
length-fill_chunks src dst len i zero = refl
length-fill_chunks src dst len i (suc n) = ap suc (length-fill_chunks src dst len (suc i) n)

-- What a successful call hands out: as many chunks as it says, which tile the transfer.
pub record IsSplit (src dst len : ℕ) (chunks : List ChunkInfo) (num : ℕ) : Type 0 where
  pub counted : length chunks ≡ num
  pub tiles : Tiles src dst len 0 chunks
  pub enough : len ≤ num * default_chunk_size
  pub needed : num * default_chunk_size < len + default_chunk_size

first_offset : (len : ℕ) → min (0 * default_chunk_size) len ≡ 0
first_offset len = omega arith

common_split_chunks-IsSplit :
    (src dst len : ℕ) (m : Memory)
    → 0 < len
    → len < 2 ^ 32
    → m.grants m.requests ≡ true
    → (chunks : List ChunkInfo) × (num : ℕ) × (m' : Memory) × (common_split_chunks src dst len m
        ≡ (some (chunks, num), m'))
      × IsSplit src dst len chunks num
      × Holds 1 m m'
unfolding common_split_chunks
common_split_chunks-IsSplit src dst len m pos small granted = (
  fill_chunks src dst len 0 (chunk_count len),
  chunk_count len,
  record m { requests = m.requests + 1; allocs = m.allocs + 1 },
  rw granted,
  record {
    counted = length-fill_chunks src dst len 0 (chunk_count len);
    tiles =
        rw (first_offset len) at
          (fill_chunks-Tiles src dst len 0 (chunk_count len) small (omega arith));
    enough = unfold chunk_count in omega arith;
    needed = unfold chunk_count in omega arith;
  },
  omega arith,
)

-- A send of `len` bytes, 0 < len < 2^32, whose array is granted by `malloc`: `send_split_chunks`
-- returns as many chunks as it says, no more than needed, which tile the transfer from the local
-- buffer to the remote one, and holds one block.
pub send_split_chunks-IsSplit :
    (s d : BufferInfo) (len : ℕ) (m : Memory)
    → 0 < len
    → len < 2 ^ 32
    → m.grants m.requests ≡ true
    → (chunks : List ChunkInfo) × (num : ℕ) × (m' : Memory) × (send_split_chunks
          (some s)
          (some d)
          len
          m
        ≡ (some (chunks, num), m'))
      × IsSplit s.addr d.addr len chunks num
      × Holds 1 m m'
unfolding send_split_chunks
send_split_chunks-IsSplit s d len m pos small granted =
    rw (==_ne len 0 (omega arith))
      (common_split_chunks-IsSplit s.addr d.addr len m pos small granted)

-- A receive of `len` bytes, 0 < len < 2^32, whose array is granted by `malloc`: `recv_split_chunks`
-- returns as many chunks as it says, no more than needed, which tile the transfer from the host
-- buffer to the device memory, and holds one block.
pub recv_split_chunks-IsSplit :
    (h : BufferInfo) (d : DeviceInfo) (len : ℕ) (m : Memory)
    → 0 < len
    → len < 2 ^ 32
    → m.grants m.requests ≡ true
    → (chunks : List ChunkInfo) × (num : ℕ) × (m' : Memory) × (recv_split_chunks
          (some h)
          (some d)
          len
          m
        ≡ (some (chunks, num), m'))
      × IsSplit h.addr d.dst len chunks num
      × Holds 1 m m'
unfolding recv_split_chunks
recv_split_chunks-IsSplit h d len m pos small granted =
    rw (==_ne len 0 (omega arith))
      (common_split_chunks-IsSplit h.addr d.dst len m pos small granted)
