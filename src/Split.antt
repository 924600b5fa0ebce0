-- ===== src/Split.antt =====
-- src/os_transport.c, the splitting of a transfer into chunks: common_split_chunks,
-- send_split_chunks and recv_split_chunks.
pub mod Tiling
use os_transport.Base.{
  ℕ, zero, suc, ◌+◌, ◌-◌, ◌*◌, ◌/◌, ◌%◌, ◌^◌, Bool, true, false, Option, none, some, List, [], ◌∷◌,
  ltb, ◌==◌, if◌then◌else◌,
}
use os_transport.Memory.{Memory, malloc}
use os_transport.Types.{BufferInfo, DeviceInfo, ChunkInfo, default_chunk_size}

-- The number of chunks of a transfer of `len` bytes.
unfoldable pub chunk_count : ℕ → ℕ
chunk_count len = (len + default_chunk_size - 1) / default_chunk_size

-- `remain_len - i * DEFAULT_CHUNK_SIZE` on size_t.
abbrev pub rest_len : ℕ → ℕ → ℕ
rest_len remain i = (remain + 2 ^ 64 - i * default_chunk_size % 2 ^ 64) % 2 ^ 64

-- The body of the loop: the i-th chunk. The addresses are uint64_t and the length is stored in a
-- uint32_t.
unfoldable pub chunk_at : (src_addr dst_addr remain_len i : ℕ) → ChunkInfo
chunk_at src_addr dst_addr remain_len i = record {
  src = (src_addr + i * default_chunk_size) % 2 ^ 64;
  dst = (dst_addr + i * default_chunk_size) % 2 ^ 64;
  len =
      (if ltb default_chunk_size (rest_len remain_len i)
        then default_chunk_size
        else rest_len remain_len i)
      % 2 ^ 32;
}

-- The loop from index `i` with `n` rounds left.
unfoldable pub fill_chunks : (src_addr dst_addr remain_len i n : ℕ) → List ChunkInfo
fill_chunks src_addr dst_addr remain_len i zero = []
fill_chunks src_addr dst_addr remain_len i (suc n) =
    chunk_at src_addr dst_addr remain_len i ∷ fill_chunks src_addr dst_addr remain_len (suc i) n

-- `none` is the return value -1, with `*ret_chunks` and `*ret_chunk_num` untouched.
unfoldable pub common_split_chunks :
    (src_addr dst_addr len : ℕ) → Memory → Option (List ChunkInfo × ℕ) × Memory
common_split_chunks src_addr dst_addr len m =
    let (granted, m') = malloc m in
    if granted
    then (some (fill_chunks src_addr dst_addr len 0 (chunk_count len), chunk_count len), m')
    else (none, m')

unfoldable pub send_split_chunks :
    (local_src remote_dst : Option BufferInfo) (len : ℕ)
    → Memory
    → Option (List ChunkInfo × ℕ) × Memory
send_split_chunks none remote_dst len m = (none, m)
send_split_chunks (some s) none len m = (none, m)
send_split_chunks (some s) (some d) len m =
    if len == 0 then (none, m) else common_split_chunks s.addr d.addr len m

unfoldable pub recv_split_chunks :
    (host : Option BufferInfo) (device : Option DeviceInfo) (len : ℕ)
    → Memory
    → Option (List ChunkInfo × ℕ) × Memory
recv_split_chunks none device len m = (none, m)
recv_split_chunks (some h) none len m = (none, m)
recv_split_chunks (some h) (some d) len m =
    if len == 0 then (none, m) else common_split_chunks h.addr d.dst len m
