-- ===== src/UserData.antt =====
-- The 64-bit word that travels with every work request: os_transport_user_data_t of
-- include/os_transport.h and TransportData of include/os_transport_thread_pool_internal.h, which have
-- the same four bit fields. The fields lie from the least significant bit upwards, as GCC lays them
-- out on the little-endian targets of the program.
use os_transport.Base.{ℕ, ◌+◌, ◌*◌, ◌/◌, ◌%◌, ◌^◌, ◌<◌, ◌≡◌, arith}

-- The fields of `bs`, each below two to the power of its width.
pub record UserData : Type 0 where
  pub chunk_type : ℕ  -- 2 bits
  pub chunk_id : ℕ  -- 6 bits
  pub chunk_size : ℕ  -- 24 bits
  pub request_id : ℕ  -- 32 bits

-- os_transport_chunk_type_t
abbrev pub not_split : ℕ
not_split = 0

abbrev pub middle_chunk : ℕ
middle_chunk = 1

abbrev pub last_chunk : ℕ
last_chunk = 2

-- Four assignments to the bit fields: each keeps the low bits of the value.
unfoldable pub set_fields : (chunk_type chunk_id chunk_size request_id : ℕ) → UserData
set_fields t i s r = record {
  chunk_type = t % 2 ^ 2;
  chunk_id = i % 2 ^ 6;
  chunk_size = s % 2 ^ 24;
  request_id = r % 2 ^ 32;
}

-- The member `user_ctx` of the union, after a write to `bs`.
unfoldable pub user_ctx : UserData → ℕ
user_ctx d = d.chunk_type + d.chunk_id * 2 ^ 2 + d.chunk_size * 2 ^ 8 + d.request_id * 2 ^ 32

-- The member `bs`, after a write of a 64-bit word to `user_ctx`.
unfoldable pub bs : ℕ → UserData
bs w = record {
  chunk_type = w % 2 ^ 2;
  chunk_id = w / 2 ^ 2 % 2 ^ 6;
  chunk_size = w / 2 ^ 8 % 2 ^ 24;
  request_id = w / 2 ^ 32 % 2 ^ 32;
}

-- What is written through the fields is read back from the word, whatever the values; the word is a
-- 64-bit one.
pub bs-user_ctx-set_fields :
    (t i s r : ℕ)
    → (bs (user_ctx (set_fields t i s r)) ≡ set_fields t i s r)
      × (user_ctx (set_fields t i s r) < 2 ^ 64)
unfolding bs user_ctx set_fields
bs-user_ctx-set_fields t i s r = (ground arith, omega arith)

-- The request id of a word survives the packing if it is a 32-bit number.
pub request_id-bs : (t i s r : ℕ) → r < 2 ^ 32 → (bs (user_ctx (set_fields t i s r))).request_id ≡ r
unfolding bs user_ctx set_fields
request_id-bs t i s r h = omega arith
