-- ===== src/Pool/Requests.antt =====
-- src/os_transport_thread_pool.c, the hash table from request ids to contexts: hash_req_id,
-- find_req_context, insert_req_context, remove_req_context.
pub mod Laws
use Prim.Native.Nat.{bit_xor}
use os_transport.Base.{
  ℕ, ◌/◌, ◌%◌, ◌^◌, Option, none, some, List, [], ◌∷◌, ◌==◌, if◌then◌else◌, update,
}
use os_transport.Pool.{ThreadPool, RequestContext, req_hash_size}

-- `(req_id ^ (req_id >> 20)) % REQ_HASH_SIZE`
unfoldable pub hash_req_id : ℕ → ℕ
hash_req_id req_id = bit_xor req_id (req_id / 2 ^ 20) % req_hash_size

module _ {A S : Type 0} where
  -- The loop of `find_req_context` over one chain.
  unfoldable pub find_in : ℕ → List (RequestContext A S) → Option (RequestContext A S)
  find_in req_id [] = none
  find_in req_id (c ∷ cs) = if c.request_id == req_id then some c else find_in req_id cs

  unfoldable pub find_req_context : ThreadPool A S → ℕ → Option (RequestContext A S)
  find_req_context p req_id = find_in req_id (p.req_hash (hash_req_id req_id))

  unfoldable pub insert_req_context : ThreadPool A S → RequestContext A S → ThreadPool A S
  insert_req_context p c =
      let h = hash_req_id c.request_id in
      record p { req_hash = update p.req_hash h (c ∷ p.req_hash h) }

  -- The loop of `remove_req_context` over one chain: it unlinks the first context that fits.
  unfoldable pub remove_in : ℕ → List (RequestContext A S) → List (RequestContext A S)
  remove_in req_id [] = []
  remove_in req_id (c ∷ cs) = if c.request_id == req_id then cs else c ∷ remove_in req_id cs

  unfoldable pub remove_req_context : ThreadPool A S → ℕ → ThreadPool A S
  remove_req_context p req_id =
      let h = hash_req_id req_id in
      record p { req_hash = update p.req_hash h (remove_in req_id (p.req_hash h)) }

  -- A write to `ctx->pending_count` through the pointer that `find_req_context` returned.
  unfoldable pub store_in : ℕ → ℕ → List (RequestContext A S) → List (RequestContext A S)
  store_in req_id n [] = []
  store_in req_id n (c ∷ cs) =
      if c.request_id == req_id
      then record c { pending_count = n } ∷ cs
      else c ∷ store_in req_id n cs

  unfoldable pub store_pending : ThreadPool A S → ℕ → ℕ → ThreadPool A S
  store_pending p req_id n =
      let h = hash_req_id req_id in
      record p { req_hash = update p.req_hash h (store_in req_id n (p.req_hash h)) }
