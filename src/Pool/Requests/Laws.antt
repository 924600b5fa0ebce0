-- ===== src/Pool/Requests/Laws.antt =====
-- The hash table of src/os_transport_thread_pool.c against a map from request ids to contexts.
use mathlib.Core.Option
use os_transport.Base.{
  ℕ, ◌≤◌, ◌<◌, ◌≡◌, refl, none, some, List, [], ◌∷◌, ◌==◌, if◌then◌else◌, count_if, arith,
}
use os_transport.Pool.{ThreadPool, RequestContext, req_hash_size}
use os_transport.Pool.Requests.{
  hash_req_id, find_in, find_req_context, insert_req_context, remove_in, remove_req_context,
  store_in, store_pending,
}

-- Every index that the program computes lies in the array `req_hash`.
pub hash_req_id-lt : (req_id : ℕ) → hash_req_id req_id < req_hash_size
unfolding hash_req_id
hash_req_id-lt req_id = omega arith

module _ {A S : Type 0} where
  abbrev pub with_pending : ℕ → RequestContext A S → RequestContext A S
  with_pending n c = record c { pending_count = n }

  -- No chain holds two contexts of one request.
  abbrev pub IsUnique : ThreadPool A S → Type 0
  IsUnique p = (r h : ℕ) → count_if (λ c. c.request_id == r) (p.req_hash h) ≤ 1

  find_in-absent :
      (r : ℕ) (cs : List (RequestContext A S))
      → count_if (λ c. c.request_id == r) cs ≡ 0
      → find_in r cs ≡ none
  unfolding find_in
  find_in-absent r [] h = refl
  find_in-absent r (c ∷ cs) h = ground (arith, find_in-absent r cs)

  pub count-find_in :
      (r : ℕ) (cs : List (RequestContext A S))
      → find_in r cs ≡ none
      → count_if (λ c. c.request_id == r) cs ≡ 0
  unfolding find_in
  count-find_in r [] h = refl
  count-find_in r (c ∷ cs) h = ground (arith, count-find_in r cs)

  find_in-remove_in :
      (k r : ℕ) (cs : List (RequestContext A S))
      → count_if (λ c. c.request_id == k) cs ≤ 1
      → find_in r (remove_in k cs) ≡ (if k == r then none else find_in r cs)
  unfolding find_in remove_in
  find_in-remove_in k r [] h = ground arith
  find_in-remove_in k r (c ∷ cs) h = ground (arith, find_in-remove_in k r cs, find_in-absent r cs)

  find_in-store_in :
      (k r n : ℕ) (cs : List (RequestContext A S))
      → find_in r (store_in k n cs)
        ≡ (if k == r then Option.map (with_pending n) (find_in r cs) else find_in r cs)
  unfolding find_in store_in
  find_in-store_in k r n [] = ground arith
  find_in-store_in k r n (c ∷ cs) = ground (arith, find_in-store_in k r n cs)

  count-remove_in :
      (k r : ℕ) (cs : List (RequestContext A S))
      → count_if (λ c. c.request_id == r) (remove_in k cs) ≤ count_if (λ c. c.request_id == r) cs
  unfolding remove_in
  count-remove_in k r [] = omega arith
  count-remove_in k r (c ∷ cs) = ground (arith, count-remove_in k r cs)

  count-store_in :
      (k r n : ℕ) (cs : List (RequestContext A S))
      → count_if (λ c. c.request_id == r) (store_in k n cs) ≡ count_if (λ c. c.request_id == r) cs
  unfolding store_in
  count-store_in k r n [] = refl
  count-store_in k r n (c ∷ cs) = ground (arith, count-store_in k r n cs)

  pub find-insert :
      (p : ThreadPool A S) (c : RequestContext A S) (r : ℕ)
      → find_req_context (insert_req_context p c) r
        ≡ (if c.request_id == r then some c else find_req_context p r)
  unfolding find_req_context insert_req_context find_in
  find-insert p c r = ground arith

  -- In a table that holds no request twice, `remove_req_context` takes away the context of its request
  -- and leaves what `find_req_context` finds for every other request.
  pub find-remove :
      (p : ThreadPool A S) (k r : ℕ)
      → IsUnique p
      → find_req_context (remove_req_context p k) r
        ≡ (if k == r then none else find_req_context p r)
  unfolding find_req_context remove_req_context
  find-remove p k r u =
      ground (arith, find_in-remove_in k r (p.req_hash (hash_req_id k)), u k (hash_req_id k))

  pub find-store :
      (p : ThreadPool A S) (k r n : ℕ)
      → find_req_context (store_pending p k n) r ≡ (
          if k == r
          then Option.map (with_pending n) (find_req_context p r)
          else find_req_context p r)
  unfolding find_req_context store_pending
  find-store p k r n = ground (arith, find_in-store_in k r n (p.req_hash (hash_req_id k)))

  pub insert-IsUnique :
      (p : ThreadPool A S) (c : RequestContext A S)
      → IsUnique p
      → find_req_context p c.request_id ≡ none
      → IsUnique (insert_req_context p c)
  unfolding find_req_context insert_req_context
  insert-IsUnique p c u e r h =
      ground (arith, u r h, count-find_in c.request_id (p.req_hash (hash_req_id c.request_id)))

  pub remove-IsUnique :
      (p : ThreadPool A S) (k : ℕ) → IsUnique p → IsUnique (remove_req_context p k)
  unfolding remove_req_context
  remove-IsUnique p k u r h =
      ground (arith, u r h, count-remove_in k r (p.req_hash (hash_req_id k)))

  pub store-IsUnique : (p : ThreadPool A S) (k n : ℕ) → IsUnique p → IsUnique (store_pending p k n)
  unfolding store_pending
  store-IsUnique p k n u r h =
      ground (arith, u r h, count-store_in k r n (p.req_hash (hash_req_id k)))
