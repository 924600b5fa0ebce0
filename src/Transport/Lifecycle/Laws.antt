-- ===== src/Transport/Lifecycle/Laws.antt =====
-- What os_transport_init of src/os_transport.c leaves.
use os_transport.Types.{TransportCfg}
use os_transport.Transport.{World, Handle, TaskArg, System}
use os_transport.Transport.Lifecycle.{
  os_transport_init, update_jfc_for_poll, os_transport_reg_jfc, start_pool,
}
use os_transport.Pool.{ThreadPool}
use os_transport.Pool.Lifecycle.Laws.{thread_pool_init-cases, IsEmpty-IsValid, IsEmpty}
use os_transport.Pool.Lifecycle.{thread_pool_init, thread_pool_start}
use os_transport.Memory.{malloc, Memory}
use os_transport.Pool.Accounting.{IsValid}
use os_transport.Base.{
  sym, ℕ, ◌≡◌, refl, true, false, Option, none, some, inl, inr, minus_one, Bool-cases, arith,
}

module _ {N : Type 0} where
  -- The pool of a new handle.
  pub record IsReady (cfg : TransportCfg) (p : ThreadPool TaskArg (World N)) : Type 0 where
    pub running : p.is_running ≡ true
    pub empty : IsEmpty p
    pub valid : IsValid p
    pub polled : p.urma_info.jfc ≡ cfg.jfc
    pub events : p.urma_info.jfce ≡ cfg.jfce

  -- What the call leaves, by whether there is a handle.
  abbrev pub InitOutcome :
      (cfg : TransportCfg) → System N → ℕ × Option (Handle N) × System N → Type 0
  InitOutcome cfg sys (ret, none, sys') = (ret ≡ minus_one) × (sys'.g_inited ≡ sys.g_inited)
  InitOutcome cfg sys (ret, some h, sys') =
      (ret ≡ 0)
      × (sys.g_inited ≡ false)
      × (sys'.g_inited ≡ true)
      × (sys'.world ≡ sys.world)
      × (p : ThreadPool TaskArg (World N)) × (h.thread_pool ≡ some p)
      × IsReady cfg p

  module _ (pthread_create : ℕ → ℕ × ℕ) (urma_ctx : ℕ) (cfg : TransportCfg) where
    -- The pool that `start_pool` makes of a new one.
    abbrev started : ThreadPool TaskArg (World N) → ThreadPool TaskArg (World N)
    started p = record p {
      urma_info = record { jfce = cfg.jfce; jfc = cfg.jfc; urma_event_mode = cfg.urma_event_mode };
      is_running = true;
    }

    started-IsReady : (p : ThreadPool TaskArg (World N)) → IsEmpty p → IsReady cfg (started p)
    started-IsReady p e =
        let e' : IsEmpty (started p) = record {
          indexed = e.indexed;
          queues = e.queues;
          sizes = e.sizes;
          quiet = e.quiet;
          chains = e.chains;
        } in
        record {
          running = refl;
          empty = e';
          valid = IsEmpty-IsValid (started p) e';
          polled = refl;
          events = refl;
        }

    started_outcome :
        (sys : System N) (p : ThreadPool TaskArg (World N)) (m : Memory)
        → sys.g_inited ≡ false
        → IsEmpty p
        → InitOutcome cfg sys
            (start_pool urma_ctx cfg (record sys { g_inited = true }) (some p, sys.world, m))
    unfolding start_pool os_transport_reg_jfc update_jfc_for_poll thread_pool_start
    started_outcome sys p m fresh e = elim (Bool-cases p.is_running) [
      | inl r ↦ rw (r) (refl, sym fresh)
      | inr r ↦ rw (r) (refl, fresh, refl, refl, started p, refl, started-IsReady p e)
    ]

    no_pool_outcome :
        (sys : System N) (made : Option (ThreadPool TaskArg (World N)) × World N × Memory)
        → sys.g_inited ≡ false
        → made.0 ≡ none
        → InitOutcome cfg sys (start_pool urma_ctx cfg (record sys { g_inited = true }) made)
    unfolding start_pool
    no_pool_outcome sys (none, w, m) fresh gone = (refl, sym fresh)
    no_pool_outcome sys (some p, w, m) fresh gone = absurd (ground (arith, gone))

    init_again :
        (sys : System N)
        → sys.g_inited ≡ true
        → os_transport_init pthread_create urma_ctx (some cfg) true sys ≡ (minus_one, none, sys)
    unfolding os_transport_init
    init_again sys inited = ground arith

    init_refused :
        (sys : System N)
        → sys.g_inited ≡ false
        → (malloc sys.memory).0 ≡ false
        → os_transport_init pthread_create urma_ctx (some cfg) true sys
          ≡ (minus_one, none, record sys { memory = (malloc sys.memory).1 })
    unfolding os_transport_init
    init_refused sys fresh no_memory = ground arith

    init_fresh :
        (sys : System N)
        → sys.g_inited ≡ false
        → (malloc sys.memory).0 ≡ true
        → os_transport_init pthread_create urma_ctx (some cfg) true sys
          ≡ start_pool urma_ctx cfg
              (record sys { g_inited = true })
              (thread_pool_init pthread_create sys.world (malloc sys.memory).1)
    unfolding os_transport_init
    init_fresh sys fresh granted = ground arith

    -- With a configuration and a place for the handle, `os_transport_init` either returns 0 and a handle, where the library was
    -- not initialised before and is now, and the pool of the handle runs, is empty with its books in
    -- order, and has the caller's completion queue; or it returns -1 and no handle, and the library is
    -- initialised afterwards if and only if it was before.
    pub os_transport_init-InitOutcome :
        (sys : System N)
        → InitOutcome cfg sys (os_transport_init pthread_create urma_ctx (some cfg) true sys)
    os_transport_init-InitOutcome sys = elim (Bool-cases sys.g_inited) [
      | inl inited ↦ rw (init_again sys inited) (refl, refl)
      | inr fresh ↦ elim (Bool-cases (malloc sys.memory).0) [
        | inr refused ↦ rw (init_refused sys fresh refused) (refl, refl)
        | inl granted ↦
            let m = (malloc sys.memory).1 in
            rw (init_fresh sys fresh granted)
              (elim (thread_pool_init-cases pthread_create sys.world m) [
                | inl gone ↦ no_pool_outcome sys _ fresh gone
                | inr (made, e) ↦ rw (made) (started_outcome sys _ _ fresh e)
              ])
      ]
    ]
