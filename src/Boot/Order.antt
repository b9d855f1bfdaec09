-- ===== src/Boot/Order.antt =====
-- What stops the start of the API server, and what does not.
use easyhooks.Metrics.{record_profile_info}
use easyhooks.Prelude.{
  ℤ, pos, leb_ℤ, Bytes, Bool, [], ◌∷◌, ◌≡◌, refl, sym, ap, subst, if_rule, codes, inl, inr,
}
use easyhooks.Runtime.Errors.{Error, wrapped, Result, ok, err, Result-cases}
use easyhooks.Runtime.Events.{counted, easyhooks_profile_info}
use easyhooks.Runtime.Env.{Env}
use easyhooks.Runtime.Exec.{State, Exec, ◌>>=◌, continue}
use easyhooks.Config.{Config, Loaded, loaded, load}
use easyhooks.Security.{Crypto}
use easyhooks.Redis.{Options, new_client}
use easyhooks.Middleware.{seed_super_admin}
use easyhooks.Streams.Queue.{ensure_group}
use easyhooks.Tracing.{TracingLib, Shutdown, init_tracing}
use easyhooks.Boot.{
  TrimNote, MemoryNote, boot_check_redis_memory, boot_trim_stream, loaded_or_exit, deferred, Server,
  connect, prepare, boot, boot_loaded, apply_memory_limit,
}

module _ {W : Type 0} (env : Env W) where
  memory-ok : (s : State W) → (n : MemoryNote) × ((boot_check_redis_memory env s).0 ≡ ok n)
  unfolding boot_check_redis_memory ◌>>=◌
  memory-ok s = (_, refl)

  trim-ok :
      (stream : Bytes) (max_len : ℤ) (s : State W)
      → (n : TrimNote) × ((boot_trim_stream env stream max_len s).0 ≡ ok n)
  unfolding boot_trim_stream ◌>>=◌
  trim-ok stream max_len s =
      if_rule (λ (m : Exec W TrimNote). (n : TrimNote) × ((m s).0 ≡ ok n)) (leb_ℤ max_len (pos 0))
        (λ _. (_, refl)) (λ _. (_, refl))

module _ {W : Type 0} (env : Env W) (crypto : Crypto) (parse_url : Bytes → Result Options)
    (tracing : TracingLib W) (has_gomemlimit : Bool) where
  -- A server with these settings, client and function for the end of the tracing.
  pub record Stands (cfg : Config) (tracer : Result Shutdown) (client : Options) (r : Result Server)
      : Type 0 where
    pub server : Server
    pub result : r ≡ ok server
    pub settings : server.cfg ≡ cfg
    pub closing : server.shutdown_tracing ≡ deferred tracer
    pub connection : server.client ≡ client

  Stands-continue :
      {A : Type 0} (cfg : Config) (tracer : Result Shutdown) (client : Options) {r : Result A}
      {a : A} (f : A → Exec W Server) (s : State W)
      → r ≡ ok a
      → Stands cfg tracer client (f a s).0
      → Stands cfg tracer client (continue r f s).0
  unfolding ◌>>=◌
  Stands-continue {A = A} cfg tracer client f s e stands =
      subst (λ (x : Result A). Stands cfg tracer client (continue x f s).0) (sym e) stands

  abbrev server_of : Config → Result Shutdown → Options → MemoryNote → TrimNote → TrimNote → Server
  server_of cfg tracer client memory events dlq = record {
    cfg = cfg;
    limit = apply_memory_limit has_gomemlimit cfg;
    shutdown_tracing = deferred tracer;
    client = client;
    memory = memory;
    trims = events ∷ dlq ∷ [];
  }

  prepare-Stands :
      (cfg : Config) (tracer : Result Shutdown) (client : Options) (s : State W)
      → Stands cfg tracer client
          (prepare env crypto parse_url tracing has_gomemlimit cfg tracer client s).0
  unfolding prepare ◌>>=◌
  prepare-Stands cfg tracer client s =
      let (memory, m) = memory-ok env s in
      let s1 = (boot_check_redis_memory env s).1 in
      let (events, e) = trim-ok env cfg.event_stream_key cfg.ingest_stream_max_len s1 in
      let s2 = (boot_trim_stream env cfg.event_stream_key cfg.ingest_stream_max_len s1).1 in
      let (dlq, d) = trim-ok env cfg.dlq_stream_key cfg.dlq_stream_max_len s2 in
      let s3 = (boot_trim_stream env cfg.dlq_stream_key cfg.dlq_stream_max_len s2).1 in
      Stands-continue cfg tracer client _ s1 m (
        Stands-continue cfg tracer client _ s2 e (
          Stands-continue cfg tracer client _ s3 d (record {
            server = server_of cfg tracer client memory events dlq;
            result = refl;
            settings = refl;
            closing = refl;
            connection = refl;
          })))

  -- The state in which main connects.
  abbrev pub traced : Config → State W → Result Shutdown × State W
  traced cfg s =
      init_tracing tracing cfg
        (record s { events = counted (easyhooks_profile_info cfg.profile) ∷ s.events })

  abbrev connected_at : Config → State W → Result Options × State W
  connected_at cfg t = new_client env parse_url cfg t

  abbrev seeded_at : Config → State W → Result (Unit {0}) × State W
  seeded_at cfg t = seed_super_admin env crypto cfg.admin_seed_token (connected_at cfg t).1

  abbrev grouped_at : Config → State W → Result (Unit {0}) × State W
  grouped_at cfg t = ensure_group env cfg.event_stream_key cfg.consumer_group (seeded_at cfg t).1

  -- How the start goes on from a state: the first of the connection, the seeding and the group that
  -- fails ends it, with its error and in the state that it left, or none fails and the server
  -- stands.
  pub data Follows (cfg : Config) (tracer : Result Shutdown) (t : State W)
      (after : Result Server × State W) : Type 0 where
    no_redis :
        (e : Error)
        → (connected_at cfg t).0 ≡ err e
        → after ≡ (err (wrapped (codes "Failed to connect to Redis") e), (connected_at cfg t).1)
        → Follows cfg tracer t after
    no_seed :
        (client : Options) (e : Error)
        → (connected_at cfg t).0 ≡ ok client
        → (seeded_at cfg t).0 ≡ err e
        → after ≡ (err (wrapped (codes "Failed to seed admin token") e), (seeded_at cfg t).1)
        → Follows cfg tracer t after
    no_group :
        (client : Options) (e : Error)
        → (connected_at cfg t).0 ≡ ok client
        → (seeded_at cfg t).0 ≡ ok tt
        → (grouped_at cfg t).0 ≡ err e
        → after ≡ (err (wrapped (codes "Failed to ensure consumer group") e), (grouped_at cfg t).1)
        → Follows cfg tracer t after
    stands :
        (client : Options)
        → (connected_at cfg t).0 ≡ ok client
        → (seeded_at cfg t).0 ≡ ok tt
        → (grouped_at cfg t).0 ≡ ok tt
        → Stands cfg tracer client after.0
        → Follows cfg tracer t after

  -- What main does once the settings are loaded and the tracing was tried.
  abbrev rest_of_main : Config → Result Shutdown → State W → Result Server × State W
  rest_of_main cfg tracer t =
      (connect env crypto parse_url tracing has_gomemlimit cfg
          >>= prepare env crypto parse_url tracing has_gomemlimit cfg tracer)
        t

  rest-Follows :
      (cfg : Config) (tracer : Result Shutdown) (t : State W)
      → Follows cfg tracer t (rest_of_main cfg tracer t)
  unfolding connect ◌>>=◌
  rest-Follows cfg tracer t = elim (Result-cases (connected_at cfg t).0) [
    | inr (e, a) ↦ no_redis e a (rw a refl)
    | inl (client, a) ↦ elim (Result-cases (seeded_at cfg t).0) [
      | inr (e, b) ↦ no_seed client e a b (rw (a, b) refl)
      | inl (u, b) ↦ elim (Result-cases (grouped_at cfg t).0) [
        | inr (e, c) ↦ no_group client e a b c (rw (a, b, c) refl)
        | inl (v, c) ↦
            stands client a b c
              (rw (a, b, c) (prepare-Stands cfg tracer client (grouped_at cfg t).1))
      ]
    ]
  ]

  -- With settings that load, the start of the server succeeds exactly if the connection to Redis,
  -- the seeding of the administrator and the consumer group of the event stream, in this order,
  -- succeed; otherwise it ends with the first of their errors and nothing is done behind it. An
  -- error of the tracing, of the check of the memory or of a trim stops nothing.
  pub boot-Follows :
      (parsed : Result Config) (cfg : Config) (s : State W)
      → load parsed ≡ loaded cfg
      → Follows cfg
          (traced cfg s).0
          (traced cfg s).1
          (boot env crypto parse_url tracing has_gomemlimit parsed s)
  unfolding boot boot_loaded record_profile_info ◌>>=◌
  boot-Follows parsed cfg s l =
      subst (Follows cfg (traced cfg s).0 (traced cfg s).1)
        (ap
          (λ (x : Loaded).
            (loaded_or_exit x >>= boot_loaded env crypto parse_url tracing has_gomemlimit) s)
          (sym l))
        (rest-Follows cfg (traced cfg s).0 (traced cfg s).1)
