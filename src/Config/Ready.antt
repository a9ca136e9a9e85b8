-- ===== src/Config/Ready.antt =====
-- Which environments LoadAgent of internal/config/config.go accepts.
use shardman.Prelude.{◌≡◌, ◌≢◌, ◌⊎◌, inl, inr, refl, ◌↔◌, true, false, Option, [], ◌∷◌, arith}
use shardman.Prelude.Int.{ℤ}
use shardman.Prelude.Text.{Text, codes, text_eq, text_eq_iff}
use shardman.Prelude.Results.{ok}
use shardman.Config.{AgentConfig, or_default, getenv, agent_settings, checked, load_agent}

text_eq-empty : (t : Text) → (text_eq t [] ≡ false) ↔ (t ≢ [])
text_eq-empty t = ground (arith, text_eq_iff t [])

module _ (environ : Text → Text) (parse_duration : Text → Option ℤ) where
  -- What the agent needs: its database, its uuid, a coordinator under one of two names, and a known
  -- source for its size, if it names one.
  pub record IsReady : Type 0 where
    pub pg_dsn : environ (codes "PG_DSN") ≢ []
    pub shard_uuid : environ (codes "SHARD_UUID") ≢ []
    pub coordinator :
        (environ (codes "COORDINATOR_ADDR") ≢ []) ⊎ (environ (codes "COORDINATOR_URL") ≢ [])
    pub size_source :
        (environ (codes "SIZE_SOURCE") ≡ [])
        ⊎ ((environ (codes "SIZE_SOURCE") ≡ codes "database")
            ⊎ (environ (codes "SIZE_SOURCE") ≡ codes "relations"))

  or_default_empty : (v def : Text) → (or_default v def ≢ []) ↔ ((v ≢ []) ⊎ (def ≢ []))
  or_default_empty [] def = ground arith
  or_default_empty (c ∷ v) def = ground arith

  -- The default source is one of the two.
  source_lem :
      (v : Text)
      → (text_eq (or_default v (codes "database")) (codes "database") ≡ true)
        ⊎ (text_eq (or_default v (codes "database")) (codes "relations") ≡ true)
      → (v ≡ []) ⊎ ((v ≡ codes "database") ⊎ (v ≡ codes "relations"))
  source_lem [] h = inl refl
  source_lem (c ∷ v) (inl h) = inr (inl ((text_eq_iff (c ∷ v) (codes "database")).0 h))
  source_lem (c ∷ v) (inr h) = inr (inr ((text_eq_iff (c ∷ v) (codes "relations")).0 h))

  source_back :
      (v : Text)
      → (v ≡ []) ⊎ ((v ≡ codes "database") ⊎ (v ≡ codes "relations"))
      → (text_eq (or_default v (codes "database")) (codes "database") ≡ true)
        ⊎ (text_eq (or_default v (codes "database")) (codes "relations") ≡ true)
  unfolding text_eq
  source_back [] h = inl refl
  source_back (c ∷ v) (inl h) = cc
  source_back (c ∷ v) (inr (inl h)) = inl ((text_eq_iff (c ∷ v) (codes "database")).1 h)
  source_back (c ∷ v) (inr (inr h)) = inr ((text_eq_iff (c ∷ v) (codes "relations")).1 h)

  abbrev HasSettings : AgentConfig → Type 0
  HasSettings c =
      (text_eq c.pg_dsn [] ≡ false)
      × (text_eq c.shard_uuid [] ≡ false)
      × (text_eq c.coordinator_addr [] ≡ false)
      × ((text_eq c.size_source (codes "database") ≡ true)
          ⊎ (text_eq c.size_source (codes "relations") ≡ true))

  checked_forth :
      (c : AgentConfig) {c' : AgentConfig}
      → checked environ parse_duration c ≡ ok c'
      → HasSettings c
  unfolding checked
  checked_forth c h = ground arith

  checked_back : (c : AgentConfig) → HasSettings c → checked environ parse_duration c ≡ ok c
  unfolding checked
  checked_back c h = ground arith

  -- LoadAgent returns the settings as read, and no error, exactly when PG_DSN and SHARD_UUID are
  -- set, COORDINATOR_ADDR or COORDINATOR_URL is set, and SIZE_SOURCE is not set or is one of
  -- "database" and "relations".
  pub load_agent-IsReady :
      (load_agent environ parse_duration ≡ ok (agent_settings environ parse_duration)) ↔ IsReady
  unfolding load_agent agent_settings getenv
  load_agent-IsReady =
      let c = agent_settings environ parse_duration in
      (
        (λ h.
            let (dsn, uuid, addr, source) = checked_forth c h in
            record {
              pg_dsn = (text_eq-empty c.pg_dsn).0 dsn;
              shard_uuid = (text_eq-empty c.shard_uuid).0 uuid;
              coordinator =
                  (or_default_empty (environ (codes "COORDINATOR_ADDR"))
                      (environ (codes "COORDINATOR_URL"))).0
                    ((text_eq-empty c.coordinator_addr).0 addr);
              size_source = source_lem (environ (codes "SIZE_SOURCE")) source;
            }),
        (λ r. checked_back c (
          (text_eq-empty c.pg_dsn).1 r.pg_dsn,
          (text_eq-empty c.shard_uuid).1 r.shard_uuid,
          (text_eq-empty c.coordinator_addr).1 (
              (or_default_empty (environ (codes "COORDINATOR_ADDR"))
                  (environ (codes "COORDINATOR_URL"))).1
                r.coordinator),
          source_back (environ (codes "SIZE_SOURCE")) r.size_source,
        )),
      )
