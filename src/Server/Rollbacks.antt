-- ===== src/Server/Rollbacks.antt =====
-- The replies of the handlers after a failure, and the calls that roll back.
use shardman.Prelude.{ℕ, true, Option, none, some, List, ◌≡◌, refl, ◌∙◌}
use shardman.Prelude.Int.{ℤ}
use shardman.Prelude.Text.{Text}
use shardman.Prelude.Results.{Result, ok, err}
use shardman.Bucket.Platform.{Platform}
use shardman.Bucket.Spec.{Axis, Spec}
use shardman.Store.Shard.{Shard}
use shardman.Store.Db.{Db, ConfigRow}
use shardman.Store.Config.{
  ClusterConfig, Store, bootstrap, bootstrap_at, insert_stored, insert_config, get_config,
}
use shardman.Store.Readback.{is_error, RollsBack}
use shardman.Supervisors.Retention.{
  retention_tick, tick_with, retention_round, retain, evict_result,
}
use shardman.Resolve.Histories.{get_config_same}
use shardman.Server.Access.{Code}
use shardman.Server.Requests.{Reply, is_failed}
use shardman.Server.Replies.{
  Server, seal_reply, done_reply, drain_reply, stats_reply, tick_reply, register_reply,
  bootstrap_reply,
}

-- A reply that reports a failure comes with the database and the broadcast as they were.
abbrev pub Unharmed : Server → Reply × Server → Type 0
Unharmed s r = is_failed r.0 ≡ true → (r.1.store.db ≡ s.store.db) × (r.1.broadcast ≡ s.broadcast)

abbrev pub RollsBackStore : {A : Type 0} → Db → Result A × Store → Type 0
RollsBackStore d r = is_error r.0 ≡ true → r.1.db ≡ d

pub seal_reply-Unharmed :
    (b : Text) (s : Server) (r : Result (Unit {0}) × Db)
    → RollsBack s.store.db r
    → Unharmed s (seal_reply b s r)
unfolding seal_reply
seal_reply-Unharmed b s (ok u, d) h f = cc
seal_reply-Unharmed b s (err e, d) h f = (h refl, refl)

pub done_reply-Unharmed :
    (code : Code) (s : Server) (r : Result (Unit {0}) × Db)
    → RollsBack s.store.db r
    → Unharmed s (done_reply code s r)
unfolding done_reply
done_reply-Unharmed code s (ok u, d) h f = cc
done_reply-Unharmed code s (err e, d) h f = (h refl, refl)

pub drain_reply-Unharmed :
    (s : Server) (r : Result (Unit {0}) × Db)
    → RollsBack s.store.db r
    → Unharmed s (drain_reply s r)
unfolding drain_reply
drain_reply-Unharmed s (ok u, d) h f = cc
drain_reply-Unharmed s (err e, d) h f = (h refl, refl)

pub stats_reply-Unharmed :
    (uuid : ℕ) (s : Server) (r : Result (Unit {0}) × Db)
    → RollsBack s.store.db r
    → Unharmed s (stats_reply uuid s r)
unfolding stats_reply
stats_reply-Unharmed uuid s (ok u, d) h f = cc
stats_reply-Unharmed uuid s (err e, d) h f = (h refl, refl)

pub register_reply-Unharmed :
    (s : Server) (r : Result Shard × Db) → RollsBack s.store.db r → Unharmed s (register_reply s r)
unfolding register_reply
register_reply-Unharmed s (ok u, d) h f = cc
register_reply-Unharmed s (err e, d) h f = (h refl, refl)

pub tick_reply-Unharmed :
    (s : Server) (r : Result (Unit {0}) × Store)
    → RollsBackStore s.store.db r
    → Unharmed s (tick_reply s r)
unfolding tick_reply
tick_reply-Unharmed s (ok u, d) h f = cc
tick_reply-Unharmed s (err e, d) h f = (h refl, refl)

pub bootstrap_reply-Unharmed :
    (n : ℤ) (s : Server) (r : Result (Unit {0}) × Store)
    → RollsBackStore s.store.db r
    → Unharmed s (bootstrap_reply n s r)
unfolding bootstrap_reply
bootstrap_reply-Unharmed n s (ok u, d) h f = cc
bootstrap_reply-Unharmed n s (err e, d) h f = (h refl, refl)

pub evict_result-RollsBack : (r : Result (List Text)) (d : Db) → RollsBack d (evict_result r d)
unfolding evict_result
evict_result-RollsBack (err e) d h = refl
evict_result-RollsBack (ok bs) d h = cc

pub retain-RollsBack :
    (axis : Axis) (spec : Spec) (depth : Option ℤ) (clock : ℤ) (d : Db)
    → RollsBack d (retain axis spec depth clock d)
unfolding retain
retain-RollsBack Axis.time spec (some depth) clock d h = evict_result-RollsBack _ d h
retain-RollsBack Axis.time spec none clock d h = refl
retain-RollsBack Axis.numeric spec depth clock d h = refl
retain-RollsBack Axis.hash spec depth clock d h = refl
retain-RollsBack (Axis.other_axis a) spec depth clock d h = refl

module _ (P : Platform) where
  pub tick_with-RollsBack :
      (clock : ℤ) (r : Result ClusterConfig × Store) → RollsBackStore r.1.db (tick_with P clock r)
  unfolding tick_with retention_round
  tick_with-RollsBack clock (err x, st) h = refl
  tick_with-RollsBack clock (ok c, st) h =
      retain-RollsBack c.bucket_axis c.bucket_spec c.retention_depth clock st.db h

  pub retention_tick-RollsBack :
      (clock : ℤ) (st : Store) → RollsBackStore st.db (retention_tick P clock st)
  unfolding retention_tick get_config
  retention_tick-RollsBack clock st h =
      tick_with-RollsBack clock (get_config P st) h ∙ get_config_same P st.config_cache st

  insert_stored-RollsBack :
      (c : ClusterConfig) (stored : Option Text) (st : Store)
      → RollsBackStore st.db (insert_stored c stored st)
  unfolding insert_stored
  insert_stored-RollsBack c none st h = refl
  insert_stored-RollsBack c (some t) st h = absurd (cc h)

  pub insert_config-RollsBack :
      (c : ClusterConfig) (spec : Result Spec) (st : Store)
      → RollsBackStore st.db (insert_config P c spec st)
  unfolding insert_config
  insert_config-RollsBack c (err x) st h = refl
  insert_config-RollsBack c (ok spec) st h =
      insert_stored-RollsBack (record c { bucket_spec = spec }) (P.jsonb c.bucket_spec_raw) st h

  pub bootstrap_at-RollsBack :
      (row : Option ConfigRow) (c : ClusterConfig) (st : Store)
      → RollsBackStore st.db (bootstrap_at P row c st)
  unfolding bootstrap_at
  bootstrap_at-RollsBack (some row) c st h = refl
  bootstrap_at-RollsBack none c st h = insert_config-RollsBack c _ st h

  pub bootstrap-RollsBack :
      (c : ClusterConfig) (st : Store) → RollsBackStore st.db (bootstrap P c st)
  unfolding bootstrap
  bootstrap-RollsBack c st h = bootstrap_at-RollsBack st.db.config c st h
