-- ===== src/Resolve/Answers.antt =====
-- What ResolveWrite and ResolveRead of internal/resolve/resolve.go answer for a key of a bucket.
use shardman.Prelude.{
  ◌≡◌, ◌≢◌, refl, sym, ◌∙◌, subst, true, false, some, List, [], map, find, All, arith,
}
use shardman.Prelude.Int.{ℤ}
use shardman.Prelude.Text.{Text}
use shardman.Prelude.Results.{Result, ok, err}
use shardman.Fsm.{active, draining, state_eq}
use shardman.Bucket.Platform.{Platform}
use shardman.Bucket.Key.{ShardKey}
use shardman.Bucket.Routing.{to_bucket, no_reason, WriteRoute, classify_write}
use shardman.Store.Shard.{Shard, in_bucket}
use shardman.Store.Db.{Db}
use shardman.Store.Queries.{endpoint, is_active_for, is_readable}
use shardman.Store.Register.{is_available}
use shardman.Store.Rotation.{IsValid}
use shardman.Store.Promote.{Env}
use shardman.Store.Config.{ClusterConfig, Store, get_config}
use shardman.Resolve.Active.{ensure_active}
use shardman.Resolve.Success.{Serves, ensure_active-Serves}
use shardman.Resolve.Service.{
  WriteResult, ReadResult, write_result, with_result, write_to, routed, or_zero, resolve_write,
}
use shardman.Resolve.Histories.{get_config_same, configured-ok}

-- The answer to a write is an active shard of the bucket with a fresh heartbeat.
pub record AnswersWrite (env : Env) (b : Text) (r : Result WriteResult × Store) : Type 0 where
  pub answer : WriteResult
  pub shard : Shard
  pub result : r.0 ≡ ok answer
  pub serves : is_active_for env.now env.timeout b shard ≡ true
  pub routing : answer.routing ≡ to_bucket
  pub bucket : answer.bucket_id ≡ b
  pub reason : answer.reason ≡ no_reason
  pub shard_id : answer.shard_id ≡ shard.id
  pub uuid : answer.uuid ≡ shard.shard_uuid
  pub endpoint_of : answer.endpoint_of ≡ endpoint shard.advertise_url shard.dsn
  pub state : answer.state ≡ active

active_state :
    (env : Env) (b : Text) (s : Shard)
    → is_active_for env.now env.timeout b s ≡ true
    → s.state ≡ active
unfolding is_active_for in_bucket state_eq
active_state env b s h = ground arith

served :
    (env : Env) (b : Text) (r : Result Shard × Db) (st : Store)
    → Serves env b r
    → AnswersWrite env b (with_result (write_result to_bucket b no_reason) r st)
unfolding with_result write_result
served env b (err e, d) st h = absurd (cc h.result)
served env b (ok s, d) st h =
    let same : h.shard ≡ s = cc h.result in
    let fresh = subst (λ x. is_active_for env.now env.timeout b x ≡ true) same h.serves in
    record {
      answer = write_result to_bucket b no_reason s;
      shard = s;
      result = refl;
      serves = fresh;
      routing = refl;
      bucket = refl;
      reason = refl;
      shard_id = refl;
      uuid = refl;
      endpoint_of = refl;
      state = active_state env b s fresh;
    }

write_to-Answers :
    (env : Env) (route : WriteRoute) (st : Store)
    → route.kind ≡ to_bucket
    → Serves env route.bucket (ensure_active env route.bucket st.db)
    → AnswersWrite env route.bucket (write_to env route st)
unfolding write_to
write_to-Answers env route st e h =
    rw e (served env route.bucket (ensure_active env route.bucket st.db) st h)

-- The answer to a read is a list of shards of the bucket that may be read, one at least.
pub record AnswersShards (env : Env) (b : Text) (r : Result ReadResult × Store) : Type 0 where
  pub answer : ReadResult
  pub rows : List Shard
  pub result : r.0 ≡ ok answer
  pub routing : answer.routing ≡ to_bucket
  pub bucket : answer.bucket_id ≡ b
  pub reason : answer.reason ≡ no_reason
  pub some_row : rows ≢ []
  pub readable : All (λ s. is_readable env.now env.timeout b s ≡ true) rows
  pub shards :
      answer.shards
      ≡ map
          (λ (s : Shard). record {
            shard_id = s.id;
            uuid = s.shard_uuid;
            endpoint_of = endpoint s.advertise_url s.dsn;
            state = s.state;
          })
          rows

loaded-Serves :
    (P : Platform) (env : Env) (b : Text) (st : Store) {next : Shard}
    → IsValid st.db
    → find (is_available env.locked) st.db.shards ≡ some next
    → All (λ s. in_bucket b draining s ≡ false) st.db.shards
    → Serves env b (ensure_active env b (get_config P st).1.db)
unfolding get_config
loaded-Serves P env b st v free quiet =
    subst (λ d. Serves env b (ensure_active env b d)) (sym (get_config_same P st.config_cache st))
      (ensure_active-Serves env b st.db v free quiet)

module _ (P : Platform) (env : Env) (clock : ℤ) (key : ShardKey P) (st : Store) {c : ClusterConfig}
    {route : WriteRoute} {next : Shard} where
  -- GetConfig succeeds, and ClassifyWrite sends the key to a bucket, by the configured retention depth
  -- and limit ahead, zero where there is none; the ids of the database rise along the table and it meets
  -- its constraints; a standby is free that no other transaction holds, and no shard of the bucket is
  -- draining. Then ResolveWrite succeeds, and answers with that bucket and with the id, the uuid and the
  -- endpoint of a shard that is active in it with a fresh heartbeat.
  pub resolve_write-Answers :
      (get_config P st).0 ≡ ok c
      → classify_write P c.bucket_spec clock key
          (or_zero c.retention_depth)
          (or_zero c.max_future_buckets)
        ≡ ok route
      → route.kind ≡ to_bucket
      → IsValid st.db
      → find (is_available env.locked) st.db.shards ≡ some next
      → All (λ s. in_bucket route.bucket draining s ≡ false) st.db.shards
      → AnswersWrite env route.bucket (resolve_write P env clock key st)
  unfolding resolve_write routed
  resolve_write-Answers e routes kind v free quiet =
      let answers =
        write_to-Answers env route (get_config P st).1 kind
          (loaded-Serves P env route.bucket st v free quiet) in
      subst (AnswersWrite env route.bucket)
        (sym (configured-ok P _ (get_config P st).0 (get_config P st).1 e ∙ (rw routes refl)))
        answers
