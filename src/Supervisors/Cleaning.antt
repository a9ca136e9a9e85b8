-- ===== src/Supervisors/Cleaning.antt =====
-- What a round of internal/retention/retention.go does to the shards.
use shardman.Prelude.{
  ℕ, ◌≡◌, ◌==◌, refl, ◌∙◌, subst, true, inl, inr, Option, none, some, List, [], ◌∷◌, any, count,
  All, arith, if◌then◌else◌, Bool-cases,
}
use shardman.Prelude.Int.{ℤ}
use shardman.Prelude.Text.{Text, text_eq, text_eq_iff}
use shardman.Prelude.Results.{ok}
use shardman.Fsm.{data_role, sealed, state_eq}
use shardman.Bucket.Spec.{time}
use shardman.Bucket.Routing.{buckets_outside_retention}
use shardman.Store.Shard.{Shard, bucket_is, in_bucket}
use shardman.Store.Db.{Db, ◌>>◌, return, bump_topology_version, update_where}
use shardman.Store.Queries.{has_active_in_bucket, distinct_bucket_ids}
use shardman.Store.Rotate.{clean_row, bump_if_rows, mark_bucket_cleaning_tx, mark_bucket_cleaning}
use shardman.Store.Table.{Evolves, Evolves-map, Evolves-refl, Evolves-trans, All-intro, All-imp}
use shardman.Store.Moves.{NoRow}
use shardman.Store.Ensures.{Ensures, done, bind_update, then_return, commit-Ensures}
use shardman.Store.Config.{ClusterConfig}
use shardman.Supervisors.Retention.{evict_bucket, evict_all, evict_result, retain, retention_round}

-- A row is as it was, or it was a sealed data shard of one of the buckets and is being cleaned.
pub data Cleans (bs : List Text) (s t : Shard) : Type 0 where
  kept : t ≡ s → Cleans bs s t
  cleaned :
      (b : Text)
      → any (text_eq b) bs ≡ true
      → s.role ≡ data_role
      → s.state ≡ sealed
      → s.bucket_id ≡ some b
      → t ≡ clean_row s
      → Cleans bs s t

abbrev Cleaned : List Text → List Shard → List Shard → Type 0
Cleaned bs = Evolves (Cleans bs) NoRow

bucket_lem :
    (b : Text) (s : Shard) (bucket : Option Text)
    → s.bucket_id ≡ bucket
    → in_bucket b sealed s ≡ true
    → (s.role ≡ data_role) × (s.state ≡ sealed) × (s.bucket_id ≡ some b)
unfolding in_bucket bucket_is state_eq
bucket_lem b s none e h = ground arith
bucket_lem b s (some c) e h = ground (arith, text_eq_iff c b)

clean_row-Cleans :
    (bs : List Text) (b : Text) (s : Shard)
    → any (text_eq b) bs ≡ true
    → Cleans bs s (if in_bucket b sealed s then clean_row s else s)
clean_row-Cleans bs b s member = elim (Bool-cases (in_bucket b sealed s)) [
  | inl t ↦
      let was = bucket_lem b s s.bucket_id refl t in rw t (cleaned b member was.0 was.1 was.2 refl)
  | inr f ↦ rw f (kept refl)
]

Cleans-trans : (bs : List Text) (r s t : Shard) → Cleans bs r s → Cleans bs s t → Cleans bs r t
unfolding clean_row
Cleans-trans bs r s t (kept h) (kept k) = kept (k ∙ h)
Cleans-trans bs r s t (kept h) (cleaned b m role st bucket k) =
    subst (λ (x : Shard). Cleans bs x t) h (cleaned b m role st bucket k)
Cleans-trans bs r s t (cleaned b m role st bucket h) (kept k) = cleaned b m role st bucket (k ∙ h)
Cleans-trans bs r s t (cleaned b m role st bucket h) (cleaned b' m' role' st' bucket' k) = cc

Cleaned-trans :
    (bs : List Text) (xs ys zs : List Shard)
    → Cleaned bs xs ys
    → Cleaned bs ys zs
    → Cleaned bs xs zs
Cleaned-trans bs xs ys zs h k =
    Evolves-trans (Cleans bs) NoRow xs ys zs (Cleans-trans bs) (λ s t f n. n) h k

bump_if_rows-Cleaned :
    (bs : List Text) (n : ℕ) (d d' : Db)
    → Cleaned bs d.shards d'.shards
    → Ensures (λ u d₁. Cleaned bs d.shards d₁.shards) (bump_if_rows n d')
unfolding bump_if_rows bump_topology_version
bump_if_rows-Cleaned bs n d d' h = elim (Bool-cases (n == 0)) [
  | inl t ↦ rw t (done h)
  | inr f ↦ rw f (done h)
]

mark_bucket_cleaning-Cleaned :
    (bs : List Text) (b : Text) (d : Db)
    → any (text_eq b) bs ≡ true
    → Cleaned bs d.shards (mark_bucket_cleaning b d).1.shards
unfolding mark_bucket_cleaning mark_bucket_cleaning_tx update_where
mark_bucket_cleaning-Cleaned bs b d member =
    commit-Ensures (λ d'. Cleaned bs d.shards d'.shards) (mark_bucket_cleaning_tx b) d
      (bind_update (λ n d'. Cleaned bs d.shards d'.shards) (in_bucket b sealed) clean_row
        (λ n. bump_if_rows n >> return n) d
        λ _.
          then_return (λ d'. Cleaned bs d.shards d'.shards)
            (bump_if_rows (count (in_bucket b sealed) d.shards)) _ _
            (bump_if_rows-Cleaned bs (count (in_bucket b sealed) d.shards) d _ (
              Evolves-map (Cleans bs) NoRow (λ s. if in_bucket b sealed s then clean_row s else s)
                d.shards
                (All-intro (λ s. Cleans bs s (if in_bucket b sealed s then clean_row s else s))
                  d.shards (λ s. clean_row-Cleans bs b s member)))))
      (Evolves-refl (Cleans bs) NoRow d.shards (λ s. kept refl))

evict_bucket-Cleaned :
    (bs : List Text) (b : Text) (d : Db)
    → any (text_eq b) bs ≡ true
    → Cleaned bs d.shards (evict_bucket b d).shards
unfolding evict_bucket
evict_bucket-Cleaned bs b d member = elim (Bool-cases (has_active_in_bucket b d)) [
  | inl t ↦ rw t (Evolves-refl (Cleans bs) NoRow d.shards (λ s. kept refl))
  | inr f ↦ rw f (mark_bucket_cleaning-Cleaned bs b d member)
]

evict_all-Cleaned :
    (bs cs : List Text) (d : Db)
    → All (λ b. any (text_eq b) bs ≡ true) cs
    → Cleaned bs d.shards (evict_all cs d).shards
unfolding evict_all
evict_all-Cleaned bs [] d h = Evolves-refl (Cleans bs) NoRow d.shards (λ s. kept refl)
evict_all-Cleaned bs (c ∷ cs) d h =
    Cleaned-trans bs d.shards (evict_bucket c d).shards (evict_all cs (evict_bucket c d)).shards
      (evict_bucket-Cleaned bs c d h.0) (evict_all-Cleaned bs cs (evict_bucket c d) h.1)

weaken_member :
    (x : Text) (xs : List Text) (b : Text)
    → any (text_eq b) xs ≡ true
    → any (text_eq b) (x ∷ xs) ≡ true
unfolding any
weaken_member x xs b h = ground arith

members : (bs : List Text) → All (λ b. any (text_eq b) bs ≡ true) bs
unfolding any
members [] = tt
members (b ∷ bs) = (
  rw ((text_eq_iff b b).1 refl) refl,
  All-imp (λ x. any (text_eq x) bs ≡ true) (λ x. any (text_eq x) (b ∷ bs) ≡ true) bs
      (weaken_member b bs) (members bs),
)

-- On the time axis with a retention depth, where the current bucket has an id and an index, a round
-- of the retention supervisor succeeds, adds no shard, and leaves each shard as it was but for data
-- shards that were sealed, of a bucket that BucketsOutsideRetention names: these may be set to
-- cleaning.
pub retention_round-Cleans :
    (c : ClusterConfig) (clock : ℤ) (d : Db) {depth : ℤ} {bs : List Text}
    → c.bucket_axis ≡ time
    → c.retention_depth ≡ some depth
    → buckets_outside_retention c.bucket_spec clock depth (distinct_bucket_ids d) ≡ ok bs
    → ((retention_round c clock d).0 ≡ ok tt)
      × Evolves (Cleans bs) NoRow d.shards (retention_round c clock d).1.shards
unfolding retention_round retain evict_result
retention_round-Cleans c clock d {depth} {bs} axis e outside =
    rw (axis, e, outside) (refl, evict_all-Cleaned bs bs d (members bs))
