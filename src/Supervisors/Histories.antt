-- ===== src/Supervisors/Histories.antt =====
-- A round of internal/retention as a history of the store's operations.
use shardman.Prelude.{refl, Option, none, some, List, [], ◌∷◌, Bool-cases, inl, inr}
use shardman.Prelude.Int.{ℤ}
use shardman.Prelude.Text.{Text}
use shardman.Prelude.Results.{Result, ok, err}
use shardman.Bucket.Spec.{Axis, time, numeric, hash, other_axis, Spec}
use shardman.Store.Db.{Db}
use shardman.Store.Queries.{has_active_in_bucket}
use shardman.Store.Config.{ClusterConfig}
use shardman.Store.Machine.{clean, apply}
use shardman.Store.History.{History, History-refl, History-apply, History-trans}
use shardman.Supervisors.Retention.{evict_bucket, evict_all, evict_result, retain, retention_round}

evict_bucket-History : (b : Text) (d : Db) → History d (evict_bucket b d)
unfolding evict_bucket apply
evict_bucket-History b d = elim (Bool-cases (has_active_in_bucket b d)) [
  | inl t ↦ rw t (History-refl d)
  | inr f ↦ rw f (History-apply (clean b) d refl)
]

evict_all-History : (bs : List Text) (d : Db) → History d (evict_all bs d)
unfolding evict_all
evict_all-History [] d = History-refl d
evict_all-History (b ∷ bs) d =
    History-trans (evict_bucket-History b d) (evict_all-History bs (evict_bucket b d))

evict_result-History : (r : Result (List Text)) (d : Db) → History d (evict_result r d).1
unfolding evict_result
evict_result-History (err e) d = History-refl d
evict_result-History (ok bs) d = evict_all-History bs d

retain-History :
    (axis : Axis) (spec : Spec) (depth : Option ℤ) (clock : ℤ) (d : Db)
    → History d (retain axis spec depth clock d).1
unfolding retain
retain-History time spec (some depth) clock d = evict_result-History _ d
retain-History time spec none clock d = History-refl d
retain-History numeric spec depth clock d = History-refl d
retain-History hash spec depth clock d = History-refl d
retain-History (other_axis a) spec depth clock d = History-refl d

pub retention_round-History :
    (c : ClusterConfig) (clock : ℤ) (d : Db) → History d (retention_round c clock d).1
unfolding retention_round
retention_round-History c clock d =
    retain-History c.bucket_axis c.bucket_spec c.retention_depth clock d
