-- ===== src/Supervisors/Sparing.antt =====
-- The buckets that a round of internal/retention/retention.go passes over.
use shardman.Prelude.{
  ℕ, ◌≡◌, ◌<◌, ◌==◌, refl, sym, ◌∙◌, subst, true, false, inl, inr, Option, none, some, List, [],
  ◌∷◌, count, any, arith, ◌||◌, if◌then◌else◌, Bool-cases,
}
use shardman.Prelude.Int.{ℤ}
use shardman.Prelude.Text.{Text, text_eq, text_eq_iff}
use shardman.Prelude.Results.{Result, ok, err}
use shardman.Fsm.{active, draining, sealed}
use shardman.Bucket.Spec.{Axis, time, numeric, hash, other_axis, Spec}
use shardman.Store.Shard.{Shard, bucket_is, in_bucket}
use shardman.Store.Db.{Db, ◌>>◌, return, bump_topology_version, update_where}
use shardman.Store.Queries.{has_active_in_bucket, is_busy}
use shardman.Store.Rotate.{clean_row, bump_if_rows, mark_bucket_cleaning_tx, mark_bucket_cleaning}
use shardman.Store.Table.{Evolves, Evolves-map, Evolves-refl, Evolves-trans, All-intro}
use shardman.Store.Moves.{NoRow}
use shardman.Store.Ensures.{Ensures, done, bind_update, then_return, commit-Ensures}
use shardman.Store.Config.{ClusterConfig}
use shardman.Supervisors.Retention.{evict_bucket, evict_all, evict_result, retain, retention_round}

-- A row of the bucket stays as it is.
abbrev pub Spares : Text → Shard → Shard → Type 0
Spares b s t = bucket_is s.bucket_id b ≡ true → t ≡ s

abbrev pub Spared : Text → List Shard → List Shard → Type 0
Spared b = Evolves (Spares b) NoRow

Spares-trans : (b : Text) (r s t : Shard) → Spares b r s → Spares b s t → Spares b r t
Spares-trans b r s t h k m =
    let same = h m in k (subst (λ (x : Shard). bucket_is x.bucket_id b ≡ true) (sym same) m) ∙ same

pub Spared-refl : (b : Text) (xs : List Shard) → Spared b xs xs
Spared-refl b xs = Evolves-refl (Spares b) NoRow xs (λ s m. refl)

pub Spared-trans :
    (b : Text) (xs ys zs : List Shard) → Spared b xs ys → Spared b ys zs → Spared b xs zs
Spared-trans b xs ys zs h k =
    Evolves-trans (Spares b) NoRow xs ys zs (Spares-trans b) (λ s t f n. n) h k

-- A bucket that is spared stays busy.
busy_row : (b : Text) (s t : Shard) → Spares b s t → is_busy b s ≡ true → is_busy b t ≡ true
unfolding is_busy
busy_row b s t h busy =
    let same : t ≡ s = h (ground arith) in subst (λ (x : Shard). is_busy b x ≡ true) (sym same) busy

busy_rows :
    (b : Text) (xs ys : List Shard)
    → Spared b xs ys
    → 0 < count (is_busy b) xs
    → 0 < count (is_busy b) ys
unfolding count
busy_rows b [] ys h k = omega arith
busy_rows b (x ∷ xs) [] h k = absurd h
busy_rows b (x ∷ xs) (y ∷ ys) h k = elim (Bool-cases (is_busy b x)) [
  | inl t ↦ rw (busy_row b x y h.0 t) (omega arith)
  | inr f ↦
      let rest = busy_rows b xs ys h.1 (rw f at k) in
      elim (Bool-cases (is_busy b y)) [ inl u ↦ rw u (omega arith) | inr n ↦ rw n rest ]
]

busy_bucket :
    (b : Text) (d d' : Db)
    → Spared b d.shards d'.shards
    → has_active_in_bucket b d ≡ true
    → has_active_in_bucket b d' ≡ true
unfolding has_active_in_bucket
busy_bucket b d d' h k =
    let before : 0 < count (is_busy b) d.shards = ground arith in
    let after = busy_rows b d.shards d'.shards h before in ground arith

-- Cleaning another bucket.
clean_row-Spares :
    (b c : Text) (s : Shard) (bucket : Option Text)
    → s.bucket_id ≡ bucket
    → text_eq c b ≡ false
    → Spares b s (if in_bucket c sealed s then clean_row s else s)
unfolding in_bucket bucket_is
clean_row-Spares b c s none e n m = absurd (cc (rw e at m))
clean_row-Spares b c s (some x) e n m = elim (Bool-cases (in_bucket c sealed s)) [
  | inl t ↦ absurd (ground (arith, text_eq_iff x b, text_eq_iff x c, text_eq_iff c b))
  | inr f ↦ rw f refl
]

bump_if_rows-Spared :
    (b : Text) (n : ℕ) (d d' : Db)
    → Spared b d.shards d'.shards
    → Ensures (λ u d₁. Spared b d.shards d₁.shards) (bump_if_rows n d')
unfolding bump_if_rows bump_topology_version
bump_if_rows-Spared b n d d' h = elim (Bool-cases (n == 0)) [
  | inl t ↦ rw t (done h)
  | inr f ↦ rw f (done h)
]

mark_bucket_cleaning-Spared :
    (b c : Text) (d : Db)
    → text_eq c b ≡ false
    → Spared b d.shards (mark_bucket_cleaning c d).1.shards
unfolding mark_bucket_cleaning mark_bucket_cleaning_tx update_where
mark_bucket_cleaning-Spared b c d other =
    let after = λ (s : Shard). if in_bucket c sealed s then clean_row s else s in
    commit-Ensures (λ d'. Spared b d.shards d'.shards) (mark_bucket_cleaning_tx c) d
      (bind_update (λ n d'. Spared b d.shards d'.shards) (in_bucket c sealed) clean_row
        (λ n. bump_if_rows n >> return n) d
        λ _.
          then_return (λ d'. Spared b d.shards d'.shards)
            (bump_if_rows (count (in_bucket c sealed) d.shards)) _ _
            (bump_if_rows-Spared b (count (in_bucket c sealed) d.shards) d _ (
              Evolves-map (Spares b) NoRow after d.shards (
                All-intro (λ s. Spares b s (after s)) d.shards
                  (λ s. clean_row-Spares b c s s.bucket_id refl other)))))
      (Spared-refl b d.shards)

evict_bucket-Spared :
    (b c : Text) (d : Db)
    → has_active_in_bucket b d ≡ true
    → Spared b d.shards (evict_bucket c d).shards
unfolding evict_bucket
evict_bucket-Spared b c d busy = elim (Bool-cases (text_eq c b)) [
  | inl t ↦
      let same : has_active_in_bucket c d ≡ true =
        subst (λ x. has_active_in_bucket x d ≡ true) (sym ((text_eq_iff c b).0 t)) busy in
      rw same (Spared-refl b d.shards)
  | inr f ↦ elim (Bool-cases (has_active_in_bucket c d)) [
    | inl t ↦ rw t (Spared-refl b d.shards)
    | inr n ↦ rw n (mark_bucket_cleaning-Spared b c d f)
  ]
]

evict_all-Spared :
    (b : Text) (cs : List Text) (d : Db)
    → has_active_in_bucket b d ≡ true
    → Spared b d.shards (evict_all cs d).shards
unfolding evict_all
evict_all-Spared b [] d busy = Spared-refl b d.shards
evict_all-Spared b (c ∷ cs) d busy =
    let first = evict_bucket-Spared b c d busy in
    Spared-trans b d.shards (evict_bucket c d).shards (evict_all cs (evict_bucket c d)).shards first
      (evict_all-Spared b cs (evict_bucket c d) (busy_bucket b d (evict_bucket c d) first busy))

evict_result-Spared :
    (b : Text) (r : Result (List Text)) (d : Db)
    → has_active_in_bucket b d ≡ true
    → Spared b d.shards (evict_result r d).1.shards
unfolding evict_result
evict_result-Spared b (err e) d busy = Spared-refl b d.shards
evict_result-Spared b (ok bs) d busy = evict_all-Spared b bs d busy

retain-Spared :
    (b : Text) (axis : Axis) (spec : Spec) (depth : Option ℤ) (clock : ℤ) (d : Db)
    → has_active_in_bucket b d ≡ true
    → Spared b d.shards (retain axis spec depth clock d).1.shards
unfolding retain
retain-Spared b time spec (some depth) clock d busy = evict_result-Spared b _ d busy
retain-Spared b time spec none clock d busy = Spared-refl b d.shards
retain-Spared b numeric spec depth clock d busy = Spared-refl b d.shards
retain-Spared b hash spec depth clock d busy = Spared-refl b d.shards
retain-Spared b (other_axis a) spec depth clock d busy = Spared-refl b d.shards

busy_any :
    (b : Text) (xs : List Shard)
    → any (λ s. in_bucket b active s || in_bucket b draining s) xs ≡ true
    → 0 < count (is_busy b) xs
unfolding any count is_busy in_bucket
busy_any b [] h = absurd (cc h)
busy_any b (x ∷ xs) h = elim (Bool-cases (is_busy b x)) [
  | inl t ↦ rw t (omega arith)
  | inr f ↦
      let rest : any (λ s. in_bucket b active s || in_bucket b draining s) xs ≡ true =
        ground arith in
      let more = busy_any b xs rest in rw f more
]

-- Whatever the configuration and the clock: a bucket that has an active or a draining data shard when
-- a round of the retention supervisor starts is passed over, however old it is. Each of its shards, the
-- sealed ones too, is after the round as it was, and no shard was added to the table.
pub retention_round-Spares :
    (c : ClusterConfig) (clock : ℤ) (b : Text) (d : Db)
    → any (λ s. in_bucket b active s || in_bucket b draining s) d.shards ≡ true
    → Evolves (Spares b) NoRow d.shards (retention_round c clock d).1.shards
unfolding retention_round has_active_in_bucket
retention_round-Spares c clock b d h =
    let some_busy = busy_any b d.shards h in
    retain-Spared b c.bucket_axis c.bucket_spec c.retention_depth clock d (ground arith)
