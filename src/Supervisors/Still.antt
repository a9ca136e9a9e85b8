-- ===== src/Supervisors/Still.antt =====
-- What the drains of internal/store/store.go (BeginDrain, CompleteDrainSeal) leave of another bucket.
use shardman.Prelude.{
  ℕ, ◌≡◌, ◌==◌, refl, sym, ◌∙◌, subst, true, false, inl, inr, Option, none, some, List, All, arith,
  if◌then◌else◌, Bool-cases, ==_iff, Bool,
}
use shardman.Prelude.Text.{Text, codes, text_eq, text_eq_iff}
use shardman.Prelude.Results.{conflict, not_found}
use shardman.Fsm.{State, active, draining}
use shardman.Store.Shard.{Shard, bucket_is, in_bucket, in_standby_pool}
use shardman.Store.Db.{Db, update_where, bump_topology_version, insert_event}
use shardman.Store.Register.{is_available, promoted}
use shardman.Store.Rotate.{
  is_version_of, seal_drained_row, drain_row, succeed, begin_drain, begin_drain_tx,
  complete_drain_seal, complete_drain_seal_tx,
}
use shardman.Store.Table.{
  Evolves, Evolves-map, Evolves-refl, Evolves-trans, find-true, find_unique, All-imp, All-intro,
  Increasing, Increasing-map,
}
use shardman.Store.Moves.{NoRow, IdsOk}
use shardman.Store.Ensures.{
  Ensures, done, bind_select, bind_select?, bind_update, bind_update_require, commit-Ensures,
}

-- A row of the bucket stays as it is, and no row comes to it.
pub record Stays (b : Text) (s t : Shard) : Type 0 where
  pub kept : bucket_is s.bucket_id b ≡ true → t ≡ s
  pub not_new : bucket_is t.bucket_id b ≡ true → t ≡ s

abbrev pub Still : Text → List Shard → List Shard → Type 0
Still b = Evolves (Stays b) NoRow

Stays-trans : (b : Text) (r s t : Shard) → Stays b r s → Stays b s t → Stays b r t
Stays-trans b r s t h k = record {
  kept = λ m.
      let same = h.kept m in
      k.kept (subst (λ (x : Shard). bucket_is x.bucket_id b ≡ true) (sym same) m) ∙ same;
  not_new = λ m.
      let same = k.not_new m in
      same ∙ h.not_new (subst (λ (x : Shard). bucket_is x.bucket_id b ≡ true) same m);
}

pub Still-refl : (b : Text) (xs : List Shard) → Still b xs xs
Still-refl b xs =
    Evolves-refl (Stays b) NoRow xs (λ s. record { kept = λ m. refl; not_new = λ m. refl })

pub Still-trans : (b : Text) (xs ys zs : List Shard) → Still b xs ys → Still b ys zs → Still b xs zs
Still-trans b xs ys zs h k =
    Evolves-trans (Stays b) NoRow xs ys zs (Stays-trans b) (λ s t f n. n) h k

-- An update of rows outside the bucket, which stay outside.
abbrev Outside : Text → (Shard → Bool) → (Shard → Shard) → Shard → Type 0
Outside b p f s =
    p s ≡ true → (bucket_is s.bucket_id b ≡ false) × (bucket_is (f s).bucket_id b ≡ false)

updated-Stays :
    (b : Text) (p : Shard → Bool) (f : Shard → Shard) (s : Shard)
    → Outside b p f s
    → Stays b s (if p s then f s else s)
updated-Stays b p f s h = elim (Bool-cases (p s)) [
  | inl t ↦
      let (before, after) = h t in
      rw t (record {
        kept = λ m. absurd (cc (sym m ∙ before));
        not_new = λ m. absurd (cc (sym m ∙ after));
      })
  | inr n ↦ rw n (record { kept = λ m. refl; not_new = λ m. refl })
]

update_where-Still :
    (b : Text) (p : Shard → Bool) (f : Shard → Shard) (xs : List Shard)
    → All (Outside b p f) xs
    → Still b xs (update_where p f xs)
unfolding update_where
update_where-Still b p f xs h =
    Evolves-map (Stays b) NoRow (λ s. if p s then f s else s) xs
      (All-imp (Outside b p f) _ xs (updated-Stays b p f) h)

elsewhere :
    (b c : Text) (st : State) (s : Shard) (bucket : Option Text)
    → s.bucket_id ≡ bucket
    → text_eq c b ≡ false
    → in_bucket c st s ≡ true
    → bucket_is s.bucket_id b ≡ false
unfolding in_bucket bucket_is
elsewhere b c st s none e n m = rw e refl
elsewhere b c st s (some x) e n m =
    ground (arith, text_eq_iff x b, text_eq_iff x c, text_eq_iff c b)

pooled :
    (b : Text) (locked : ℕ → Bool) (s : Shard) (bucket : Option Text)
    → s.bucket_id ≡ bucket
    → is_available locked s ≡ true
    → bucket_is s.bucket_id b ≡ false
unfolding is_available in_standby_pool bucket_is
pooled b locked s none e m = rw e refl
pooled b locked s (some x) e m = absurd (ground arith)

module _ (b c : Text) (now : ℕ) (other : text_eq c b ≡ false) where
  drained-Outside :
      (old s : Shard)
      → in_bucket c draining old ≡ true
      → (s.id ≡ old.id → s ≡ old)
      → Outside b (is_version_of old) (seal_drained_row now) s
  unfolding is_version_of seal_drained_row
  drained-Outside old s was only chosen =
      let same = only ((==_iff s.id old.id).0 (ground arith)) in
      let out =
        subst (λ (x : Shard). bucket_is x.bucket_id b ≡ false) (sym same)
          (elsewhere b c draining old old.bucket_id refl other was) in
      (out, out)

  promoted-Outside :
      (locked : ℕ → Bool) (next s : Shard)
      → is_available locked next ≡ true
      → (s.id ≡ next.id → s ≡ next)
      → Outside b (λ t. t.id == next.id) (promoted c now) s
  unfolding promoted bucket_is
  promoted-Outside locked next s free only chosen =
      let same = only ((==_iff s.id next.id).0 chosen) in
      (
        subst (λ (x : Shard). bucket_is x.bucket_id b ≡ false) (sym same)
            (pooled b locked next next.bucket_id refl free),
        other,
      )

  abbrev Leaves : {A : Type 0} → Db → A → Db → Type 0
  Leaves d u d' = Still b d.shards d'.shards

  succeed-Still :
      (locked : ℕ → Bool) (event : Text) (old : Shard) (d d₁ : Db)
      → Increasing 0 d₁.shards
      → Still b d.shards d₁.shards
      → Ensures (Leaves d) (succeed locked c now event old d₁)
  unfolding succeed bump_topology_version insert_event
  succeed-Still locked event old d d₁ rising h =
      bind_select? (Leaves d) (is_available locked) _ d₁ (λ none_free. done h)
        (λ next free.
          bind_update (Leaves d) (λ t. t.id == next.id) (promoted c now) _ d₁
            (λ fits. done (
              Still-trans b d.shards d₁.shards _ h (
                update_where-Still b (λ t. t.id == next.id) (promoted c now) d₁.shards
                  (All-imp (λ s. s.id ≡ next.id → s ≡ next) _ d₁.shards
                    (λ s only.
                      promoted-Outside locked next s
                        (find-true (is_available locked) d₁.shards free) only)
                    (find_unique (is_available locked) 0 d₁.shards rising free))))))

  pub complete_drain_seal-Still :
      (locked : ℕ → Bool) (d : Db)
      → IdsOk d
      → Still b d.shards (complete_drain_seal locked c now d).1.shards
  unfolding complete_drain_seal complete_drain_seal_tx seal_drained_row update_where
  complete_drain_seal-Still locked d v =
      commit-Ensures (λ d'. Still b d.shards d'.shards) (complete_drain_seal_tx locked c now) d
        (bind_select (Leaves d) (in_bucket c draining) _ d (λ old found.
          bind_update_require (Leaves d) (is_version_of old) (seal_drained_row now) conflict
            (succeed locked c now (codes "drain_seal") old) d
            (λ fits.
              succeed-Still locked (codes "drain_seal") old d _
                (Increasing-map (λ s. if is_version_of old s then seal_drained_row now s else s) 0
                  d.shards (λ s. ground arith) v.rising)
                (update_where-Still b (is_version_of old) (seal_drained_row now) d.shards (
                  All-imp (λ s. s.id ≡ old.id → s ≡ old) _ d.shards
                    (λ s only.
                      drained-Outside old s (find-true (in_bucket c draining) d.shards found) only)
                    (find_unique (in_bucket c draining) 0 d.shards v.rising found))))))
        (Still-refl b d.shards)

  pub begin_drain-Still : (d : Db) → Still b d.shards (begin_drain c now d).1.shards
  unfolding begin_drain begin_drain_tx bump_topology_version drain_row
  begin_drain-Still d =
      commit-Ensures (λ d'. Still b d.shards d'.shards) (begin_drain_tx c now) d
        (bind_update_require (Leaves d) (in_bucket c active) (drain_row now) not_found
          bump_topology_version d
          (λ fits. done (
            update_where-Still b (in_bucket c active) (drain_row now) d.shards (
              All-intro _ d.shards (λ s chosen.
                let out = elsewhere b c active s s.bucket_id refl other chosen in (out, out))))))
        (Still-refl b d.shards)
