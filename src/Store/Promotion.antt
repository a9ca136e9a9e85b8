-- ===== src/Store/Promotion.antt =====
-- What PromoteStandbyToActive of internal/store/store.go returns for a bucket without an active shard.
use shardman.Prelude.{
  ℕ, ◌≡◌, ◌==◌, refl, ap, ◌∙◌, Bool, true, false, none, some, List, [], ◌∷◌, find, All, arith,
  Bool-cases, inl, inr,
}
use shardman.Prelude.Text.{Text}
use shardman.Prelude.Results.{ok}
use shardman.Fsm.{active}
use shardman.Store.Shard.{Shard, in_bucket}
use shardman.Store.Db.{
  Db, update, update_where, select_row, constraints_ok, bump_topology_version, bump_config,
}
use shardman.Store.Queries.{get_shard_by_id, or_not_found}
use shardman.Store.Register.{
  is_available, promoted, promote_tx, promote_standby_to_active, read_back,
}
use shardman.Store.Table.{find_unique}
use shardman.Store.Constraints.{promote-constraints}
use shardman.Store.Outcome.{>>=-ok, commit-ok, select_row-some, update-ok, find-update, find-id}
use shardman.Store.Rotation.{IsValid, after_promote}

pub none-All : (p : Shard → Bool) (xs : List Shard) → find p xs ≡ none → All (λ s. p s ≡ false) xs
unfolding find
none-All p [] e = tt
none-All p (x ∷ xs) e = elim (Bool-cases (p x)) [
  | inl t ↦ absurd (ground arith)
  | inr n ↦ (n, none-All p xs (rw n at e))
]

module _ (locked : ℕ → Bool) (b : Text) (now : ℕ) (d : Db) (v : IsValid d) {next : Shard}
    (vacant : find (in_bucket b active) d.shards ≡ none)
    (free : find (is_available locked) d.shards ≡ some next) where
  abbrev promoted_db : Db
  promoted_db = record d {
    shards = after_promote b now next d.shards;
    config = bump_config d.config;
  }

  promotion_fits : constraints_ok (after_promote b now next d.shards) ≡ true
  unfolding update_where
  promotion_fits =
      promote-constraints b now next.id 0 d.shards v.ids.rising
        (none-All (in_bucket b active) d.shards vacant) v.constraints

  promoted-find :
      find (λ s. s.id == next.id) (after_promote b now next d.shards) ≡ some (promoted b now next)
  unfolding promoted
  promoted-find =
      find-update (λ s. s.id == next.id) (λ s. s.id == next.id) (promoted b now) d.shards
        (λ s. refl)
        (find-id (is_available locked) d.shards free
          (find_unique (is_available locked) 0 d.shards v.ids.rising free))
        (ground arith)

  -- The first free standby takes the bucket.
  pub promote_standby_to_active_succeeds :
      promote_standby_to_active locked b now d ≡ (ok (promoted b now next), promoted_db)
  unfolding promote_standby_to_active promote_tx bump_topology_version read_back get_shard_by_id
      or_not_found
  promote_standby_to_active_succeeds =
      let committed = commit-ok (promote_tx locked b now) d (
        >>=-ok (select_row (is_available locked)) _ d (select_row-some (is_available locked) d free)
        ∙ >>=-ok (update (λ t. t.id == next.id) (promoted b now)) _ d
            (update-ok (λ t. t.id == next.id) (promoted b now) d promotion_fits)) in
      ap read_back committed ∙ rw promoted-find refl
