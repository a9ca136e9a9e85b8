-- ===== src/Store/Changes/Rows.antt =====
-- A change of the database from what happens to each row.
use shardman.Prelude.{
  ℕ, ◌≤◌, ◌<◌, ◌≡◌, ◌==◌, refl, Bool, false, List, map, All, if◌then◌else◌, inl, inr, arith, count,
  Bool-cases,
}
use shardman.Store.Shard.{Shard}
use shardman.Store.Db.{Db, Event, bump_config, bump_topology_version, update_where}
use shardman.Store.Rotate.{bump_if_rows}
use shardman.Store.Ensures.{Ensures, done}
use shardman.Store.Table.{
  map-All, All-imp, Increasing-map, count-zero, Evolves-map, Evolves-map-map,
}
use shardman.Store.Moves.{IdsOk, Change, RowStep, SameRoute, NewRow, NoRow, keeps, SameRoute-refl}

map-IdsOk :
    (d : Db) (g : Shard → Shard) (n : ℕ)
    → ((s : Shard) → (g s).id ≡ s.id)
    → All (λ s. s.id < n) d.shards
    → All (λ s. s.id < n) (map g d.shards)
map-IdsOk d g n h below =
    map-All (λ s. s.id < n) g d.shards
      (All-imp (λ s. s.id < n) (λ s. (g s).id < n) d.shards (λ s k. omega (arith, h s)) below)

module _ (admin : Bool) (d : Db) (v : IdsOk d) (g : Shard → Shard)
    (same : (s : Shard) → (g s).id ≡ s.id) where
  -- Rows that move, with the version bumped.
  pub Change-map :
      (events : List Event)
      → All (λ s. RowStep admin s (g s)) d.shards
      → Change admin d
          (record d { shards = map g d.shards; config = bump_config d.config; events = events })
  Change-map events rows = record {
    rows = Evolves-map (RowStep admin) NewRow g d.shards rows;
    version = inr refl;
    ids = record {
      rising = Increasing-map g 0 d.shards same v.rising;
      below = map-IdsOk d g d.next_id same v.below;
    };
  }

  -- Rows that keep their routes.
  pub Change-kept :
      All (λ s. SameRoute s (g s)) d.shards → Change admin d (record d { shards = map g d.shards })
  Change-kept rows = record {
    rows = Evolves-map (RowStep admin) NewRow g d.shards (
        All-imp (λ s. SameRoute s (g s)) (λ s. RowStep admin s (g s)) d.shards (λ s r. keeps r)
          rows);
    version = inl (Evolves-map SameRoute NoRow g d.shards rows, refl);
    ids = record {
      rising = Increasing-map g 0 d.shards same v.rising;
      below = map-IdsOk d g d.next_id same v.below;
    };
  }

pub Change-map-map :
    (admin : Bool) (d : Db) (v : IdsOk d) (g h : Shard → Shard) (events : List Event)
    → ((s : Shard) → (g s).id ≡ s.id)
    → ((s : Shard) → (h s).id ≡ s.id)
    → All (λ s. RowStep admin s (h (g s))) d.shards
    → Change admin d (record d {
      shards = map h (map g d.shards);
      config = bump_config d.config;
      events = events;
    })
Change-map-map admin d v g h events sg sh rows = record {
  rows = Evolves-map-map (RowStep admin) NewRow g h d.shards rows;
  version = inr refl;
  ids = record {
    rising = Increasing-map h 0 (map g d.shards) sh (Increasing-map g 0 d.shards sg v.rising);
    below =
        map-All (λ s. s.id < d.next_id) h (map g d.shards)
          (All-imp (λ s. s.id < d.next_id) (λ s. (h s).id < d.next_id) (map g d.shards)
            (λ s k. omega (arith, sh s)) (map-IdsOk d g d.next_id sg v.below));
  };
}

-- The sequence may move on.
pub Change-next_id :
    (admin : Bool) (d d' : Db) (n : ℕ)
    → Change admin d d'
    → d'.next_id ≤ n
    → Change admin d (record d' { next_id = n })
Change-next_id admin d d' n c h = record {
  rows = c.rows;
  version = c.version;
  ids = record {
    rising = c.ids.rising;
    below =
        All-imp (λ s. s.id < d'.next_id) (λ s. s.id < n) d'.shards (λ s k. omega arith) c.ids.below;
  };
}

-- A guarded rewrite whose version is bumped only if it hit a row.
pub Change-bump :
    (admin : Bool) (d : Db) (v : IdsOk d) (p : Shard → Bool) (f : Shard → Shard)
    → ((s : Shard) → (f s).id ≡ s.id)
    → All (λ s. RowStep admin s (if p s then f s else s)) d.shards
    → Ensures
        (λ u d'. Change admin d d')
        (bump_if_rows (count p d.shards) (record d { shards = update_where p f d.shards }))
unfolding bump_if_rows bump_topology_version update_where
Change-bump admin d v p f same rows = elim (Bool-cases (count p d.shards == 0)) [
  | inl none_hit ↦ rw none_hit (
      done (
        Change-kept admin d v (λ s. if p s then f s else s) (λ s. ground (arith, same s))
          (All-imp (λ s. p s ≡ false) (λ s. SameRoute s (if p s then f s else s)) d.shards
            (λ s miss. rw miss (SameRoute-refl s)) (count-zero p d.shards (ground arith)))))
  | inr hit ↦ rw hit (
      done (
        Change-map admin d v (λ s. if p s then f s else s) (λ s. ground (arith, same s)) d.events
          rows))
]
