-- ===== src/Server/Reaches.antt =====
-- What the replies of the handlers may do to the store and to the broadcast.
use shardman.Prelude.{ℕ, ◌≡◌, refl, ◌⊎◌, inl, inr}
use shardman.Prelude.Int.{ℤ}
use shardman.Prelude.Text.{Text}
use shardman.Prelude.Results.{Result, ok, err}
use shardman.Bucket.Platform.{Platform}
use shardman.Store.Shard.{Shard}
use shardman.Store.Db.{Db}
use shardman.Store.Config.{Store}
use shardman.Resolve.Service.{WriteResult, ReadResult}
use shardman.Server.Access.{Code}
use shardman.Server.Consistency.{Keeps, Keeps-refl}
use shardman.Server.Requests.{Reply}
use shardman.Server.Replies.{
  Server, with_store, notify_all, write_reply, read_reply, seal_reply, done_reply, drain_reply,
  stats_reply, tick_reply, register_reply, bootstrap_reply,
}

module _ (P : Platform) where
  -- A call changes the store in a way that keeps what is true of it, and announces the version or not.
  pub record Reaches (s : Server) (r : Reply × Server) : Type 0 where
    pub store : Store
    pub keeps : Keeps P s.store store
    pub result : (r.1 ≡ with_store s store) ⊎ (r.1 ≡ notify_all (with_store s store))

  pub stays-Reaches : (s : Server) (reply : Reply) → Reaches s (reply, s)
  stays-Reaches s reply = record {
    store = s.store;
    keeps = Keeps-refl P s.store;
    result = inl refl;
  }

  pub write_reply-Reaches :
      (s : Server) (r : Result WriteResult × Store)
      → Keeps P s.store r.1
      → Reaches s (write_reply s r)
  unfolding write_reply
  write_reply-Reaches s (ok x, st) h = record { store = st; keeps = h; result = inl refl }
  write_reply-Reaches s (err e, st) h = record { store = st; keeps = h; result = inl refl }

  pub read_reply-Reaches :
      (s : Server) (r : Result ReadResult × Store)
      → Keeps P s.store r.1
      → Reaches s (read_reply s r)
  unfolding read_reply
  read_reply-Reaches s (ok x, st) h = record { store = st; keeps = h; result = inl refl }
  read_reply-Reaches s (err e, st) h = record { store = st; keeps = h; result = inl refl }

  pub tick_reply-Reaches :
      (s : Server) (r : Result (Unit {0}) × Store)
      → Keeps P s.store r.1
      → Reaches s (tick_reply s r)
  unfolding tick_reply
  tick_reply-Reaches s (ok x, st) h = record { store = st; keeps = h; result = inr refl }
  tick_reply-Reaches s (err e, st) h = record { store = st; keeps = h; result = inl refl }

  pub bootstrap_reply-Reaches :
      (n : ℤ) (s : Server) (r : Result (Unit {0}) × Store)
      → Keeps P s.store r.1
      → Reaches s (bootstrap_reply n s r)
  unfolding bootstrap_reply
  bootstrap_reply-Reaches n s (ok x, st) h = record { store = st; keeps = h; result = inr refl }
  bootstrap_reply-Reaches n s (err e, st) h = record { store = st; keeps = h; result = inl refl }

  abbrev pub KeepsDb : Server → Db → Type 0
  KeepsDb s d = Keeps P s.store (record s.store { db = d })

  pub register_reply-Reaches :
      (s : Server) (r : Result Shard × Db) → KeepsDb s r.1 → Reaches s (register_reply s r)
  unfolding register_reply
  register_reply-Reaches s (ok x, d) h = record {
    store = record s.store { db = d };
    keeps = h;
    result = inr refl;
  }
  register_reply-Reaches s (err e, d) h = record {
    store = record s.store { db = d };
    keeps = h;
    result = inl refl;
  }

  pub seal_reply-Reaches :
      (b : Text) (s : Server) (r : Result (Unit {0}) × Db)
      → KeepsDb s r.1
      → Reaches s (seal_reply b s r)
  unfolding seal_reply
  seal_reply-Reaches b s (ok x, d) h = record {
    store = record s.store { db = d };
    keeps = h;
    result = inr refl;
  }
  seal_reply-Reaches b s (err e, d) h = record {
    store = record s.store { db = d };
    keeps = h;
    result = inl refl;
  }

  pub done_reply-Reaches :
      (code : Code) (s : Server) (r : Result (Unit {0}) × Db)
      → KeepsDb s r.1
      → Reaches s (done_reply code s r)
  unfolding done_reply
  done_reply-Reaches code s (ok x, d) h = record {
    store = record s.store { db = d };
    keeps = h;
    result = inr refl;
  }
  done_reply-Reaches code s (err e, d) h = record {
    store = record s.store { db = d };
    keeps = h;
    result = inl refl;
  }

  pub stats_reply-Reaches :
      (uuid : ℕ) (s : Server) (r : Result (Unit {0}) × Db)
      → KeepsDb s r.1
      → Reaches s (stats_reply uuid s r)
  unfolding stats_reply
  stats_reply-Reaches uuid s (ok x, d) h = record {
    store = record s.store { db = d };
    keeps = h;
    result = inl refl;
  }
  stats_reply-Reaches uuid s (err e, d) h = record {
    store = record s.store { db = d };
    keeps = h;
    result = inl refl;
  }

  pub drain_reply-Reaches :
      (s : Server) (r : Result (Unit {0}) × Db) → KeepsDb s r.1 → Reaches s (drain_reply s r)
  unfolding drain_reply
  drain_reply-Reaches s (ok x, d) h = record {
    store = record s.store { db = d };
    keeps = h;
    result = inl refl;
  }
  drain_reply-Reaches s (err e, d) h = record {
    store = record s.store { db = d };
    keeps = h;
    result = inl refl;
  }
