-- ===== src/Server/Announcements.antt =====
-- The calls of the server one after another, and what they announce to the subscribers.
use shardman.Prelude.{
  ℕ, ◌≤◌, Option, none, some, List, [], ◌∷◌, ◌≡◌, refl, sym, inl, inr, subst, arith,
}
use shardman.Prelude.Text.{Text}
use shardman.Bucket.Platform.{Platform}
use shardman.Store.Db.{ConfigRow}
use shardman.Store.Queries.{get_topology_version, version_or_error}
use shardman.Store.Lifecycle.{IsSound}
use shardman.Store.Config.{Store}
use shardman.Store.Described.{IsCoherent}
use shardman.Broadcast.{Broadcast, notify}
use shardman.Server.Watch.{notify_topology, announce}
use shardman.Server.Outcomes.{serve-Reaches}
use shardman.Server.Reaches.{Reaches}
use shardman.Server.Consistency.{version_of}
use shardman.Server.Requests.{Request, Reply}
use shardman.Server.Replies.{Server, Call, with_store, notify_with, notify_all}
use shardman.Server.Handlers.{serve}

-- The announced version is not ahead of the database.
abbrev pub Announced : Option Broadcast → ℕ → Type 0
Announced none version = Unit {0}
Announced (some b) version = b.version ≤ version

announce-Announced :
    (row : Option ConfigRow) (b : Broadcast)
    → b.version ≤ version_of row
    → (announce (version_or_error row) b).version ≤ version_of row
unfolding announce notify version_or_error
announce-Announced none b h = h
announce-Announced (some c) b h = omega arith

Announced-le : (o : Option Broadcast) (m n : ℕ) → m ≤ n → Announced o m → Announced o n
Announced-le none m n le h = tt
Announced-le (some b) m n le h = omega arith

notify_with-Announced :
    (o : Option Broadcast) (s : Server)
    → Announced o (version_of s.store.db.config)
    → s.broadcast ≡ o
    → Announced (notify_with o s).broadcast (version_of s.store.db.config)
unfolding notify_with notify_topology get_topology_version
notify_with-Announced none s h e = rw e tt
notify_with-Announced (some b) s h e = announce-Announced s.store.db.config b h

pub notify_with-store : (o : Option Broadcast) (s : Server) → (notify_with o s).store ≡ s.store
unfolding notify_with
notify_with-store none s = refl
notify_with-store (some b) s = refl

-- What the server keeps true: of the shards, of the cached configuration, of what it announced.
pub record IsConsistent (P : Platform) (s : Server) : Type 0 where
  pub sound : IsSound s.store.db
  pub coherent : IsCoherent P s.store
  pub announced : Announced s.broadcast (version_of s.store.db.config)

module _ (P : Platform) where
  notify_with-IsConsistent :
      (o : Option Broadcast) (s : Server)
      → s.broadcast ≡ o
      → IsConsistent P s
      → IsConsistent P (notify_with o s)
  notify_with-IsConsistent o s e v =
      let same = sym (notify_with-store o s) in
      record {
        sound = subst (λ (st : Store). IsSound st.db) same v.sound;
        coherent = subst (IsCoherent P) same v.coherent;
        announced =
            subst (λ (st : Store). Announced (notify_with o s).broadcast (version_of st.db.config))
              same
              (notify_with-Announced o s
                (subst (λ b. Announced b (version_of s.store.db.config)) e v.announced) e);
      }

  Reaches-IsConsistent :
      (s : Server) (r : Reply × Server) → Reaches P s r → IsConsistent P s → IsConsistent P r.1
  unfolding notify_all
  Reaches-IsConsistent s r h v =
      let (sound, coherent, rises) = h.keeps v.sound v.coherent in
      let next : IsConsistent P (with_store s h.store) = record {
        sound = sound;
        coherent = coherent;
        announced =
            Announced-le s.broadcast (version_of s.store.db.config) (version_of h.store.db.config)
              rises v.announced;
      } in
      elim h.result [
        | inl e ↦ subst (IsConsistent P) (sym e) next
        | inr e ↦
            subst (IsConsistent P) (sym e)
              (notify_with-IsConsistent s.broadcast (with_store s h.store) refl next)
      ]

  module _ (parse_uuid : Text → Option ℕ) where
    -- The server after a sequence of calls.
    unfoldable pub serve_all : List (Call × Request P) → Server → Server
    serve_all [] s = s
    serve_all ((call, r) ∷ rest) s = serve_all rest (serve P parse_uuid call r s).1

    -- Over any sequence of calls of the four services, with or without the key, successful or not: if
    -- at the start the ids rise along the table and every error shard is active without a bucket, the
    -- cached configuration, if there is one, describes the database, and the version announced last is
    -- not ahead of the database's, then so at the end. A configuration describes the database if its
    -- mode, axis, limit and depths are those of the row, its specification is what its own text parses
    -- to, and the row has that text or what a JSONB gives back of it.
    pub serve_all-IsConsistent :
        (calls : List (Call × Request P)) (s : Server)
        → IsConsistent P s
        → IsConsistent P (serve_all calls s)
    unfolding serve_all
    serve_all-IsConsistent [] s v = v
    serve_all-IsConsistent ((call, r) ∷ rest) s v =
        serve_all-IsConsistent rest (serve P parse_uuid call r s).1 (
          Reaches-IsConsistent s (serve P parse_uuid call r s) (serve-Reaches P parse_uuid call r s)
            v)
