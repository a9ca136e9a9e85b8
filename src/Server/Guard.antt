-- ===== src/Server/Guard.antt =====
-- Which calls need the cluster key, and what becomes of one without it.
use shardman.Prelude.{
  ℕ, Bool, true, false, Option, none, some, List, [], ◌∷◌, ◌≡◌, ◌≢◌, refl, ap, sym, ◌⊎◌, inl, inr,
  Bool-cases, Option-cases, subst,
}
use shardman.Prelude.Text.{Text, text_eq, text_eq_iff}
use shardman.Bucket.Platform.{Platform}
use shardman.Server.Access.{
  Code, unavailable, unauthenticated, check_key, check_values, require_key,
}
use shardman.Server.Requests.{
  Request, write, read, list_bucket_shards, get, bootstrap_cluster, list_all, register_one,
  seal_one, patch_one, retention_round, report_stats, report_cleaned, report_drain_complete, Reply,
  failed,
}
use shardman.Server.Replies.{Server, Call, guarded}
use shardman.Server.Handlers.{serve}

-- The methods of the admin service and of the internal service.
abbrev pub needs_key : {P : Platform} → Request P → Bool
needs_key (write key) = false
needs_key (read key) = false
needs_key (list_bucket_shards b) = false
needs_key get = false
needs_key _ = true

-- The server has a key, and the call brings it first.
pub record IsAuthorized (s : Server) (call : Call) : Type 0 where
  pub has_key : s.cluster_key ≢ []
  pub others : List Text
  pub brings : call.metadata ≡ some (s.cluster_key ∷ others)

abbrev pub IsRefusal : Code → Type 0
IsRefusal code = (code ≡ unavailable) ⊎ (code ≡ unauthenticated)

-- How a check of the key ends.
abbrev Checked : Text → Option (List Text) → Option Code → Type 0
Checked key metadata none = (key ≢ []) × (vs : List Text) × (metadata ≡ some (key ∷ vs))
Checked key metadata (some code) = IsRefusal code

check_values-Checked :
    (c : ℕ) (key : Text) (values : List Text)
    → Checked (c ∷ key) (some values) (check_values (c ∷ key) values)
unfolding check_values check_key
check_values-Checked c key [] = inr refl
check_values-Checked c key (v ∷ values) = elim (Bool-cases (text_eq (c ∷ key) v)) [
  | inl t ↦
      let same : c ∷ key ≡ v = (text_eq_iff (c ∷ key) v).0 t in
      rw t ((λ e. cc), values, ap (λ (u : Text). some (u ∷ values)) (sym same))
  | inr f ↦ rw f (inr refl)
]

require_key-Checked :
    (key : Text) (metadata : Option (List Text)) → Checked key metadata (require_key key metadata)
unfolding require_key
require_key-Checked [] metadata = inl refl
require_key-Checked (c ∷ key) none = inr refl
require_key-Checked (c ∷ key) (some values) = check_values-Checked c key values

-- To prove of a guarded call what holds of every refusal, and of the handler's own result.
pub guarded-cases :
    (Q : Reply × Server → Type 0) (call : Call) (s : Server) (next : Reply × Server)
    → ((code : Code) → IsRefusal code → Q (failed code, s))
    → (IsAuthorized s call → Q next)
    → Q (guarded call s next)
guarded-cases Q call s next refuse accept =
    let checked = require_key-Checked s.cluster_key call.metadata in
    elim (Option-cases (require_key s.cluster_key call.metadata)) [
      | inl e ↦
          let (ne, vs, brought) = subst (Checked s.cluster_key call.metadata) e checked in
          rw (guarded, e) (accept (record { has_key = ne; others = vs; brings = brought }))
      | inr (code, e) ↦
          rw (guarded, e) (refuse code (subst (Checked s.cluster_key call.metadata) e checked))
    ]

module _ (P : Platform) (parse_uuid : Text → Option ℕ) where
  -- The call brings the key, or it is refused and nothing changes.
  abbrev pub Admitted : Call → Server → Reply × Server → Type 0
  Admitted call s r =
      IsAuthorized s call ⊎ ((code : Code) × (IsRefusal code × (r ≡ (failed code, s))))

  guarded-Admitted :
      (call : Call) (s : Server) (next : Reply × Server) → Admitted call s (guarded call s next)
  guarded-Admitted call s next =
      guarded-cases (Admitted call s) call s next (λ code h. inr (code, (h, refl))) (λ a. inl a)

  -- A method of the admin or the internal service does nothing for a caller that does not bring the
  -- key: the server has a key and the first value of the call's metadata is that key, or the call
  -- fails with Unavailable or Unauthenticated and the server is as it was.
  pub serve-IsAuthorized :
      (call : Call) (r : Request P) (s : Server)
      → needs_key r ≡ true
      → Admitted call s (serve P parse_uuid call r s)
  unfolding serve
  serve-IsAuthorized call (write key) s h = cc
  serve-IsAuthorized call (read key) s h = cc
  serve-IsAuthorized call (list_bucket_shards b) s h = cc
  serve-IsAuthorized call get s h = cc
  serve-IsAuthorized call (bootstrap_cluster req) s h = guarded-Admitted call s _
  serve-IsAuthorized call list_all s h = guarded-Admitted call s _
  serve-IsAuthorized call (register_one req) s h = guarded-Admitted call s _
  serve-IsAuthorized call (seal_one b) s h = guarded-Admitted call s _
  serve-IsAuthorized call (patch_one id to) s h = guarded-Admitted call s _
  serve-IsAuthorized call retention_round s h = guarded-Admitted call s _
  serve-IsAuthorized call (report_stats uuid bytes) s h = guarded-Admitted call s _
  serve-IsAuthorized call (report_cleaned uuid) s h = guarded-Admitted call s _
  serve-IsAuthorized call (report_drain_complete uuid) s h = guarded-Admitted call s _
