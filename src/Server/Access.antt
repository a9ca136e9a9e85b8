-- ===== src/Server/Access.antt =====
-- requireKey and checkKey of internal/grpcapi/server.go, and the status codes of the handlers.
use shardman.Prelude.{Bool, false, Option, none, some, List, [], ◌∷◌, if◌then◌else◌}
use shardman.Prelude.Text.{Text, text_eq}

pub data Code : Type 0 where
  unavailable unauthenticated invalid_argument internal already_exists not_found aborted : Code

-- subtle.ConstantTimeCompare is 1 for equal texts.
unfoldable pub check_key : (expected got : Text) → Bool
check_key [] got = false
check_key (c ∷ expected) got = text_eq (c ∷ expected) got

unfoldable pub check_values : Text → List Text → Option Code
check_values key [] = some unauthenticated
check_values key (v ∷ values) = if check_key key v then none else some unauthenticated

-- The metadata of a call: the values of "x-cluster-key", or no metadata at all. The result is the
-- code of the refusal, if there is one.
unfoldable pub require_key : Text → Option (List Text) → Option Code
unfolding check_values
require_key [] metadata = some unavailable
require_key (c ∷ key) none = some unauthenticated
require_key (c ∷ key) (some values) = check_values (c ∷ key) values
