-- ===== src/Fsm.antt =====
-- internal/fsm/fsm.go: the states of a shard, the two roles, and the table of moves.
use shardman.Prelude.{Bool, true, false, ◌&&◌, ◌||◌, [], Option, none, some}
use shardman.Prelude.Text.{Text, text_eq}

-- `State` is a string in the source; `other` is any string that names none of the five states,
-- the empty string (`other []`) among them.
pub data State : Type 0 where
  standby active draining sealed cleaning : State
  other : Text → State

-- The column of a role holds one of two strings.
pub data Role : Type 0 where
  data_role error_role : Role

unfoldable pub state_eq : State → State → Bool
state_eq standby standby = true
state_eq active active = true
state_eq draining draining = true
state_eq sealed sealed = true
state_eq cleaning cleaning = true
state_eq (other s) (other t) = text_eq s t
state_eq _ _ = false

-- The row of `dataTransitions` at a state, as the test of membership; `none` is a missing row.
data_transitions : State → Option (State → Bool)
unfolding state_eq
data_transitions standby = some (λ to. state_eq to active)
data_transitions active = some (λ to. state_eq to draining || state_eq to sealed)
data_transitions draining = some (λ to. state_eq to sealed)
data_transitions sealed = some (λ to. state_eq to cleaning)
data_transitions cleaning = some (λ to. state_eq to standby)
data_transitions (other s) = none

lookup_transition : Option (State → Bool) → State → Bool
lookup_transition none to = false
lookup_transition (some allowed) to = allowed to

unfoldable pub can_transition : Role → State → State → Bool
unfolding data_transitions lookup_transition state_eq
can_transition error_role from to =
    state_eq from to || (state_eq from standby && state_eq to active) || state_eq to active
can_transition data_role from to = lookup_transition (data_transitions from) to

unfoldable pub startup_state_allowed : State → Bool
unfolding state_eq
startup_state_allowed state = state_eq state (other []) || state_eq state standby
