-- ===== src/Safety.antt =====
-- safety/safety.service.ts: the panic button. The place, the note and the notices to the
-- administrators are left out; the events that are sent to them are the alerts of the state.
pub mod Alarm
mod Tests
use novax_backend.Common.{
  ℕ, Bool, true, false, ◌&&◌, ◌||◌, ◌==◌, Option, none, some, List, [], ◌∷◌, ◌++◌, is_some_of,
  or_else, if◌then◌else◌,
}
use novax_backend.Common.Action.{
  Action, Result, ok, err, not_found, pure, gets, or_raise, modify, ◌>>=◌, ◌>>◌,
}
use novax_backend.Common.Table.{Table, find, find_many, create, update}
use novax_backend.Common.Text.{Text, to_upper}
use novax_backend.Schema.Enums.{Role, MatchScope, IncidentType, IncidentStatus}
use novax_backend.Schema.Rows.{User, Incident}
use novax_backend.Schema.Db.{Db}
use novax_backend.Chat.{context_of}

-- What a caller says of the job that they are on.
pub record RaiseIncident : Type 0 where
  pub incident_type : Option IncidentType
  pub context_type : Option Text
  pub context_id : Option ℕ

-- `!!row && (row.riderId === userId || row.driverId === userId)`, for each kind of job
unfoldable pub is_on_job : MatchScope → (job user : ℕ) → Db → Bool
is_on_job MatchScope.trip k user db = elim (find k db.trips) [
  | none ↦ false
  | some t ↦ t.rider_id == user || is_some_of user t.driver_id
]
is_on_job MatchScope.delivery k user db = elim (find k db.deliveries) [
  | none ↦ false
  | some x ↦ x.sender_id == user || is_some_of user x.driver_id
]
is_on_job MatchScope.food_order k user db = elim (find k db.food_orders) [
  | none ↦ false
  | some o ↦ o.customer_id == user || is_some_of user o.driver_id
]
is_on_job MatchScope.errand k user db = elim (find k db.errands) [
  | none ↦ false
  | some e ↦ e.requester_id == user || is_some_of user e.driver_id
]

-- `switch (contextType.toUpperCase())`
abbrev pub is_on_context : Option MatchScope → (job user : ℕ) → Db → Bool
is_on_context none k user db = false
is_on_context (some scope) k user db = is_on_job scope k user db

-- `ownsContext`
unfoldable pub owns_context : (user : ℕ) → Option Text → Option ℕ → Db → Bool
unfolding is_on_job context_of
owns_context user none _ db = true
owns_context user (some []) _ db = true
owns_context user (some (c ∷ s)) none db = true
owns_context user (some (c ∷ s)) (some k) db =
    is_on_context (context_of (to_upper (c ∷ s))) k user db

abbrev pub new_incident : (user : ℕ) → RaiseIncident → (context_ok : Bool) → Incident
new_incident user input context_ok = record {
  user_id = user;
  incident_type = or_else input.incident_type IncidentType.sos;
  status = IncidentStatus.opened;
  context_type = if context_ok then input.context_type else none;
  context_id = if context_ok then input.context_id else none;
  handled_by_id = none;
  handled_at = none;
}

abbrev pub is_admin : (row : ℕ) → User → Bool
is_admin _ u = elim u.role [ Role.admin ↦ true | _ ↦ false ]

-- One event for each of them.
unfoldable pub alerts_for : (incident : ℕ) → List (ℕ × User) → List (ℕ × ℕ)
alerts_for incident [] = []
alerts_for incident ((admin, _) ∷ admins) = (admin, incident) ∷ alerts_for incident admins

unfoldable pub raise_incident : (row user : ℕ) → RaiseIncident → Action Db Incident
unfolding owns_context alerts_for
raise_incident row user input = do
  context_ok ← gets (owns_context user input.context_type input.context_id)
  modify
      (λ db. record db { incidents = create row (new_incident user input context_ok) db.incidents })
  admins ← gets (λ db. find_many is_admin db.users)
  modify (λ db. record db { alerts = alerts_for row admins ++ db.alerts })
  pure (new_incident user input context_ok)

abbrev pub handled : (admin now : ℕ) → IncidentStatus → Incident → Incident
handled admin now status x = record x {
  status = status;
  handled_by_id = some admin;
  handled_at = some now;
}

unfoldable pub update_status : (incident admin now : ℕ) → IncidentStatus → Action Db (Unit {0})
update_status k admin now status = do
  existing ← gets (λ db. find k db.incidents)
  x ← or_raise existing not_found
  modify (λ db. record db { incidents = update k (handled admin now status) db.incidents })
