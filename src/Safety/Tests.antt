-- ===== src/Safety/Tests.antt =====
-- An alarm at a concrete ride.
use novax_backend.Common.{◌≡◌, none, some, [], ◌∷◌}
use novax_backend.Common.Action.{ok}
use novax_backend.Common.Text.{codes}
use novax_backend.Schema.Enums.{Role}
use novax_backend.Schema.Rows.{Incident}
use novax_backend.Schema.Db.{Db}
use novax_backend.Fixtures.{rider, driver, matched_ride, state}
use novax_backend.Safety.{RaiseIncident, raise_incident}
use novax_backend.Safety.Alarm.{IsStored, raise_incident_answers}

abbrev with_desk : Db
with_desk = record (state matched_ride) {
  users = (1, rider) ∷ (2, driver) ∷ (8, record rider { role = Role.admin }) ∷ [];
}

abbrev on_the_ride : RaiseIncident
on_the_ride = record {
  incident_type = none;
  context_type = some (codes "trip");
  context_id = some 10;
}

raise_incident_answers_example :
    let (answer, db') = raise_incident 95 1 on_the_ride with_desk in
    (x : Incident) × (answer ≡ ok x) × IsStored 95 1 on_the_ride with_desk x db'
raise_incident_answers_example = raise_incident_answers 95 1 on_the_ride with_desk
