-- ===== src/Desk/Tests.antt =====
-- Assignments at concrete inputs.
use novax_backend.Schema.Db.{MatchScope}
use novax_backend.Fixtures.{errand, errand_state}
use novax_backend.Desk.{manually_assign}
use novax_backend.Desk.Assignment.{IsAnswered, manually_assign_answers}

manually_assign_answers_example :
    IsAnswered MatchScope.errand 40 3 1_000_000
      (errand_state errand)
      (manually_assign MatchScope.errand 40 3 1_000_000 (errand_state errand))
manually_assign_answers_example =
    manually_assign_answers MatchScope.errand 40 3 1_000_000 (errand_state errand)
