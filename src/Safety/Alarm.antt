-- ===== src/Safety/Alarm.antt =====
-- What the panic button does, whoever presses it.
use novax_backend.Common.{
  ℕ, ◌≡◌, refl, ◌∙◌, sym, ◌⊎◌, inl, inr, Bool, true, false, ◌==◌, Bool-cases, Option-cases, Option,
  some, none, List, [], ◌∷◌, ◌++◌, arith,
}
use novax_backend.Common.Action.{ok}
use novax_backend.Common.Table.{Table, find, find_many, create, find-create_self}
use novax_backend.Common.Text.{Text, to_upper}
use novax_backend.Schema.Enums.{MatchScope}
use novax_backend.Schema.Rows.{User, Incident}
use novax_backend.Schema.Db.{Db}
use novax_backend.Chat.{Pair, context_of, parties_of, takes_part}
use novax_backend.Chat.Threads.{IsInside}
use novax_backend.Safety.{
  RaiseIncident, is_on_job, owns_context, new_incident, is_admin, alerts_for, raise_incident,
}

-- The one on the job, as the chat has it.
abbrev part_in : (user : ℕ) → Option Pair → Bool
part_in user none = false
part_in user (some parties) = takes_part user parties

on_job-takes_part :
    (scope : MatchScope) (k user : ℕ) (db : Db)
    → is_on_job scope k user db ≡ part_in user (parties_of scope k db)
unfolding is_on_job
on_job-takes_part MatchScope.trip k user db = elim (Option-cases (find k db.trips)) [
  | inl e ↦ ground (arith, e)
  | inr (t, e) ↦ ground (arith, e)
]
on_job-takes_part MatchScope.delivery k user db = elim (Option-cases (find k db.deliveries)) [
  | inl e ↦ ground (arith, e)
  | inr (x, e) ↦ ground (arith, e)
]
on_job-takes_part MatchScope.food_order k user db = elim (Option-cases (find k db.food_orders)) [
  | inl e ↦ ground (arith, e)
  | inr (o, e) ↦ ground (arith, e)
]
on_job-takes_part MatchScope.errand k user db = elim (Option-cases (find k db.errands)) [
  | inl e ↦ ground (arith, e)
  | inr (t, e) ↦ ground (arith, e)
]

-- An administrator is told of an incident.
abbrev pub IsTold : (admin incident : ℕ) → List (ℕ × ℕ) → Type 0
IsTold admin incident [] = ⊥
IsTold admin incident ((a, i) ∷ alerts) =
    (a ≡ admin) × (i ≡ incident) ⊎ IsTold admin incident alerts

IsTold-first :
    (admin incident : ℕ) (xs ys : List (ℕ × ℕ))
    → IsTold admin incident xs
    → IsTold admin incident (xs ++ ys)
IsTold-first admin incident [] ys h = absurd h
IsTold-first admin incident ((a, i) ∷ xs) ys (inl h) = inl h
IsTold-first admin incident ((a, i) ∷ xs) ys (inr h) = inr (IsTold-first admin incident xs ys h)

admin-IsTold :
    (admin incident : ℕ) (users : Table User) (u : User)
    → find admin users ≡ some u
    → is_admin admin u ≡ true
    → IsTold admin incident (alerts_for incident (find_many is_admin users))
unfolding find find_many alerts_for
admin-IsTold admin incident [] u e h = cc
admin-IsTold admin incident ((i, v) ∷ users) u e h = elim (Bool-cases (i == admin)) [
  | inl s ↦
      let same : some v ≡ some u = rw s at e in
      let row : v ≡ u = cc in
      let on : is_admin i v ≡ true = rw row h in rw on (inl (ground (arith, s), refl))
  | inr s ↦ elim (Bool-cases (is_admin i v)) [
    | inl a ↦ rw a (inr (admin-IsTold admin incident users u (rw s at e) h))
    | inr a ↦ rw a (admin-IsTold admin incident users u (rw s at e) h)
  ]
]

-- What an incident may say of the job.
module _ (row user : ℕ) (input : RaiseIncident) (db : Db) where
  abbrev context_ok : Bool
  context_ok = owns_context user input.context_type input.context_id db

  -- A job that is named with its kind is kept for those who are on it and dropped for others. A
  -- job that is named without a kind is kept for everybody.
  pub record IsVouched (x : Incident) : Type 0 where
    pub own :
        (c : ℕ) (s : Text) (k : ℕ)
        → input.context_type ≡ some (c ∷ s)
        → input.context_id ≡ some k
        → IsInside (to_upper (c ∷ s)) k user db
        → (x.context_type ≡ some (c ∷ s)) × (x.context_id ≡ some k)
    pub foreign :
        (c : ℕ) (s : Text) (k : ℕ)
        → input.context_type ≡ some (c ∷ s)
        → input.context_id ≡ some k
        → ¬ IsInside (to_upper (c ∷ s)) k user db
        → (x.context_type ≡ none) × (x.context_id ≡ none)
    pub no_kind :
        (input.context_type ≡ none) ⊎ (input.context_type ≡ some [])
        → x.context_id ≡ input.context_id

  abbrev pub IsStored : Incident → Db → Type 0
  IsStored x db' =
      (find row db'.incidents ≡ some x)
      × (x.user_id ≡ user)
      × IsVouched x
      × ((admin : ℕ) (u : User)
          → find admin db.users ≡ some u
          → is_admin admin u ≡ true
          → IsTold admin row db'.alerts)

  raise-ok : raise_incident row user input db ≡ (
    ok (new_incident user input context_ok),
    record db {
      incidents = create row (new_incident user input context_ok) db.incidents;
      alerts = alerts_for row (find_many is_admin db.users) ++ db.alerts;
    },
  )
  unfolding raise_incident
  raise-ok = refl

  owned_inside :
      (c : ℕ) (s : Text) (k : ℕ)
      → owns_context user (some (c ∷ s)) (some k) db ≡ true
      → IsInside (to_upper (c ∷ s)) k user db
  unfolding owns_context
  owned_inside c s k h = elim (Option-cases (context_of (to_upper (c ∷ s)))) [
    | inl n ↦ let off = rw n at h in cc
    | inr (scope, n) ↦
        let on : is_on_job scope k user db ≡ true = rw n at h in
        elim (Option-cases (parties_of scope k db)) [
          | inl p ↦
              let off : is_on_job scope k user db ≡ false =
                on_job-takes_part scope k user db ∙ rw p refl in
              cc
          | inr (parties, p) ↦
              let part : is_on_job scope k user db ≡ takes_part user parties =
                on_job-takes_part scope k user db ∙ rw p refl in
              (scope, parties, (n, p, sym part ∙ on))
        ]
  ]

  inside_owned :
      (c : ℕ) (s : Text) (k : ℕ)
      → IsInside (to_upper (c ∷ s)) k user db
      → owns_context user (some (c ∷ s)) (some k) db ≡ true
  unfolding owns_context
  inside_owned c s k (scope, parties, (n, p, t)) = rw n (on_job-takes_part scope k user db ∙ rw p t)

  unkinded : (input.context_type ≡ none) ⊎ (input.context_type ≡ some []) → context_ok ≡ true
  unfolding owns_context
  unkinded (inl e) = rw e refl
  unkinded (inr e) = rw e refl

  new_incident-IsVouched : IsVouched (new_incident user input context_ok)
  new_incident-IsVouched = record {
    own = λ c s k t i inside.
        let on : context_ok ≡ true = rw (t, i) (inside_owned c s k inside) in (rw on t, rw on i);
    foreign = λ c s k t i outside. elim (Bool-cases context_ok) [
      | inl on ↦ absurd (outside (owned_inside c s k (rw (t, i) at on)))
      | inr off ↦ (rw off refl, rw off refl)
    ];
    no_kind = λ h. let on = unkinded h in rw on refl;
  }

  -- An alarm is never refused: it is stored as the caller's, whatever it says, and every
  -- administrator is told of it. If it names a job and its kind, both are kept if the caller is one
  -- of the two people whom the chat of that job admits, and both are left out if not. If it names a
  -- job and no kind, the job is kept unchecked, whoever's it is.
  pub raise_incident_answers :
      let (answer, db') = raise_incident row user input db in
      (x : Incident) × (answer ≡ ok x) × IsStored x db'
  raise_incident_answers = rw raise-ok (
    new_incident user input context_ok,
    refl,
    (
      find-create_self row (new_incident user input context_ok) db.incidents,
      refl,
      new_incident-IsVouched,
      λ admin u e a.
          IsTold-first admin row (alerts_for row (find_many is_admin db.users)) db.alerts
            (admin-IsTold admin row db.users u e a),
    ),
  )
