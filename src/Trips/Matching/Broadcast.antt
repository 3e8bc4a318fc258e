-- ===== src/Trips/Matching/Broadcast.antt =====
-- What a run of `attemptMatch` comes to: an offer, a search that finds nobody, or nothing.
use novax_backend.Common.{
  ℕ, ◌+◌, ◌<◌, ◌≡◌, ◌⊎◌, inl, inr, true, false, Bool-cases, Option, none, some, List, [], ◌∷◌, ◌++◌,
  arith, has, ap, map, ◌==◌, or_else,
}
use novax_backend.Common.Table.{Table, find}
use novax_backend.Schema.Enums.{TripStatus}
use novax_backend.Schema.Rows.{Trip, DriverProfile}
use novax_backend.Schema.Db.{Db, Topic, Message}
use novax_backend.Trips.Rides.{message}

-- A message that has been sent.
abbrev pub IsSent : Message → List Message → Type 0
IsSent m [] = ⊥
IsSent m (x ∷ xs) = (m ≡ x) ⊎ IsSent m xs

-- A notice on a topic, to each of the drivers and to nobody else.
told :
    (topic : Topic) (k d : ℕ) (ds : List ℕ) (rest : List Message)
    → has d ds ≡ true
    → IsSent (message d topic k) (map (λ e. message e topic k) ds ++ rest)
told topic k d [] rest h = cc
told topic k d (e ∷ ds) rest h = elim (Bool-cases (e == d)) [
  | inl s ↦ inl (ap (λ e. message e topic k) (ground (arith, s)))
  | inr s ↦ inr (told topic k d ds rest (rw s at h))
]

abbrev IsTo : List ℕ → Message → Type 0
IsTo ds m = (d : ℕ) × (has d ds ≡ true) × (m.to ≡ some d)

-- A profile that has had one offer more, at least, the last one now.
abbrev pub IsCounted : (now : ℕ) → DriverProfile → Option DriverProfile → Type 0
IsCounted now p row =
    (p' : DriverProfile) × (row ≡ some p')
    × (p.offers_sent < p'.offers_sent)
    × (p'.last_offer_at ≡ some now)

abbrev one_more : (now : ℕ) → DriverProfile → DriverProfile
one_more now p = record p { offers_sent = p.offers_sent + 1; last_offer_at = some now }

-- The trip is offered to `drivers`, who are told of it and have it counted, and nobody else.
pub record IsOffered (k now : ℕ) (drivers : List ℕ) (t : Trip) (db db' : Db) : Type 0 where
  pub row :
      (t' : Trip) × (find k db'.trips ≡ some t')
      × (t'.status ≡ TripStatus.matching)
      × (t'.driver_id ≡ none)
      × (t'.offer_count ≡ t.offer_count + 1)
  pub told_all :
      (d : ℕ)
      → has d drivers ≡ true
      → IsSent (message d Topic.offer k) db'.sent × IsSent (message d Topic.push_offer k) db'.sent
  pub told_only :
      (m : Message)
      → IsSent m db'.sent
      → IsSent m db.sent ⊎ ((d : ℕ) × (has d drivers ≡ true) × (m.to ≡ some d))
  pub counted_all :
      (d : ℕ) (p : DriverProfile)
      → has d drivers ≡ true
      → find d db.profiles ≡ some p
      → IsCounted now p (find d db'.profiles)
  pub counted_only : (d : ℕ) → has d drivers ≡ false → find d db'.profiles ≡ find d db.profiles

-- The search found nobody: the first time of that is kept, and no driver hears of the trip.
pub record IsGivenUp (k now : ℕ) (t : Trip) (db db' : Db) : Type 0 where
  pub row :
      (t' : Trip) × (find k db'.trips ≡ some t')
      × (t'.status ≡ t.status)
      × (t'.driver_id ≡ t.driver_id)
      × (t'.offer_count ≡ t.offer_count)
      × (t'.no_driver_found_at ≡ some (or_else t.no_driver_found_at now))
  pub uncounted_all : db'.profiles ≡ db.profiles
