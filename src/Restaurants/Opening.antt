-- ===== src/Restaurants/Opening.antt =====
-- Which restaurants take orders: the calls of restaurants/restaurants.service.ts that change it,
-- one after another.
use novax_backend.Common.{
  ℕ, ◌≡◌, refl, sym, ◌∙◌, ◌⊎◌, inl, inr, Bool, true, false, not, ◌||◌, Bool-cases, Option-cases,
  none, some, [], ◌∷◌, arith, ◌==◌,
}
use mathlib.Core.Path.{subst}
use mathlib.Core.Option.{some-injective}
use novax_backend.Common.Action.{Result}
use novax_backend.Common.Table.{Table, find, find_first, update, create, find-update_self}
use novax_backend.Schema.Enums.{RestaurantStatus}
use novax_backend.Schema.Rows.{Restaurant}
use novax_backend.Schema.Db.{Db}
use novax_backend.Restaurants.{
  owned_by, default_restaurant, create_restaurant, is_pending, is_suspended, toggled, toggle_write,
  toggle_open, with_status, shut_down, approve, suspend,
}

abbrev pub is_approved : RestaurantStatus → Bool
is_approved RestaurantStatus.approved = true
is_approved _ = false

-- An open restaurant is an approved one.
abbrev pub is_proper : Restaurant → Bool
is_proper r = not r.is_open || is_approved r.status

-- Every row is proper, has a key of its own and an owner of its own.
abbrev pub IsSound : Table Restaurant → Type 0
IsSound [] = Unit
IsSound ((k, r) ∷ rows) =
    (is_proper r ≡ true)
    × (find k rows ≡ none)
    × (find_first (owned_by r.owner_id) rows ≡ none)
    × IsSound rows

find_first-find :
    (p : ℕ → Restaurant → Bool) (k : ℕ) (rows : Table Restaurant) (r : Restaurant)
    → IsSound rows
    → find_first p rows ≡ some (k, r)
    → find k rows ≡ some r
unfolding find_first find
find_first-find p k [] r s h = cc
find_first-find p k ((i, q) ∷ rows) r (_, fresh, _, s) h =
    ground (arith, find_first-find p k rows r s)

find-update-none :
    (k i : ℕ) (f : Restaurant → Restaurant) (rows : Table Restaurant)
    → find i rows ≡ none
    → find i (update k f rows) ≡ none
unfolding find update
find-update-none k i f [] h = refl
find-update-none k i f ((j, q) ∷ rows) h = ground (arith, find-update-none k i f rows)

-- Nothing that is done to a row changes its owner.
owners-update :
    (owner k : ℕ) (f : Restaurant → Restaurant) (rows : Table Restaurant)
    → ((r : Restaurant) → (f r).owner_id ≡ r.owner_id)
    → find_first (owned_by owner) rows ≡ none
    → find_first (owned_by owner) (update k f rows) ≡ none
unfolding find_first update
owners-update owner k f [] same h = refl
owners-update owner k f ((j, q) ∷ rows) same h =
    ground (arith, same q, owners-update owner k f rows same)

update-IsSound :
    (k : ℕ) (f : Restaurant → Restaurant) (rows : Table Restaurant)
    → ((r : Restaurant) → (f r).owner_id ≡ r.owner_id)
    → ((r : Restaurant) → find k rows ≡ some r → is_proper (f r) ≡ true)
    → IsSound rows
    → IsSound (update k f rows)
unfolding find update
update-IsSound k f [] same good s = tt
update-IsSound k f ((j, q) ∷ rows) same good (p, fresh, alone, s) = elim (Bool-cases (j == k)) [
  | inl e ↦ rw e (good q (rw e refl), fresh, rw (same q) alone, s)
  | inr e ↦
      let good' = λ (r : Restaurant) (h : find k rows ≡ some r). good r (rw e h) in
      rw e (
        p,
        find-update-none k j f rows fresh,
        owners-update q.owner_id k f rows same alone,
        update-IsSound k f rows same good' s,
      )
]

toggled_proper :
    (was_open : Bool) (r : Restaurant)
    → is_approved r.status ≡ true
    → is_proper (toggled (not was_open) r) ≡ true
toggled_proper was_open r a = ground arith

settled :
    (status : RestaurantStatus)
    → is_pending status ≡ false
    → is_suspended status ≡ false
    → is_approved status ≡ true
settled RestaurantStatus.pending p s = cc
settled RestaurantStatus.approved p s = refl
settled RestaurantStatus.suspended p s = cc

toggle_write-IsSound :
    (k : ℕ) (read : Restaurant) (db : Db)
    → IsSound db.restaurants
    → find k db.restaurants ≡ some read
    → is_approved read.status ≡ true
    → IsSound (toggle_write k read db).1.restaurants
unfolding toggle_write
toggle_write-IsSound k read db s e a =
    let proper = λ (r : Restaurant) (h : find k db.restaurants ≡ some r).
      let approved : is_approved r.status ≡ true =
        subst (λ (q : Restaurant). is_approved q.status ≡ true) (some-injective read r (sym e ∙ h))
          a in
      toggled_proper read.is_open r approved in
    update-IsSound k (toggled (not read.is_open)) db.restaurants (λ r. refl) proper s

toggle_open-cases :
    (owner : ℕ) (db : Db)
    → ((toggle_open owner db).1 ≡ db)
      ⊎ ((row : ℕ × Restaurant) × (find_first (owned_by owner) db.restaurants ≡ some row)
          × (is_approved row.1.status ≡ true)
          × (toggle_open owner db ≡ toggle_write row.0 row.1 db))
unfolding toggle_open
toggle_open-cases owner db = elim (Option-cases (find_first (owned_by owner) db.restaurants)) [
  | inl e ↦ inl (ground (arith, e))
  | inr (row, e) ↦ elim (Bool-cases (is_pending row.1.status)) [
    | inl p ↦ inl (ground (arith, e))
    | inr p ↦ elim (Bool-cases (is_suspended row.1.status)) [
      | inl q ↦ inl (ground (arith, e))
      | inr q ↦ inr (row, e, settled row.1.status p q, ground (arith, e))
    ]
  ]
]

toggle_open-IsSound :
    (owner : ℕ) (db : Db) → IsSound db.restaurants → IsSound (toggle_open owner db).1.restaurants
toggle_open-IsSound owner db s = elim (toggle_open-cases owner db) [
  | inl same ↦ subst (λ (d : Db). IsSound d.restaurants) (sym same) s
  | inr (row, e, a, same) ↦
      let at = find_first-find (owned_by owner) row.0 db.restaurants row.1 s e in
      subst (λ (p : Result (Unit {0}) × Db). IsSound p.1.restaurants) (sym same)
        (toggle_write-IsSound row.0 row.1 db s at a)
]

create_restaurant-cases :
    (k owner : ℕ) (db : Db)
    → ((create_restaurant k owner db).1 ≡ db)
      ⊎ (find_first (owned_by owner) db.restaurants ≡ none)
        × ((create_restaurant k owner db).1
            ≡ record db { restaurants = create k (default_restaurant owner) db.restaurants })
unfolding create_restaurant
create_restaurant-cases k owner db =
    elim (Option-cases (find_first (owned_by owner) db.restaurants)) [
      | inl e ↦ inr (e, rw e refl)
      | inr (row, e) ↦ inl (rw e refl)
    ]

create_restaurant-IsSound :
    (k owner : ℕ) (db : Db)
    → find k db.restaurants ≡ none
    → IsSound db.restaurants
    → IsSound (create_restaurant k owner db).1.restaurants
unfolding create
create_restaurant-IsSound k owner db fresh s = elim (create_restaurant-cases k owner db) [
  | inl same ↦ subst (λ (d : Db). IsSound d.restaurants) (sym same) s
  | inr (e, new) ↦ subst (λ (d : Db). IsSound d.restaurants) (sym new) (refl, fresh, e, s)
]

-- One call of the service, or of the desk; a new row has a key of its own.
pub data Step (db : Db) : Db → Type 0 where
  opens : (k owner : ℕ) → find k db.restaurants ≡ none → Step db (create_restaurant k owner db).1
  toggles : (owner : ℕ) → Step db (toggle_open owner db).1
  is_approved_by_desk : (k : ℕ) → Step db (approve k db).1
  is_suspended_by_desk : (k : ℕ) → Step db (suspend k db).1

-- Any number of calls.
pub data Reach (db : Db) : Db → Type 0 where
  here : Reach db db
  next : {mid db' : Db} → Reach db mid → Step mid db' → Reach db db'

Step-IsSound : {db db' : Db} → Step db db' → IsSound db.restaurants → IsSound db'.restaurants
unfolding approve suspend
Step-IsSound {db} (Step.opens k owner fresh) s = create_restaurant-IsSound k owner db fresh s
Step-IsSound {db} (Step.toggles owner) s = toggle_open-IsSound owner db s
Step-IsSound {db} (Step.is_approved_by_desk k) s =
    update-IsSound k (with_status RestaurantStatus.approved) db.restaurants (λ r. refl)
      (λ r h. ground arith) s
Step-IsSound {db} (Step.is_suspended_by_desk k) s =
    update-IsSound k shut_down db.restaurants (λ r. refl) (λ r h. refl) s

-- Whatever registrations, openings, closings, approvals and suspensions there are, one call after
-- another and in whatever order, nobody ever has two restaurants, and no restaurant is open that
-- is not approved.
pub Reach-IsSound : {db db' : Db} → IsSound db.restaurants → Reach db db' → IsSound db'.restaurants
Reach-IsSound s Reach.here = s
Reach-IsSound s (Reach.next r step) = Step-IsSound step (Reach-IsSound s r)

-- Suppose `toggleOpen` of an approved restaurant that is closed has passed its checks, and the
-- desk suspends the restaurant before it writes: the restaurant is open while it is suspended.
pub suspended_yet_open :
    (k : ℕ) (read : Restaurant) (db : Db)
    → find k db.restaurants ≡ some read
    → read.is_open ≡ false
    → find k (toggle_write k read (suspend k db).1).1.restaurants
      ≡ some (record read { status = RestaurantStatus.suspended; is_open = true })
unfolding toggle_write suspend
suspended_yet_open k read db e closed =
    let off = find-update_self k shut_down db.restaurants read e in
    let on =
      find-update_self k (toggled (not read.is_open)) (update k shut_down db.restaurants)
        (shut_down read) off in
    on ∙ rw closed refl
