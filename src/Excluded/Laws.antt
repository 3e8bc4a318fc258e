-- ===== src/Excluded/Laws.antt =====
-- Additions to location/excluded-drivers.store.ts, and its clearing.
use novax_backend.Common.{
  ℕ, ◌≡◌, refl, inl, inr, true, ◌||◌, Bool-cases, List, [], ◌∷◌, arith, ◌==◌, has,
}
use novax_backend.Schema.Db.{MatchScope}
use novax_backend.Excluded.{Excluded, same_key, get_all, add, clear}

same_key_self : (s : MatchScope) (i : ℕ) → same_key s i s i ≡ true
unfolding same_key
same_key_self s i = ground arith

member : (e d : ℕ) (l : List ℕ) → has d l ≡ true → (d == e) ≡ true → has e l ≡ true
member e d [] h q = h
member e d (x ∷ l) h q = ground (arith, member e d l)

-- After adding a driver, the job's drivers are those before and the one added.
pub has-add :
    (s : MatchScope) (i d e : ℕ) (x : Excluded)
    → has e (get_all s i (add s i d x)) ≡ (d == e || has e (get_all s i x))
unfolding add get_all
has-add s i d e x = elim (Bool-cases (has d (get_all s i x))) [
  | inl old ↦ rw (old, add) (ground (arith, member e d (get_all s i x) old))
  | inr new ↦ rw (new, add, same_key_self s i)
]

pub get_all-clear : (s : MatchScope) (i : ℕ) (x : Excluded) → get_all s i (clear s i x) ≡ []
unfolding clear get_all
get_all-clear s i [] = refl
get_all-clear s i ((s', i', d) ∷ x) = elim (Bool-cases (same_key s i s' i')) [
  | inl e ↦ rw e (get_all-clear s i x)
  | inr e ↦ rw (e, get_all, e) (get_all-clear s i x)
]
