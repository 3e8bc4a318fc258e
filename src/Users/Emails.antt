-- ===== src/Users/Emails.antt =====
-- One account for an e-mail address: what keeps it so when a row is written.
pub mod Requests
pub mod Runs
use novax_backend.Common.{
  ℕ, ◌≡◌, ◌≢◌, refl, ap, sym, ◌∙◌, ◌⊎◌, inl, inr, Bool, true, false, not, ◌&&◌, ◌||◌, ◌==◌, ==_iff,
  Bool-cases, Option-cases, Option, some, none, List, [], ◌∷◌, is_none, arith, or_else,
}
use novax_backend.Common.Action.{ok, err, bad_request, Result-cases}
use novax_backend.Common.Table.{
  Table, find, find_first, create, update, find-update_self, find-update_ne, find-update-none,
  find-create_self, find-create_ne,
}
use novax_backend.Common.Text.{Text, text_eq, text_eq_refl, is_text, to_upper}
use novax_backend.Schema.Enums.{Role}
use novax_backend.Schema.Rows.{User}
use novax_backend.Schema.Db.{Db}
use novax_backend.Accounts.Sessions.{Bcrypt, Jwt, Draws, issue_tokens}
use novax_backend.Accounts.Codes.{OtpRequest, default_user, refer, ensure_user, request_otp}
use novax_backend.Accounts.Signup.{
  Register, email_of, is_taken, holds_email, lacks_password, upgraded, registered, upgrade,
  register_over, register, create_profile,
}
use novax_backend.Accounts.Revocation.{anonymised, revoke, delete_own_account}
use novax_backend.Loyalty.{
  awarded, referral_bonus_points, referred_by, credit_referrer, apply_referral,
}
use novax_backend.Users.{UpdateProfile, wanted_email, with_details, email_clash, update_profile}

-- No two accounts have the same address.
abbrev pub AreDistinct : Table User → Type 0
AreDistinct users =
    (i j : ℕ) (u v : User) (s : Text)
    → find i users ≡ some u
    → find j users ≡ some v
    → u.email ≡ some s
    → v.email ≡ some s
    → i ≡ j

-- Nobody but one account has an address.
abbrev pub IsFree : (k : ℕ) → Option Text → Table User → Type 0
IsFree k email users =
    (j : ℕ) (v : User) (s : Text)
    → j ≢ k
    → find j users ≡ some v
    → email ≡ some s
    → v.email ≢ some s

pub find_first-none :
    (p : ℕ → User → Bool) (j : ℕ) (users : Table User) (v : User)
    → find_first p users ≡ none
    → find j users ≡ some v
    → p j v ≡ false
unfolding find_first find
find_first-none p j [] v n e = cc
find_first-none p j ((i, u) ∷ users) v n e = elim (Bool-cases (p i u)) [
  | inl t ↦ ground (arith, t, n)
  | inr t ↦ elim (Bool-cases (i == j)) [
    | inl s ↦ let found : some u ≡ some v = rw s at e in ground (arith, t)
    | inr s ↦ find_first-none p j users v (rw t at n) (rw s at e)
  ]
]

-- What is found after an update was found before it.
find-updated :
    (k : ℕ) (f : User → User) (users : Table User) (r : User)
    → find k (update k f users) ≡ some r
    → (q : User) × (find k users ≡ some q) × (r ≡ f q)
find-updated k f users r e = elim (Option-cases (find k users)) [
  | inl n ↦ let n' = find-update-none k f users n in cc
  | inr (q, s) ↦ let s' = find-update_self k f users q s in (q, s, ground (arith, s', e))
]

Number-cases : (i k : ℕ) → (i ≡ k) ⊎ (i ≢ k)
Number-cases i k = ground arith

pub AreDistinct-update :
    (k : ℕ) (f : User → User) (users : Table User)
    → AreDistinct users
    → ((q : User) → find k users ≡ some q → IsFree k (f q).email users)
    → AreDistinct (update k f users)
AreDistinct-update k f users distinct free i j u v s ei ej hu hv = elim (Number-cases i k) [
  | inl si ↦ elim (Number-cases j k) [
    | inl sj ↦ si ∙ sym sj
    | inr nj ↦
        let (q, e, r) = find-updated k f users u (rw si at ei) in
        absurd (
          free q e j v s nj (sym (find-update_ne k j f users nj) ∙ ej)
            (sym (ap (λ (x : User). x.email) r) ∙ hu) hv)
  ]
  | inr ni ↦ elim (Number-cases j k) [
    | inl sj ↦
        let (q, e, r) = find-updated k f users v (rw sj at ej) in
        absurd (
          free q e i u s ni (sym (find-update_ne k i f users ni) ∙ ei)
            (sym (ap (λ (x : User). x.email) r) ∙ hv) hu)
    | inr nj ↦
        distinct i j u v s (sym (find-update_ne k i f users ni) ∙ ei)
          (sym (find-update_ne k j f users nj) ∙ ej) hu hv
  ]
]

pub AreDistinct-create :
    (k : ℕ) (q : User) (users : Table User)
    → AreDistinct users
    → IsFree k q.email users
    → AreDistinct (create k q users)
AreDistinct-create k q users distinct free i j u v s ei ej hu hv = elim (Number-cases i k) [
  | inl si ↦ elim (Number-cases j k) [
    | inl sj ↦ si ∙ sym sj
    | inr nj ↦
        let same : some q ≡ some u = sym (find-create_self k q users) ∙ rw si at ei in
        let r : q ≡ u = cc in
        absurd (
          free j v s nj (sym (find-create_ne k j q users nj) ∙ ej)
            (ap (λ (x : User). x.email) r ∙ hu) hv)
  ]
  | inr ni ↦ elim (Number-cases j k) [
    | inl sj ↦
        let same : some q ≡ some v = sym (find-create_self k q users) ∙ rw sj at ej in
        let r : q ≡ v = cc in
        absurd (
          free i u s ni (sym (find-create_ne k i q users ni) ∙ ei)
            (ap (λ (x : User). x.email) r ∙ hv) hu)
    | inr nj ↦
        distinct i j u v s (sym (find-create_ne k i q users ni) ∙ ei)
          (sym (find-create_ne k j q users nj) ∙ ej) hu hv
  ]
]

pub holds-IsFree :
    (k : ℕ) (s : Text) (users : Table User)
    → find_first (holds_email s k) users ≡ none
    → IsFree k (some s) users
holds-IsFree k s users n j v t apart e h hv =
    let off = find_first-none (holds_email s k) j users v n e in
    let eq : (j == k) ≡ false = ground arith in
    let at_s : v.email ≡ some s = cc in
    let on : holds_email s k j v ≡ true = rw (eq, at_s) (text_eq_refl s) in cc

pub taken-IsFree :
    (k : ℕ) (dto : Register) (users : Table User)
    → find_first (is_taken dto) users ≡ none
    → IsFree k (some (email_of dto)) users
taken-IsFree k dto users n j v t apart e h hv =
    let off = find_first-none (is_taken dto) j users v n e in
    let at_s : v.email ≡ some (email_of dto) = cc in
    let on : is_text (email_of dto) v.email ≡ true = rw at_s (text_eq_refl (email_of dto)) in
    ground (arith, on, off)

pub kept-IsFree :
    (k : ℕ) (users : Table User) (q : User)
    → AreDistinct users
    → find k users ≡ some q
    → IsFree k q.email users
kept-IsFree k users q distinct e j v s apart f h hv = apart (distinct j k v q s f e hv h)

pub none-IsFree : (k : ℕ) (users : Table User) → IsFree k none users
none-IsFree k users j v s apart e h = cc
