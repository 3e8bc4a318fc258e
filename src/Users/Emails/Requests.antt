-- ===== src/Users/Emails/Requests.antt =====
-- The requests that write an account, and the addresses.
use novax_backend.Common.{
  ℕ, ◌≡◌, refl, inl, inr, Bool, true, false, ◌==◌, Bool-cases, Option-cases, Option, some, none, [],
  ◌∷◌, arith, or_else,
}
use novax_backend.Common.Action.{Result-cases}
use novax_backend.Common.Table.{Table, find, find_first, create, update}
use novax_backend.Common.Text.{Text, text_eq, is_text, to_upper}
use novax_backend.Schema.Enums.{Role}
use novax_backend.Schema.Rows.{User}
use novax_backend.Schema.Db.{Db}
use novax_backend.Accounts.Sessions.{Bcrypt, Jwt, Draws, issue_tokens}
use novax_backend.Accounts.Codes.{OtpRequest, default_user, refer, ensure_user, request_otp}
use novax_backend.Accounts.Signup.{
  Register, email_of, is_taken, holds_email, lacks_password, upgraded, registered, upgrade,
  register_over, register, create_profile,
}
use novax_backend.Accounts.Revocation.{anonymised, revoke, delete_own_account}
use novax_backend.Loyalty.{
  awarded, referral_bonus_points, referred_by, credit_referrer, apply_referral,
}
use novax_backend.Users.{UpdateProfile, wanted_email, with_details, email_clash, update_profile}
use novax_backend.Users.Emails.{
  AreDistinct, IsFree, AreDistinct-update, AreDistinct-create, holds-IsFree, taken-IsFree,
  kept-IsFree, none-IsFree,
}

-- What an update of a profile leaves of the accounts.
module _ (user : ℕ) (dto : UpdateProfile) (db : Db) where
  profile_refused :
      email_clash user (wanted_email dto) db ≡ true
      → (update_profile user dto db).1.users ≡ db.users
  unfolding update_profile
  profile_refused c = ground (arith, c)

  profile_moved :
      email_clash user (wanted_email dto) db ≡ false
      → (update_profile user dto db).1.users ≡ update user (with_details dto) db.users
  unfolding update_profile
  profile_moved c = ground (arith, c)

  wanted-IsFree :
      email_clash user (wanted_email dto) db ≡ false
      → AreDistinct db.users
      → (q : User) → find user db.users ≡ some q
      → IsFree user (with_details dto q).email db.users
  wanted-IsFree c distinct q e = elim (Option-cases (wanted_email dto)) [
    | inl w ↦ rw w (kept-IsFree user db.users q distinct e)
    | inr (s, w) ↦
        let none_holds : find_first (holds_email s user) db.users ≡ none = ground (arith, c, w) in
        rw w (holds-IsFree user s db.users none_holds)
  ]

  pub update_profile-AreDistinct :
      AreDistinct db.users → AreDistinct (update_profile user dto db).1.users
  update_profile-AreDistinct distinct = elim (Bool-cases (email_clash user (wanted_email dto) db)) [
    | inl c ↦ rw (profile_refused c) distinct
    | inr c ↦
        rw (profile_moved c)
          (AreDistinct-update user (with_details dto) db.users distinct (wanted-IsFree c distinct))
  ]

module _ (bcrypt : Bcrypt) (jwt : Jwt) (dto : Register) (user : ℕ) (draws : Draws) (db : Db) where
  upgrade_users :
      (k : ℕ) (u : User)
      → find_first (holds_email (email_of dto) k) db.users ≡ none
      → (upgrade bcrypt jwt dto k u draws db).1.users
        ≡ update k (upgraded bcrypt dto draws.salt) db.users
  unfolding upgrade issue_tokens
  upgrade_users k u n = rw n refl

  upgrade_refused :
      (k : ℕ) (u : User) (q : ℕ × User)
      → find_first (holds_email (email_of dto) k) db.users ≡ some q
      → (upgrade bcrypt jwt dto k u draws db).1.users ≡ db.users
  unfolding upgrade
  upgrade_refused k u q n = rw n refl

  upgrade-AreDistinct :
      (k : ℕ) (u : User)
      → AreDistinct db.users
      → AreDistinct (upgrade bcrypt jwt dto k u draws db).1.users
  unfolding upgraded
  upgrade-AreDistinct k u distinct =
      elim (Option-cases (find_first (holds_email (email_of dto) k) db.users)) [
        | inr (q, n) ↦ rw (upgrade_refused k u q n) distinct
        | inl n ↦ rw (upgrade_users k u n) (
            AreDistinct-update k (upgraded bcrypt dto draws.salt) db.users distinct
              (λ q e. holds-IsFree k (email_of dto) db.users n))
      ]

  created_users :
      (register_over bcrypt jwt dto user draws none db).1.users
      ≡ create user (registered bcrypt dto draws.salt) db.users
  unfolding register_over create_profile issue_tokens
  created_users = ground arith

  over_upgraded :
      (k : ℕ) (u : User)
      → lacks_password u ≡ true
      → register_over bcrypt jwt dto user draws (some (k, u)) db
        ≡ upgrade bcrypt jwt dto k u draws db
  unfolding register_over
  over_upgraded k u l = rw l refl

  over_refused :
      (k : ℕ) (u : User)
      → lacks_password u ≡ false
      → (register_over bcrypt jwt dto user draws (some (k, u)) db).1.users ≡ db.users
  unfolding register_over
  over_refused k u l = rw l refl

  over-AreDistinct :
      (existing : Option (ℕ × User))
      → find_first (is_taken dto) db.users ≡ existing
      → AreDistinct db.users
      → AreDistinct (register_over bcrypt jwt dto user draws existing db).1.users
  unfolding registered
  over-AreDistinct none n distinct = rw created_users (
      AreDistinct-create user (registered bcrypt dto draws.salt) db.users distinct
        (taken-IsFree user dto db.users n))
  over-AreDistinct (some (k, u)) n distinct = elim (Bool-cases (lacks_password u)) [
    | inl l ↦ rw (over_upgraded k u l) (upgrade-AreDistinct k u distinct)
    | inr l ↦ rw (over_refused k u l) distinct
  ]

  pub register-AreDistinct :
      AreDistinct db.users → AreDistinct (register bcrypt jwt dto user draws db).1.users
  unfolding register
  register-AreDistinct distinct =
      over-AreDistinct (find_first (is_taken dto) db.users) refl distinct

deleted_users :
    (reachable : Bool) (ttl_ms user now : ℕ) (db : Db) (u : User)
    → find user db.users ≡ some u
    → (delete_own_account reachable ttl_ms user now db).1.users
      ≡ update user (anonymised user) db.users
unfolding delete_own_account revoke
deleted_users true ttl_ms user now db u e = rw e refl
deleted_users false ttl_ms user now db u e = rw e refl

pub delete-AreDistinct :
    (reachable : Bool) (ttl_ms user now : ℕ) (db : Db)
    → AreDistinct db.users
    → AreDistinct (delete_own_account reachable ttl_ms user now db).1.users
delete-AreDistinct reachable ttl_ms user now db distinct =
    elim (Option-cases (find user db.users)) [
      | inl n ↦
          let same : (delete_own_account reachable ttl_ms user now db).1.users ≡ db.users =
            unfold delete_own_account in rw n refl in
          rw same distinct
      | inr (u, e) ↦ rw (deleted_users reachable ttl_ms user now db u e) (
          AreDistinct-update user (anonymised user) db.users distinct
            (λ q f. none-IsFree user db.users))
    ]

kept-AreDistinct :
    (k : ℕ) (f : User → User) (users : Table User)
    → ((q : User) → (f q).email ≡ q.email)
    → AreDistinct users
    → AreDistinct (update k f users)
kept-AreDistinct k f users same distinct =
    AreDistinct-update k f users distinct (λ q e. rw (same q) (kept-IsFree k users q distinct e))

credit-AreDistinct :
    (user : ℕ) (referrer : Option (ℕ × User)) (db : Db)
    → AreDistinct db.users
    → AreDistinct (credit_referrer user referrer db).1.users
unfolding credit_referrer
credit-AreDistinct user none db distinct = distinct
credit-AreDistinct user (some (r, _)) db distinct = elim (Bool-cases (r == user)) [
  | inl e ↦ rw e distinct
  | inr e ↦
      let linked = kept-AreDistinct user (referred_by r) db.users (λ q. refl) distinct in
      rw e (
        kept-AreDistinct r (awarded referral_bonus_points) (update user (referred_by r) db.users)
          (λ q. refl) linked)
]

refer-AreDistinct :
    (user : ℕ) (code : Option Text) (db : Db)
    → AreDistinct db.users
    → AreDistinct (refer user code db).1.users
unfolding refer apply_referral
refer-AreDistinct user none db distinct = distinct
refer-AreDistinct user (some []) db distinct = distinct
refer-AreDistinct user (some (c ∷ code)) db distinct =
    credit-AreDistinct user
      (find_first (λ _ u. is_text (to_upper (c ∷ code)) u.referral_code) db.users) db distinct

ensure-AreDistinct :
    (dto : OtpRequest) (user : ℕ) (existing : Option (ℕ × User)) (db : Db)
    → AreDistinct db.users
    → AreDistinct (ensure_user dto user existing db).1.users
unfolding ensure_user
ensure-AreDistinct dto user (some (k, u)) db distinct = distinct
ensure-AreDistinct dto user none db distinct =
    let q : User = record (default_user dto.phone) { role = or_else dto.role Role.rider } in
    let db1 : Db = record db { users = create user q db.users } in
    let added = AreDistinct-create user q db.users distinct (none-IsFree user db.users) in
    let referred = refer-AreDistinct user dto.referral_code db1 added in
    let same : (ensure_user dto user none db).1.users ≡ (refer user dto.referral_code db1).1.users =
      elim (Result-cases (refer user dto.referral_code db1).0) [
        | inl (t, o) ↦ ground (arith, o)
        | inr (x, o) ↦ ground (arith, o)
      ] in
    rw same referred

pub request-AreDistinct :
    (bcrypt : Bcrypt) (dto : OtpRequest) (user : ℕ) (code : Text) (draws : Draws) (db : Db)
    → AreDistinct db.users
    → AreDistinct (request_otp bcrypt dto user code draws db).1.users
unfolding request_otp
request-AreDistinct bcrypt dto user code draws db distinct =
    let existing = find_first (λ _ u. text_eq u.phone dto.phone) db.users in
    let ensured = ensure-AreDistinct dto user existing db distinct in
    elim (Result-cases (ensure_user dto user existing db).0) [
      | inl (k, o) ↦
          let same : (request_otp bcrypt dto user code draws db).1.users
              ≡ (ensure_user dto user existing db).1.users =
            ground (arith, o) in
          rw same ensured
      | inr (x, o) ↦
          let same : (request_otp bcrypt dto user code draws db).1.users
              ≡ (ensure_user dto user existing db).1.users =
            ground (arith, o) in
          rw same ensured
    ]
