-- ===== src/Accounts/Signup.antt =====
-- `register` and `login` of auth/auth.service.ts.
--
-- The row of a new driver's profile has the columns that the services use.
pub mod Answers
pub mod Entry
use novax_backend.Common.{
  ℕ, Bool, true, false, not, ◌||◌, ◌==◌, ◌&&◌, Option, none, some, [], ◌∷◌, is_none, if◌then◌else◌,
}
use novax_backend.Common.Action.{
  Action, Result, ok, err, unauthorized, conflict, db_error, pure, gets, raise, raise_if, modify,
  ◌>>=◌, ◌>>◌,
}
use novax_backend.Common.Table.{find_first, create, update}
use novax_backend.Common.Text.{Text, codes, text_eq, is_text, trim, to_lower}
use novax_backend.Schema.Enums.{Role, KycStatus, DriverMode}
use novax_backend.Schema.Rows.{User, Documents, DriverProfile}
use novax_backend.Schema.Db.{Db}
use novax_backend.Accounts.Phone.{normalise_phone}
use novax_backend.Accounts.Sessions.{Bcrypt, Jwt, Draws, Tokens, issue_tokens}
use novax_backend.Accounts.Codes.{default_user}

-- `RegisterDto`
pub record Register : Type 0 where
  pub phone : Text
  pub email : Text
  pub first_name : Text
  pub last_name : Text
  pub address : Option Text
  pub password : Text
  pub role : Role
  pub license_front_url : Option Text
  pub license_back_url : Option Text

-- `dto.role === "DRIVER" ? "DRIVER" : "RIDER"`
abbrev pub role_of : Role → Role
role_of Role.driver = Role.driver
role_of _ = Role.rider

abbrev pub is_driver : Role → Bool
is_driver Role.driver = true
is_driver _ = false

-- `!passwordHash`
abbrev pub lacks_password : User → Bool
lacks_password u = elim u.password_hash [
  | none ↦ true
  | some h ↦ elim h [ [] ↦ true | c ∷ s ↦ false ]
]

-- `dto.address?.trim() || undefined`
unfoldable pub given : Option Text → Option Text
given none = none
given (some s) = elim (trim s) [ [] ↦ none | c ∷ t ↦ some (c ∷ t) ]

abbrev pub email_of : Register → Text
email_of dto = to_lower (trim dto.email)

-- `OR: [{ phone }, { email }]`
abbrev pub is_taken : Register → (row : ℕ) → User → Bool
is_taken dto _ u = text_eq u.phone (normalise_phone dto.phone) || is_text (email_of dto) u.email

-- The unique key on the e-mail address, for the update of one row.
abbrev pub holds_email : Text → (user row : ℕ) → User → Bool
holds_email email user row u = not (row == user) && is_text email u.email

abbrev pub no_documents : Documents
no_documents = record {
  vehicle_type = codes "bike";
  vehicle_plate = none;
  cnic_number = none;
  cnic_front_url = none;
  cnic_back_url = none;
  license_doc_url = none;
  license_front_url = none;
  license_back_url = none;
  vehicle_doc_url = none;
  vehicle_photo_url = none;
  service_zone = none;
  payout_account_name = none;
  payout_account_number = none;
  emergency_contact_name = none;
  emergency_contact_phone = none;
}

-- A profile with the schema's defaults.
abbrev pub default_profile : Documents → DriverProfile
default_profile documents = record {
  documents = documents;
  submitted_for_review_at = none;
  is_online = false;
  active_mode = DriverMode.ride;
  offers_sent = 0;
  offers_accepted = 0;
  offers_declined = 0;
  trips_cancelled = 0;
  last_offer_at = none;
  last_completed_at = none;
  last_heartbeat_at = none;
}

-- The papers that come with a driver's registration.
abbrev pub licences : Register → Documents
licences dto = record no_documents {
  license_front_url = dto.license_front_url;
  license_back_url = dto.license_back_url;
}

unfoldable pub create_profile : (user : ℕ) → Register → Db → Db
create_profile user dto db =
    if is_driver (role_of dto.role)
    then record db { profiles = create user (default_profile (licences dto)) db.profiles }
    else db

-- `OR: [{ email }, { phone: normalisePhone(raw) }, { phone: raw }]`
abbrev pub is_named : Text → (row : ℕ) → User → Bool
is_named raw _ u =
    is_text (to_lower raw) u.email || text_eq u.phone (normalise_phone raw) || text_eq u.phone raw

module _ (bcrypt : Bcrypt) where
  -- `bcrypt.compare(password, user.passwordHash)`
  abbrev pub knows_password : Text → User → Bool
  knows_password password u = elim u.password_hash [
    | none ↦ false
    | some h ↦ bcrypt.compare password h
  ]

  -- What an account without a password is given.
  unfoldable pub upgraded : Register → (salt : ℕ) → User → User
  unfolding given
  upgraded dto salt u = record u {
    password_hash = some (bcrypt.hash salt dto.password);
    name = some (trim dto.first_name);
    last_name = some (trim dto.last_name);
    email = some (email_of dto);
    address = elim (given dto.address) [ none ↦ u.address | some a ↦ some a ];
  }

  unfoldable pub registered : Register → (salt : ℕ) → User
  unfolding given
  registered dto salt = record (default_user (normalise_phone dto.phone)) {
    email = some (email_of dto);
    name = some (trim dto.first_name);
    last_name = some (trim dto.last_name);
    address = given dto.address;
    password_hash = some (bcrypt.hash salt dto.password);
    role = role_of dto.role;
    kyc_status = if is_driver (role_of dto.role) then KycStatus.pending else KycStatus.approved;
  }

  module _ (jwt : Jwt) where
    -- An account that the one-time codes made is given a password.
    unfoldable pub upgrade : Register → (user : ℕ) → User → Draws → Action Db Tokens
    unfolding upgraded issue_tokens
    upgrade dto user u draws = do
      clash ← gets (λ db. find_first (holds_email (email_of dto) user) db.users)
      raise_if (not (is_none clash)) db_error
      modify (λ db. record db { users = update user (upgraded dto draws.salt) db.users })
      issue_tokens bcrypt jwt user u.role draws

    unfoldable pub register_over :
        Register → (new_user : ℕ) → Draws → Option (ℕ × User) → Action Db Tokens
    unfolding registered create_profile issue_tokens upgrade
    register_over dto new_user draws none = do
      modify (λ db.
          create_profile new_user dto
            (record db { users = create new_user (registered dto draws.salt) db.users }))
      issue_tokens bcrypt jwt new_user (role_of dto.role) draws
    register_over dto new_user draws (some (user, u)) =
        if lacks_password u then upgrade dto user u draws else raise conflict

    unfoldable pub register : Register → (new_user : ℕ) → Draws → Action Db Tokens
    unfolding register_over
    register dto new_user draws = do
      existing ← gets (λ db. find_first (is_taken dto) db.users)
      register_over dto new_user draws existing

    log_in_as : Text → Draws → Option (ℕ × User) → Action Db Tokens
    unfolding issue_tokens
    log_in_as password draws none = raise unauthorized
    log_in_as password draws (some (user, u)) = do
      raise_if (lacks_password u) unauthorized
      raise_if (not u.is_active) unauthorized
      raise_if (not (knows_password password u)) unauthorized
      issue_tokens bcrypt jwt user u.role draws

    unfoldable pub login : (identifier password : Text) → Draws → Action Db Tokens
    unfolding log_in_as
    login identifier password draws = do
      found ← gets (λ db. find_first (is_named (trim identifier)) db.users)
      log_in_as password draws found
