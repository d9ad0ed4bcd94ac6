-- ===== src/Auth/Admin.antt =====
-- The administrator's login: `AuthService.authenticate_admin` and what it calls.
pub mod Laws
pub mod Success
use elp_gemini.Base.{
  Text, codes, text_eq, text_eq_iff, ℕ, zero, suc, ◌+◌, ◌-◌, ◌*◌, ◌/◌, ◌%◌, ◌≤◌, ◌<◌, min, max,
  String, ◌≡◌, refl, sym, ap, subst, ◌∙◌, ◌≢◌, ◌↔◌, ◌⊎◌, inl, inr, Bool, true, false, ◌&&◌, ◌||◌,
  not, Option, none, some, List, [], ◌∷◌, ◌++◌, map, append_assoc, append-nil, arith, ltb, leb,
  ◌==◌, if◌then◌else◌, leb→le, le→leb, ltb→lt, ==_iff, ==_refl, Bool-cases, Option-cases,
  &&-eq-true, is_some, opt_eq, length, get_elem?, filter, any, all, find, count, get_last?,
  order_by, any-append, count-append, filter-append, any-filter, any-order_by, length-order_by,
  length-append, length-filter_le, elem, zip, length-map, List-cases, get_elem?-lt,
}
use elp_gemini.Base.Texts.{truthy}
use elp_gemini.Auth.Policy.{unexpected, returned, refused, Reply}
use elp_gemini.Auth.Users.{User, update_where, has_id, get_user_by_id, get_user_by_username}

pub record AdminLoginResult : Type 0 where
  pub user : Option User
  pub locked : Bool
  pub retry_at : Option ℕ

-- bcrypt, the setting, the clock when the lock is looked at and when an attempt is recorded, and
-- what other requests commit between the two.
pub record Login : Type 0 where
  pub verify_password : Text → Text → Bool
  pub max_attempts : ℕ
  pub checked_at : ℕ
  pub recorded_at : ℕ
  pub meanwhile : List User → List User

unfoldable pub is_account_locked : ℕ → User → Bool
is_account_locked now u = elim u.locked_until [ none ↦ false | some t ↦ ltb now t ]

unfoldable pub soft_failure_cap : ℕ → ℕ
soft_failure_cap max_attempts = max_attempts - 1

-- The SQL condition: `locked_until` is not null and not after now.
unfoldable pub lockout_expired : ℕ → User → Bool
lockout_expired now u = elim u.locked_until [ none ↦ false | some t ↦ leb t now ]

unfoldable pub next_failed_count : ℕ → ℕ → User → ℕ
unfolding soft_failure_cap
next_failed_count max_attempts now u =
    let cap = soft_failure_cap max_attempts in
    if cap == 0
    then 0
    else if lockout_expired now u
    then 1
    else if ltb u.failed_login_count cap
    then u.failed_login_count + 1
    else u.failed_login_count

-- The values of `_record_failed_admin_login`'s UPDATE.
unfoldable pub record_failure : Login → User → User
unfolding next_failed_count
record_failure env u = record u {
  failed_login_count = next_failed_count env.max_attempts env.recorded_at u;
  last_failed_login_at = some env.recorded_at;
  locked_until = if lockout_expired env.recorded_at u then none else u.locked_until;
  updated_at = env.recorded_at;
}

-- The values of `_touch_locked_attempt`'s UPDATE.
unfoldable pub touch_locked : Login → User → User
touch_locked env u = record u {
  last_failed_login_at = some env.recorded_at;
  updated_at = env.recorded_at;
}

-- The values of `_reset_admin_login_counter`'s UPDATE.
unfoldable pub reset_counter : Login → User → User
reset_counter env u = record u {
  failed_login_count = 0;
  locked_until = none;
  last_failed_login_at = none;
  updated_at = env.recorded_at;
}

-- The loaded row has nothing to reset.
unfoldable pub is_reset : User → Bool
is_reset u =
    u.failed_login_count == 0
    && not (is_some u.locked_until)
    && not (is_some u.last_failed_login_at)

abbrev no_login_result : AdminLoginResult
no_login_result = record { user = none; locked = false; retry_at = none }

abbrev pub logged_in : User → AdminLoginResult
logged_in user = record { user = some user; locked = false; retry_at = none }

abbrev pub refreshed : Option User → (User → Reply AdminLoginResult) → Reply AdminLoginResult
refreshed none reply = refused unexpected
refreshed (some row) reply = reply row

-- `execute`, `commit`, `refresh(user)`: a row that is gone cannot be refreshed.
unfoldable pub write_user :
    Login
    → (User → User)
    → User
    → (User → Reply AdminLoginResult)
    → List User
    → Reply AdminLoginResult × List User
write_user env f user reply db =
    let db' = update_where (has_id user.id) f db in
    (refreshed (get_user_by_id db' user.id) reply, db')

-- The log line calls `isoformat` on the refreshed time.
abbrev pub locked_until_reply : Option ℕ → Reply AdminLoginResult
locked_until_reply none = refused unexpected
locked_until_reply (some t) = returned (record { user = none; locked = true; retry_at = some t })

abbrev pub locked_reply : User → Reply AdminLoginResult
locked_reply row = locked_until_reply row.locked_until

unfoldable pub check_password :
    Login → User → Text → Text → List User → Reply AdminLoginResult × List User
unfolding write_user
check_password env user hashed password db =
    if not (env.verify_password password hashed)
    then write_user env (record_failure env) user (λ _. returned no_login_result) db
    else if is_reset user
    then (returned (logged_in user), db)
    else write_user env (reset_counter env) user (λ row. returned (logged_in row)) db

-- An empty hash is none: `if not user.hashed_password`.
unfoldable pub admin_password :
    Login → User → Option Text → Text → List User → Reply AdminLoginResult × List User
unfolding check_password
admin_password env user none password db =
    write_user env (record_failure env) user (λ _. returned no_login_result) db
admin_password env user (some hashed) password db =
    if truthy hashed
    then check_password env user hashed password db
    else write_user env (record_failure env) user (λ _. returned no_login_result) db

-- From step 2 on, with the loaded row. A failure of an unknown id updates the row of id -1, which
-- is none.
unfoldable pub admin_attempt :
    Login → Option User → Text → List User → Reply AdminLoginResult × List User
unfolding admin_password
admin_attempt env none password db = (returned no_login_result, db)
admin_attempt env (some user) password db =
    if not user.is_admin
    then (returned no_login_result, db)
    else if is_account_locked env.checked_at user
    then write_user env (touch_locked env) user locked_reply db
    else admin_password env user user.hashed_password password db

unfoldable pub authenticate_admin :
    Login → Text → Text → List User → Reply AdminLoginResult × List User
unfolding admin_attempt
authenticate_admin env admin_id password db =
    admin_attempt env (get_user_by_username db admin_id) password (env.meanwhile db)
