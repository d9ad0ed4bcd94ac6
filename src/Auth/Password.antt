-- ===== src/Auth/Password.antt =====
-- Sessions and changes of passwords: the second half of `AuthService`.
pub mod Laws
use elp_gemini.Base.{
  Text, codes, text_eq, text_eq_iff, ℕ, zero, suc, ◌+◌, ◌-◌, ◌*◌, ◌/◌, ◌%◌, ◌≤◌, ◌<◌, min, max,
  String, ◌≡◌, refl, sym, ap, subst, ◌∙◌, ◌≢◌, ◌↔◌, ◌⊎◌, inl, inr, Bool, true, false, ◌&&◌, ◌||◌,
  not, Option, none, some, List, [], ◌∷◌, ◌++◌, map, append_assoc, append-nil, arith, ltb, leb,
  ◌==◌, if◌then◌else◌, leb→le, le→leb, ltb→lt, ==_iff, ==_refl, Bool-cases, Option-cases,
  &&-eq-true, is_some, opt_eq, length, get_elem?, filter, any, all, find, count, get_last?,
  order_by, any-append, count-append, filter-append, any-filter, any-order_by, length-order_by,
  length-append, length-filter_le, elem, zip, length-map, List-cases, get_elem?-lt,
}
use elp_gemini.Auth.Policy.{
  no_login, user_is_admin, wrong_password, user_not_found, unexpected, changed_elsewhere, refused,
  returned, Reply, StrTools, validate_password_strength, validate_user_id,
}
use elp_gemini.Auth.Users.{
  User, update_where, has_id, get_user_by_id, rowcount, update_where-none, update_where-id,
  rowcount-zero,
}

-- Python's and bcrypt's functions, the clock, and what other requests commit while bcrypt works.
pub record Service : Type 0 where
  pub tools : StrTools
  pub verify_password : Text → Option Text → Bool
  pub hash_password : Text → Text
  pub now : ℕ
  pub meanwhile : List User → List User

-- `session_version or 0`
abbrev pub or_zero : Option ℕ → ℕ
or_zero none = 0
or_zero (some v) = v

unfoldable pub session_version_matches : User → Option ℕ → Bool
session_version_matches u session_version = or_zero session_version == u.session_version

unfoldable pub is_current : ℕ → Option ℕ → User → Bool
is_current user_id session_version u =
    has_id user_id u && u.session_version == or_zero session_version

unfoldable pub bump_version : ℕ → User → User
bump_version now u = record u { session_version = u.session_version + 1; updated_at = now }

unfoldable pub revoke_sessions_if_current : ℕ → ℕ → Option ℕ → List User → Bool × List User
unfolding is_current bump_version
revoke_sessions_if_current now user_id session_version db =
    let current = is_current user_id session_version in
    (rowcount current db == 1, update_where current (bump_version now) db)

-- The attributes that the session writes back are those that differ from what it had loaded.
unfoldable pub set_password : Service → User → Text → User → User
set_password env loaded password row = record row {
  hashed_password = some (env.hash_password password);
  failed_login_count = if loaded.failed_login_count == 0 then row.failed_login_count else 0;
  locked_until = if is_some loaded.locked_until then none else row.locked_until;
  last_failed_login_at =
      if is_some loaded.last_failed_login_at then none else row.last_failed_login_at;
  session_version = row.session_version + 1;
  updated_at = env.now;
}

-- An update of a row that is gone is an error.
unfoldable pub write_password : Service → User → Text → List User → Reply User × List User
unfolding set_password
write_password env loaded password db =
    let db' = update_where (has_id loaded.id) (set_password env loaded password) db in
    elim (get_user_by_id db' loaded.id) [
      | none ↦ (refused unexpected, db)
      | some row ↦ (returned row, db')
    ]

abbrev pub is_returned {ℓ} : {B : Type ℓ} → Reply B → Bool
is_returned (refused e) = false
is_returned (returned b) = true

unfoldable pub is_login_capable : StrTools → User → Bool
is_login_capable tools u = is_returned (validate_user_id tools (some u.username))

unfoldable pub admin_set_checked : Service → Option User → Text → List User → Reply User × List User
unfolding write_password is_login_capable
admin_set_checked env none password db = (refused user_not_found, db)
admin_set_checked env (some user) password db =
    if user.is_admin
    then (refused user_is_admin, db)
    else if not (is_login_capable env.tools user)
    then (refused no_login, db)
    else write_password env user password (env.meanwhile db)

unfoldable pub admin_set_user_password : Service → ℕ → Text → List User → Reply User × List User
unfolding admin_set_checked
admin_set_user_password env user_id new_password db =
    elim (validate_password_strength env.tools new_password) [
      | refused e ↦ (refused e, db)
      | returned password ↦ admin_set_checked env (get_user_by_id db user_id) password db
    ]

abbrev pub same_hash : Option Text → Option Text → Bool
same_hash none none = true
same_hash none (some h) = false
same_hash (some g) none = false
same_hash (some g) (some h) = text_eq g h

-- The row is as the request had loaded it.
unfoldable pub unchanged : User → User → Bool
unchanged user row =
    has_id user.id row
    && row.session_version == user.session_version
    && same_hash row.hashed_password user.hashed_password

unfoldable pub set_own_password : Service → User → Text → User → User
set_own_password env user password row = record row {
  hashed_password = some (env.hash_password password);
  failed_login_count = 0;
  locked_until = none;
  last_failed_login_at = none;
  session_version = user.session_version + 1;
  updated_at = env.now;
}

unfoldable pub swap_password : Service → User → Text → List User → Reply ℕ × List User
unfolding unchanged set_own_password
swap_password env user password db =
    let db' = update_where (unchanged user) (set_own_password env user password) db in
    if rowcount (unchanged user) db == 1
    then (returned (user.session_version + 1), db')
    else (refused changed_elsewhere, db)

unfoldable pub change_checked : Service → User → Reply Text → List User → Reply ℕ × List User
unfolding swap_password
change_checked env user (refused e) db = (refused e, db)
change_checked env user (returned password) db = swap_password env user password db

-- `user` is as the request had loaded it; the tables may be newer.
unfoldable pub change_own_password : Service → User → Text → Text → List User → Reply ℕ × List User
unfolding change_checked
change_own_password env user current_password new_password db =
    if not (env.verify_password current_password user.hashed_password)
    then (refused wrong_password, db)
    else change_checked env user (validate_password_strength env.tools new_password) db
