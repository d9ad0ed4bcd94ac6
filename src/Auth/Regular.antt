-- ===== src/Auth/Regular.antt =====
-- Registration and login of regular users (app/services/auth_service.py).
use elp_gemini.Base.{
  Text, codes, text_eq, text_eq_iff, ℕ, zero, suc, ◌+◌, ◌-◌, ◌*◌, ◌/◌, ◌%◌, ◌≤◌, ◌<◌, min, max,
  String, ◌≡◌, refl, sym, ap, subst, ◌∙◌, ◌≢◌, ◌↔◌, ◌⊎◌, inl, inr, Bool, true, false, ◌&&◌, ◌||◌,
  not, Option, none, some, List, [], ◌∷◌, ◌++◌, map, append_assoc, append-nil, arith, ltb, leb,
  ◌==◌, if◌then◌else◌, leb→le, le→leb, ltb→lt, ==_iff, ==_refl, Bool-cases, Option-cases,
  &&-eq-true, is_some, opt_eq, length, get_elem?, filter, any, all, find, count, get_last?,
  order_by, any-append, count-append, filter-append, any-filter, any-order_by, length-order_by,
  length-append, length-filter_le, elem, zip, length-map, List-cases, get_elem?-lt,
}
pub mod Laws
use elp_gemini.Base.Texts.{truthy}
use elp_gemini.Auth.Policy.{
  unexpected, id_taken, refused, returned, Reply, StrTools, validate_password_strength,
  validate_user_id, normalize_user_id,
}
use elp_gemini.Auth.Users.{User}
use elp_gemini.Auth.Password.{Service}

-- `scalar_one_or_none()` raises when there are several rows.
unfoldable pub scalar_one_or_none : List User → Reply (Option User)
scalar_one_or_none [] = returned none
scalar_one_or_none (u ∷ []) = returned (some u)
scalar_one_or_none (u ∷ v ∷ us) = refused unexpected

abbrev pub has_name : StrTools → Text → User → Bool
has_name tools name u = text_eq (tools.sql_lower u.username) name

abbrev pub is_regular : StrTools → Text → User → Bool
is_regular tools name u = has_name tools name u && not u.is_admin

unfoldable pub get_regular_user_by_username : StrTools → Text → List User → Reply (Option User)
unfolding scalar_one_or_none
get_regular_user_by_username tools user_id db =
    let normalized = normalize_user_id tools (some user_id) in
    if not (truthy normalized)
    then returned none
    else scalar_one_or_none (filter (is_regular tools normalized) db)

unfoldable pub check_hash : Service → User → Option Text → Text → Reply (Option User)
check_hash env user none password = returned none
check_hash env user (some hashed) password =
    if truthy hashed && env.verify_password password (some hashed)
    then returned (some user)
    else returned none

unfoldable pub check_regular : Service → Reply (Option User) → Text → Reply (Option User)
unfolding check_hash
check_regular env (refused e) password = refused e
check_regular env (returned none) password = returned none
check_regular env (returned (some user)) password =
    check_hash env user user.hashed_password password

unfoldable pub authenticate_regular_user_by_username :
    Service → Text → Text → List User → Reply (Option User)
unfolding check_regular get_regular_user_by_username
authenticate_regular_user_by_username env user_id password db =
    check_regular env (get_regular_user_by_username env.tools user_id db) password

unfoldable pub next_user_id : List User → ℕ
next_user_id [] = 1
next_user_id (u ∷ us) = max (u.id + 1) (next_user_id us)

-- The row that `create_user` adds for a registration.
unfoldable pub new_user : Service → Text → Text → ℕ → User
new_user env name password id = record {
  id = id;
  username = name;
  nickname = name;
  hashed_password = if truthy password then some (env.hash_password password) else none;
  is_admin = false;
  failed_login_count = 0;
  locked_until = none;
  last_failed_login_at = none;
  session_version = 0;
  created_at = env.now;
  updated_at = env.now;
}

abbrev pub is_named : Text → User → Bool
is_named name u = text_eq u.username name

-- `create_user` and the commit: the unique index on `username` refuses a name that another request
-- has taken in the meantime.
unfoldable pub insert_user : Service → Text → Text → List User → Reply User × List User
unfolding new_user
insert_user env name password db =
    let user = new_user env name password (next_user_id db) in
    if any (is_named name) db then (refused id_taken, db) else (returned user, db ++ user ∷ [])

-- `UserCreate` validates the password.
unfoldable pub register_checked : Service → Text → Reply Text → List User → Reply User × List User
unfolding insert_user
register_checked env name (refused e) db = (refused e, db)
register_checked env name (returned password) db = insert_user env name password (env.meanwhile db)

-- From the duplicate check on.
unfoldable pub register_found :
    Service → Text → Text → Reply (Option User) → List User → Reply User × List User
unfolding register_checked
register_found env name password (refused e) db = (refused e, db)
register_found env name password (returned (some u)) db = (refused id_taken, db)
register_found env name password (returned none) db =
    register_checked env name (validate_password_strength env.tools password) db

unfoldable pub register_named : Service → Reply Text → Text → List User → Reply User × List User
unfolding register_found
register_named env (refused e) password db = (refused e, db)
register_named env (returned name) password db =
    register_found env name password (scalar_one_or_none (filter (has_name env.tools name) db)) db

unfoldable pub register_regular_user : Service → Text → Text → List User → Reply User × List User
unfolding register_named
register_regular_user env user_id password db =
    register_named env (validate_user_id env.tools (some user_id)) password db
