-- ===== src/Auth/Tests.antt =====
-- A table of two accounts, on which the service is run and the theorems are applied.
use elp_gemini.Auth.Admin.{
  reset_counter, lockout_expired, is_reset, record_failure, is_account_locked, authenticate_admin,
  Login,
}
use elp_gemini.Auth.Password.{
  is_returned, revoke_sessions_if_current, Service, session_version_matches, change_own_password,
}
use elp_gemini.Auth.Regular.{
  next_user_id, scalar_one_or_none, register_regular_user, authenticate_regular_user_by_username,
  new_user,
}
use elp_gemini.Base.{
  Text, codes, text_eq, ℕ, ◌+◌, ◌≡◌, refl, Bool, true, false, ◌&&◌, ◌||◌, Option, none, some, List,
  [], ◌∷◌, map, arith, leb, ◌==◌, if◌then◌else◌, any, all, find,
}
use elp_gemini.Auth.Policy.{
  KeepIds, StrTools, is_id_char, is_reserved, matches_id, normalize_user_id, returned,
  validate_password_strength, validate_user_id,
}
use elp_gemini.Auth.Users.{
  Every, User, get_user_by_id, get_user_by_username, has_id, rowcount, update_where,
}
use elp_gemini.Auth.Admin.Laws.{BelowCap, LockFrom, failures_stay_below_limit, login_never_locks}
use elp_gemini.Auth.Admin.Success.{Proven, named, admin_login_sound}
use elp_gemini.Auth.Password.Laws.{revoked_cookie_fails, own_password_once}
use elp_gemini.Auth.Regular.Laws.{register_then_login}

abbrev lower_char : ℕ → ℕ
lower_char c = if leb 65 c && leb c 90 then c + 32 else c

abbrev drop_spaces : Text → Text
drop_spaces [] = []
drop_spaces (c ∷ cs) = let rest = drop_spaces cs in if c == 32 then rest else c ∷ cs

abbrev tools : StrTools
tools = record {
  strip = drop_spaces;
  lower = map lower_char;
  sql_lower = map lower_char;
  isalpha = λ c. leb 97 c && leb c 122 || leb 65 c && leb c 90;
  isdigit = λ c. leb 48 c && leb c 57;
}

lower_keeps : (s : Text) → all is_id_char s ≡ true → map lower_char s ≡ s
lower_keeps [] h = refl
lower_keeps (c ∷ cs) h = ground (arith, lower_keeps cs)

strip_keeps : (s : Text) → all is_id_char s ≡ true → drop_spaces s ≡ s
strip_keeps [] h = refl
strip_keeps (c ∷ cs) h = ground arith

keep_ids : KeepIds tools
keep_ids = record { strip = strip_keeps; lower = lower_keeps; sql_lower = lower_keeps }

-- A hash that marks its password.
abbrev hash : Text → Text
hash p = 36 ∷ p

abbrev fits_stored : Text → Option Text → Bool
fits_stored p none = false
fits_stored p (some h) = text_eq (hash p) h

abbrev service : Service
service = record {
  tools = tools;
  verify_password = fits_stored;
  hash_password = hash;
  now = 50;
  meanwhile = λ us. us;
}

abbrev login : Login
login = record {
  verify_password = λ p h. text_eq (hash p) h;
  max_attempts = 5;
  checked_at = 49;
  recorded_at = 50;
  meanwhile = λ us. us;
}

abbrev account : ℕ → Text → Bool → Option ℕ → User
account id name is_admin locked_until = record {
  id = id;
  username = name;
  nickname = name;
  hashed_password = some (hash (codes "secret12"));
  is_admin = is_admin;
  failed_login_count = 4;
  locked_until = locked_until;
  last_failed_login_at = none;
  session_version = 3;
  created_at = 1;
  updated_at = 1;
}

abbrev users : List User
users = account 1 (codes "boss") true none ∷ account 2 (codes "kim") false (some 90) ∷ []

users-BelowCap : Every (BelowCap 5) users
users-BelowCap = Every.row (omega arith) (Every.row (omega arith) Every.no_rows)

-- Another wrong password leaves the counter at four.
still_four :
    map User.failed_login_count (authenticate_admin login (codes "boss") (codes "wrong") users).1
    ≡ 4 ∷ 4 ∷ []
unfolding authenticate_admin get_user_by_username is_account_locked update_where record_failure
    lockout_expired
still_four = refl

again_valid : validate_user_id tools (some (codes " Lee7")) ≡ returned (codes "lee7")
unfolding validate_user_id matches_id is_reserved
again_valid = refl

failures_stay_below_limit_example :
    Every (BelowCap 5) (authenticate_admin login (codes "boss") (codes "wrong") users).1
failures_stay_below_limit_example =
    failures_stay_below_limit login (codes "boss") (codes "wrong") users (λ us e. e) users-BelowCap

abbrev kim_after : User
kim_after = account 2 (codes "kim") false (some 90)

kim_found :
    find (has_id 2) (authenticate_admin login (codes "boss") (codes "wrong") users).1
    ≡ some kim_after
unfolding authenticate_admin get_user_by_username is_account_locked update_where record_failure
kim_found = refl

login_never_locks_example : LockFrom 2 90 users
login_never_locks_example =
    login_never_locks login (codes "boss") (codes "wrong") users 2 90 kim_after kim_found refl

abbrev boss_after : User
boss_after = record (account 1 (codes "boss") true none) { failed_login_count = 0; updated_at = 50 }

boss_named :
    named (authenticate_admin login (codes "boss") (codes "secret12") users).0 ≡ some boss_after
unfolding authenticate_admin get_user_by_username is_account_locked is_reset get_user_by_id
    update_where reset_counter
boss_named = refl

admin_login_sound_example :
    (loaded : User) × (elp_gemini.Auth.Users.get_user_by_username users (codes "boss")
      ≡ some loaded)
    × (boss_after.id ≡ loaded.id)
    × Proven login loaded (codes "secret12")
admin_login_sound_example =
    admin_login_sound login (codes "boss") (codes "secret12") users boss_after boss_named

revoked_cookie_fails_example :
    any
      (λ u. has_id 2 u && session_version_matches u (some 3))
      (revoke_sessions_if_current 60 2 (some 3) users).1
    ≡ false
revoked_cookie_fails_example = revoked_cookie_fails 60 2 (some 3) users

kim_changes :
    (change_own_password service kim_after (codes "secret12") (codes "other345") users).0
    ≡ returned 4
unfolding change_own_password validate_password_strength rowcount
kim_changes = refl

own_password_once_example :
    (is_returned
        (change_own_password service kim_after
          (codes "secret12")
          (codes "third678")
          (change_own_password service kim_after (codes "secret12") (codes "other345") users).1).0
      ≡ false)
    × ((change_own_password service kim_after
          (codes "secret12")
          (codes "third678")
          (change_own_password service kim_after (codes "secret12") (codes "other345") users).1).1
        ≡ (change_own_password service kim_after (codes "secret12") (codes "other345") users).1)
own_password_once_example =
    own_password_once service service kim_after (codes "secret12") (codes "other345")
      (codes "secret12") (codes "third678") users 4 kim_changes

abbrev lee : User
lee = new_user service (codes "lee7") (codes "lesson12") 3

lee_registers :
    (register_regular_user service (codes " Lee7") (codes "lesson12") users).0 ≡ returned lee
unfolding register_regular_user validate_user_id matches_id is_reserved scalar_one_or_none
    validate_password_strength next_user_id
lee_registers = refl

lee_normalized : normalize_user_id tools (some (codes "LEE7")) ≡ lee.username
unfolding normalize_user_id new_user
lee_normalized = refl

register_then_login_example :
    authenticate_regular_user_by_username service
      (codes "LEE7")
      (codes "lesson12")
      (register_regular_user service (codes " Lee7") (codes "lesson12") users).1
    ≡ returned (some lee)
register_then_login_example =
    register_then_login service keep_ids (codes " Lee7") (codes "LEE7") (codes "lesson12") users lee
      refl refl refl lee_registers lee_normalized
