-- ===== src/Auth/Admin/Laws.antt =====
-- What `authenticate_admin` of app/services/auth_service.py does to the table of users.
use elp_gemini.Auth.Admin.{
  admin_attempt, soft_failure_cap, next_failed_count, reset_counter, is_account_locked, is_reset,
  truthy, touch_locked, Login, record_failure, check_password, admin_password, write_user,
  authenticate_admin,
}
use elp_gemini.Base.{
  Text, ℕ, ◌-◌, ◌≤◌, ◌≡◌, refl, sym, ◌∙◌, inl, inr, Bool, true, false, Option, none, some, List,
  arith, if◌then◌else◌, Bool-cases, Option-cases, find,
}
use elp_gemini.Auth.Users.{
  find-update_some, find-update_none, User, update_where, has_id, get_user_by_username, Every,
  update_where-Every,
}

-- The four ways in which an attempt leaves the table.
data Written (env : Login) (db db' : List User) : Type 0 where
  untouched : db' ≡ db → Written env db db'
  failed : (k : ℕ) → db' ≡ update_where (has_id k) (record_failure env) db → Written env db db'
  touched : (k : ℕ) → db' ≡ update_where (has_id k) (touch_locked env) db → Written env db db'
  cleared : (k : ℕ) → db' ≡ update_where (has_id k) (reset_counter env) db → Written env db db'

check_password-Written :
    (env : Login) (user : User) (hashed password : Text) (db : List User)
    → Written env db (check_password env user hashed password db).1
unfolding check_password write_user
check_password-Written env user hashed password db =
    elim (Bool-cases (env.verify_password password hashed)) [
      | inr bad ↦ rw bad (Written.failed user.id refl)
      | inl good ↦ rw good (elim (Bool-cases (is_reset user)) [
        | inl r ↦ rw r (Written.untouched refl)
        | inr r ↦ rw r (Written.cleared user.id refl)
      ])
    ]

admin_password-Written :
    (env : Login) (user : User) (hash : Option Text) (password : Text) (db : List User)
    → Written env db (admin_password env user hash password db).1
unfolding admin_password write_user
admin_password-Written env user none password db = Written.failed user.id refl
admin_password-Written env user (some hashed) password db = elim (Bool-cases (truthy hashed)) [
  | inl t ↦ rw t (check_password-Written env user hashed password db)
  | inr t ↦ rw t (Written.failed user.id refl)
]

admin_attempt-Written :
    (env : Login) (found : Option User) (password : Text) (db : List User)
    → Written env db (admin_attempt env found password db).1
unfolding admin_attempt write_user
admin_attempt-Written env none password db = Written.untouched refl
admin_attempt-Written env (some user) password db = elim (Bool-cases user.is_admin) [
  | inr a ↦ simp a (Written.untouched refl)
  | inl a ↦ simp a (elim (Bool-cases (is_account_locked env.checked_at user)) [
    | inl l ↦ rw l (Written.touched user.id refl)
    | inr l ↦ rw l (admin_password-Written env user user.hashed_password password db)
  ])
]

authenticate_admin-Written :
    (env : Login) (admin_id password : Text) (db : List User)
    → Written env (env.meanwhile db) (authenticate_admin env admin_id password db).1
unfolding authenticate_admin
authenticate_admin-Written env admin_id password db =
    admin_attempt-Written env (get_user_by_username db admin_id) password (env.meanwhile db)

abbrev pub BelowCap : ℕ → User → Type 0
BelowCap max_attempts u = u.failed_login_count ≤ max_attempts - 1

Written-BelowCap :
    (env : Login) {db db' : List User}
    → Written env db db'
    → Every (BelowCap env.max_attempts) db
    → Every (BelowCap env.max_attempts) db'
unfolding record_failure touch_locked reset_counter next_failed_count soft_failure_cap
Written-BelowCap env (Written.untouched h) e = rw h e
Written-BelowCap env {db = db} (Written.failed k h) e = rw h (
    update_where-Every (BelowCap env.max_attempts) (has_id k) (record_failure env) db
      (λ u x. ground arith) e)
Written-BelowCap env {db = db} (Written.touched k h) e =
    rw h
      (update_where-Every (BelowCap env.max_attempts) (has_id k) (touch_locked env) db (λ u x. x) e)
Written-BelowCap env {db = db} (Written.cleared k h) e = rw h (
    update_where-Every (BelowCap env.max_attempts) (has_id k) (reset_counter env) db
      (λ u x. omega arith) e)

-- An attempt, failed or not, keeps every counter of failures below the number that would lock the
-- account, if other requests do.
pub failures_stay_below_limit :
    (env : Login) (admin_id password : Text) (db : List User)
    → ((us : List User)
        → Every (BelowCap env.max_attempts) us
        → Every (BelowCap env.max_attempts) (env.meanwhile us))
    → Every (BelowCap env.max_attempts) db
    → Every (BelowCap env.max_attempts) (authenticate_admin env admin_id password db).1
failures_stay_below_limit env admin_id password db others e =
    Written-BelowCap env (authenticate_admin-Written env admin_id password db) (others db e)

-- What each update does to a row's time of release.
abbrev pub Unlocking : (User → User) → Type 0
Unlocking f = (u : User) (t : ℕ) → (f u).locked_until ≡ some t → u.locked_until ≡ some t

-- A row after the update stands for one before it, with the same lock if it has one.
abbrev pub LockFrom : ℕ → ℕ → List User → Type 0
LockFrom k t db = (u : User) × (find (has_id k) db ≡ some u) × (u.locked_until ≡ some t)

picked-locked :
    (f : User → User) (b : Bool) (u u' : User) (t : ℕ)
    → Unlocking f
    → some (if b then f u else u) ≡ some u'
    → u'.locked_until ≡ some t
    → u.locked_until ≡ some t
picked-locked f true u u' t un e l = un u t (cc)
picked-locked f false u u' t un e l = cc

update-LockFrom :
    (f : User → User) (p : User → Bool) (db : List User) (k : ℕ) (u' : User) (t : ℕ)
    → ((u : User) → (f u).id ≡ u.id)
    → Unlocking f
    → find (has_id k) (update_where p f db) ≡ some u'
    → u'.locked_until ≡ some t
    → LockFrom k t db
update-LockFrom f p db k u' t ids un found l = elim (Option-cases (find (has_id k) db)) [
  | inl h ↦ cc (find-update_none p f db k ids h)
  | inr (u, h) ↦
      (u, h, picked-locked f (p u) u u' t un (sym (find-update_some p f db k u ids h) ∙ found) l)
]

Written-LockFrom :
    (env : Login) {db db' : List User} (k t : ℕ) (u' : User)
    → Written env db db'
    → find (has_id k) db' ≡ some u'
    → u'.locked_until ≡ some t
    → LockFrom k t db
unfolding record_failure touch_locked reset_counter
Written-LockFrom env k t u' (Written.untouched h) found l = (u', rw⁻¹ h found, l)
Written-LockFrom env {db = db} k t u' (Written.failed i h) found l =
    update-LockFrom (record_failure env) (has_id i) db k u' t (λ u. refl) (λ u n x. ground arith)
      (rw⁻¹ h found) l
Written-LockFrom env {db = db} k t u' (Written.touched i h) found l =
    update-LockFrom (touch_locked env) (has_id i) db k u' t (λ u. refl) (λ u n x. x) (rw⁻¹ h found)
      l
Written-LockFrom env {db = db} k t u' (Written.cleared i h) found l =
    update-LockFrom (reset_counter env) (has_id i) db k u' t (λ u. refl) (λ u n x. cc)
      (rw⁻¹ h found) l

-- A public attempt never locks an account: whoever is locked after it was locked until the same time
-- before its write.
pub login_never_locks :
    (env : Login) (admin_id password : Text) (db : List User) (k t : ℕ) (u' : User)
    → find (has_id k) (authenticate_admin env admin_id password db).1 ≡ some u'
    → u'.locked_until ≡ some t
    → LockFrom k t (env.meanwhile db)
login_never_locks env admin_id password db k t u' found l =
    Written-LockFrom env k t u' (authenticate_admin-Written env admin_id password db) found l
