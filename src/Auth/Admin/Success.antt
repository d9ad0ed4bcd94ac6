-- ===== src/Auth/Admin/Success.antt =====
-- When `authenticate_admin` of app/services/auth_service.py names a user.
use elp_gemini.Auth.Admin.{
  logged_in, reset_counter, is_reset, touch_locked, locked_until_reply, refreshed, record_failure,
  refused, no_login_result, is_account_locked, returned, AdminLoginResult, authenticate_admin,
  admin_attempt, admin_password, check_password, locked_reply, write_user, Login,
}
use elp_gemini.Base.{
  some_inj, find, [], ◌∷◌, ◌==◌, ==_iff, Text, ℕ, ◌≡◌, refl, sym, ap, ◌∙◌, inl, inr, true, false,
  Option, none, some, List, Bool-cases,
}
use elp_gemini.Base.Texts.{truthy}
use elp_gemini.Auth.Policy.{Reply}
use elp_gemini.Auth.Users.{User, has_id, get_user_by_id, update_where, get_user_by_username}

-- The loaded row is an administrator's, not locked, with a hash that fits the password.
pub record Proven (env : Login) (loaded : User) (password : Text) : Type 0 where
  pub hashed : Text
  pub admin : loaded.is_admin ≡ true
  pub unlocked : is_account_locked env.checked_at loaded ≡ false
  pub has_hash : loaded.hashed_password ≡ some hashed
  pub fits : env.verify_password password hashed ≡ true

-- The user whom a reply names.
abbrev pub named : Reply AdminLoginResult → Option User
named (refused e) = none
named (returned r) = r.user

-- The row that is refreshed has the id of the loaded one.
find-id : (k : ℕ) (us : List User) (u : User) → find (has_id k) us ≡ some u → u.id ≡ k
find-id k [] u h = cc
find-id k (x ∷ xs) u h = elim (Bool-cases (x.id == k)) [
  | inl y ↦ ap (λ (z : User). z.id) (sym (some_inj (rw y at h))) ∙ (==_iff x.id k).0 y
  | inr n ↦ find-id k xs u (rw n at h)
]

refreshed-id :
    (found : Option User) (k : ℕ) (u : User)
    → ((row : User) → found ≡ some row → row.id ≡ k)
    → named (refreshed found (λ row. returned (logged_in row))) ≡ some u
    → u.id ≡ k
refreshed-id none k u found h = cc
refreshed-id (some row) k u found h = ap (λ (z : User). z.id) (sym (some_inj h)) ∙ found row refl

never {ℓ} : {B : Type ℓ} {o : Option User} {u : User} → o ≡ none → o ≡ some u → B
never h k = cc

refreshed-none :
    (found : Option User) (reply : User → Reply AdminLoginResult)
    → ((row : User) → named (reply row) ≡ none)
    → named (refreshed found reply) ≡ none
refreshed-none none reply silent = refl
refreshed-none (some row) reply silent = silent row

write_user-none :
    (env : Login) (f : User → User) (user : User) (reply : User → Reply AdminLoginResult)
    (db : List User)
    → ((row : User) → named (reply row) ≡ none)
    → named (write_user env f user reply db).0 ≡ none
unfolding write_user
write_user-none env f user reply db silent = refreshed-none _ reply silent

write_user-id :
    (env : Login) (f : User → User) (user : User) (db : List User) (u : User)
    → named (write_user env f user (λ row. returned (logged_in row)) db).0 ≡ some u
    → u.id ≡ user.id
unfolding write_user get_user_by_id
write_user-id env f user db u n =
    refreshed-id (find (has_id user.id) (update_where (has_id user.id) f db)) user.id u
      (find-id user.id (update_where (has_id user.id) f db)) n

locked_until_reply-none : (o : Option ℕ) → named (locked_until_reply o) ≡ none
locked_until_reply-none none = refl
locked_until_reply-none (some t) = refl

check_password-fits :
    (env : Login) (user : User) (hashed password : Text) (db : List User) (u : User)
    → named (check_password env user hashed password db).0 ≡ some u
    → (env.verify_password password hashed ≡ true) × (u.id ≡ user.id)
unfolding check_password
check_password-fits env user hashed password db u n =
    elim (Bool-cases (env.verify_password password hashed)) [
      | inl good ↦ (
        good,
        elim (Bool-cases (is_reset user)) [
          | inl y ↦ ap (λ (z : User). z.id) (sym (some_inj (rw (good, y) at n)))
          | inr o ↦ write_user-id env (reset_counter env) user db u (rw (good, o) at n)
        ],
      )
      | inr bad ↦
          never
            (write_user-none env (record_failure env) user (λ _. returned no_login_result) db
              (λ _. refl))
            (rw bad at n)
    ]

admin_password-fits :
    (env : Login) (user : User) (hash : Option Text) (password : Text) (db : List User) (u : User)
    → named (admin_password env user hash password db).0 ≡ some u
    → (hashed : Text) × (hash ≡ some hashed)
      × (env.verify_password password hashed ≡ true)
      × (u.id ≡ user.id)
unfolding admin_password
admin_password-fits env user none password db u n =
    never
      (write_user-none env (record_failure env) user (λ _. returned no_login_result) db (λ _. refl))
      n
admin_password-fits env user (some hashed) password db u n = elim (Bool-cases (truthy hashed)) [
  | inl t ↦
      let (good, same) = check_password-fits env user hashed password db u (rw t at n) in
      (hashed, refl, good, same)
  | inr t ↦
      never
        (write_user-none env (record_failure env) user (λ _. returned no_login_result) db
          (λ _. refl))
        (rw t at n)
]

module _ (env : Login) (user : User) (password : Text) (db : List User) where
  not_admin-none :
      user.is_admin ≡ false → named (admin_attempt env (some user) password db).0 ≡ none
  unfolding admin_attempt
  not_admin-none a = simp a refl

  locked-none :
      user.is_admin ≡ true
      → is_account_locked env.checked_at user ≡ true
      → named (admin_attempt env (some user) password db).0 ≡ none
  unfolding admin_attempt
  locked-none a l =
      simp (a, l)
        (write_user-none env (touch_locked env) user locked_reply db
          (λ row. locked_until_reply-none row.locked_until))

  open-eq :
      user.is_admin ≡ true
      → is_account_locked env.checked_at user ≡ false
      → admin_attempt env (some user) password db
        ≡ admin_password env user user.hashed_password password db
  unfolding admin_attempt
  open-eq a l = simp (a, l) refl

admin_attempt-Proven :
    (env : Login) (found : Option User) (password : Text) (db : List User) (u : User)
    → named (admin_attempt env found password db).0 ≡ some u
    → (loaded : User) × (found ≡ some loaded) × (u.id ≡ loaded.id) × Proven env loaded password
unfolding admin_attempt
admin_attempt-Proven env none password db u n = cc n
admin_attempt-Proven env (some user) password db u n = elim (Bool-cases user.is_admin) [
  | inr a ↦ never (not_admin-none env user password db a) n
  | inl a ↦ elim (Bool-cases (is_account_locked env.checked_at user)) [
    | inl l ↦ never (locked-none env user password db a l) n
    | inr l ↦
        let fits =
          admin_password-fits env user user.hashed_password password db u
            (ap (λ x. named x.0) (sym (open-eq env user password db a l)) ∙ n) in
        (
          user,
          refl,
          fits.3,
          record { hashed = fits.0; admin = a; unlocked = l; has_hash = fits.1; fits = fits.2 },
        )
  ]
]

-- A login that names a user was made with a password that fits the hash of the administrator of that
-- username, and while the account was not locked; the user named has that administrator's id.
pub admin_login_sound :
    (env : Login) (admin_id password : Text) (db : List User) (u : User)
    → named (authenticate_admin env admin_id password db).0 ≡ some u
    → (loaded : User) × (get_user_by_username db admin_id ≡ some loaded)
      × (u.id ≡ loaded.id)
      × Proven env loaded password
unfolding authenticate_admin
admin_login_sound env admin_id password db u h =
    admin_attempt-Proven env (get_user_by_username db admin_id) password (env.meanwhile db) u h
