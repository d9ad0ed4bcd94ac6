-- ===== src/Auth/Password/Laws.antt =====
-- `revoke_sessions_if_current` and `change_own_password` of app/services/auth_service.py.
use elp_gemini.Auth.Password.{
  refused, change_checked, set_own_password, is_returned, returned, swap_password, unchanged,
  change_own_password, bump_version, revoke_sessions_if_current, Service, is_current,
  session_version_matches,
}
use elp_gemini.Base.{
  Text, ℕ, ◌≡◌, refl, inl, inr, true, false, ◌&&◌, Option, List, arith, ◌==◌, Bool-cases, any,
}
use elp_gemini.Auth.Policy.{Reply, validate_password_strength}
use elp_gemini.Auth.Users.{
  update_where-gone, User, update_where, has_id, rowcount, update_where-none, update_where-id,
  rowcount-zero,
}

module _ (now user_id : ℕ) (session_version : Option ℕ) where
  -- After a logout no row of the user accepts the cookie any more.
  pub revoked_cookie_fails :
      (db : List User)
      → any
          (λ u. has_id user_id u && session_version_matches u session_version)
          (revoke_sessions_if_current now user_id session_version db).1
        ≡ false
  unfolding revoke_sessions_if_current session_version_matches is_current bump_version
  revoked_cookie_fails db =
      update_where-gone (is_current user_id session_version)
        (λ u. has_id user_id u && session_version_matches u session_version) (bump_version now) db
        (λ u h. ground arith) (λ u h. ground arith)

  -- Logging out again with the same cookie revokes nothing and changes nothing.
  pub revoke_twice :
      (later : ℕ) (db : List User)
      → (revoke_sessions_if_current later user_id session_version
          (revoke_sessions_if_current now user_id session_version db).1)
        ≡ (false, (revoke_sessions_if_current now user_id session_version db).1)
  unfolding revoke_sessions_if_current is_current bump_version
  revoke_twice later db =
      let us = update_where (is_current user_id session_version) (bump_version now) db in
      let gone : any (is_current user_id session_version) us ≡ false =
        update_where-none (is_current user_id session_version) (bump_version now) db
          (λ u h. ground arith) in
      rw (rowcount-zero (is_current user_id session_version) us gone) (
        rw (update_where-id (is_current user_id session_version) (bump_version later) us gone) refl)

module _ (env env' : Service) (user : User) where
  set-undone :
      (password : Text) (u : User)
      → unchanged user u ≡ true
      → unchanged user (set_own_password env user password u) ≡ false
  unfolding unchanged set_own_password
  set-undone password u h = ground arith

  swapped-none :
      (password : Text) (db : List User) (v : ℕ)
      → (swap_password env user password db).0 ≡ returned v
      → any (unchanged user) (swap_password env user password db).1 ≡ false
  unfolding swap_password
  swapped-none password db v h = elim (Bool-cases (rowcount (unchanged user) db == 1)) [
    | inl y ↦ rw y (
        update_where-none (unchanged user) (set_own_password env user password) db
          (set-undone password))
    | inr n ↦ ground arith
  ]

  checked-none :
      (r : Reply Text) (db : List User) (v : ℕ)
      → (change_checked env user r db).0 ≡ returned v
      → any (unchanged user) (change_checked env user r db).1 ≡ false
  unfolding change_checked
  checked-none (refused e) db v h = cc
  checked-none (returned password) db v h = swapped-none password db v h

  changed-none :
      (current new : Text) (db : List User) (v : ℕ)
      → (change_own_password env user current new db).0 ≡ returned v
      → any (unchanged user) (change_own_password env user current new db).1 ≡ false
  unfolding change_own_password
  changed-none current new db v h =
      elim (Bool-cases (env.verify_password current user.hashed_password)) [
        | inl y ↦ rw y (checked-none (validate_password_strength env.tools new) db v (rw y at h))
        | inr n ↦ ground arith
      ]

  stale-checked :
      (r : Reply Text) (db : List User)
      → any (unchanged user) db ≡ false
      → (is_returned (change_checked env' user r db).0 ≡ false)
        × ((change_checked env' user r db).1 ≡ db)
  unfolding change_checked swap_password
  stale-checked (refused e) db none_left = (refl, refl)
  stale-checked (returned password) db none_left =
      rw (rowcount-zero (unchanged user) db none_left) (refl, refl)

  stale-refused :
      (current new : Text) (db : List User)
      → any (unchanged user) db ≡ false
      → (is_returned (change_own_password env' user current new db).0 ≡ false)
        × ((change_own_password env' user current new db).1 ≡ db)
  unfolding change_own_password
  stale-refused current new db none_left =
      elim (Bool-cases (env'.verify_password current user.hashed_password)) [
        | inl y ↦ rw y (stale-checked (validate_password_strength env'.tools new) db none_left)
        | inr n ↦ rw n (refl, refl)
      ]

  -- Two requests that loaded the same row: if the first changes the password, the second is refused
  -- and changes nothing, whatever passwords it sends.
  pub own_password_once :
      (current new current' new' : Text) (db : List User) (v : ℕ)
      → (change_own_password env user current new db).0 ≡ returned v
      → (is_returned
            (change_own_password env' user current' new'
              (change_own_password env user current new db).1).0
          ≡ false)
        × ((change_own_password env' user current' new'
              (change_own_password env user current new db).1).1
            ≡ (change_own_password env user current new db).1)
  own_password_once current new current' new' db v h =
      stale-refused current' new' (change_own_password env user current new db).1
        (changed-none current new db v h)
