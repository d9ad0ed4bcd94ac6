-- ===== src/Auth/Regular/Laws.antt =====
-- Registration followed by a login (app/services/auth_service.py).
use elp_gemini.Auth.Regular.{
  register_named, check_hash, register_checked, next_user_id, scalar_one_or_none,
  register_regular_user, check_regular, new_user, get_regular_user_by_username, is_regular,
  authenticate_regular_user_by_username, register_found, is_named, insert_user,
}
use elp_gemini.Base.{
  Text, text_eq, text_eq_iff, ℕ, ◌≤◌, ◌≡◌, refl, sym, ap, ◌∙◌, inl, inr, Bool, true, false, ◌||◌,
  Option, none, some, List, [], ◌∷◌, ◌++◌, arith, Bool-cases, length, filter, any, all,
  filter-append,
}
use elp_gemini.Base.Texts.{truthy}
use elp_gemini.Auth.Policy.{
  refused, returned, Reply, KeepIds, StrTools, validate_password_strength, validate_user_id,
  normalize_user_id, validate_user_id-normalized, matches_id, matches_id-chars,
}
use elp_gemini.Auth.Users.{User}
use elp_gemini.Auth.Password.{Service}

-- What a registration that returns `u` has done to the table.
record Registered (env : Service) (password : Text) (u : User) (db db' : List User) : Type 0 where
  name : Text
  id : ℕ
  row : u ≡ new_user env name password id
  added : db' ≡ db ++ u ∷ []
  free : any (is_named name) db ≡ false
  matches : matches_id name ≡ true
  long : truthy password ≡ true

returned-inj : {B : Type 0} {a b : B} → ◌≡◌ {A = Reply B} (returned a) (returned b) → a ≡ b
returned-inj h = cc

insert_user-Registered :
    (env : Service) (name password : Text) (db : List User) (u : User)
    → matches_id name ≡ true
    → truthy password ≡ true
    → (insert_user env name password db).0 ≡ returned u
    → Registered env password u db (insert_user env name password db).1
unfolding insert_user
insert_user-Registered env name password db u m l h = elim (Bool-cases (any (is_named name) db)) [
  | inl y ↦ ground arith
  | inr n ↦
      let row = sym (returned-inj (rw n at h)) in
      rw n (record {
        name = name;
        id = next_user_id db;
        row = row;
        added = rw row refl;
        free = n;
        matches = m;
        long = l;
      })
]

validated-long :
    (tools : StrTools) (password checked : Text)
    → validate_password_strength tools password ≡ returned checked
    → (checked ≡ password) × (truthy password ≡ true)
unfolding validate_password_strength
validated-long tools [] checked h = ground arith
validated-long tools (c ∷ cs) checked h = ground arith

register_checked-Registered :
    (env : Service) (name password : Text) (r : Reply Text) (db : List User) (u : User)
    → matches_id name ≡ true
    → r ≡ validate_password_strength env.tools password
    → (register_checked env name r db).0 ≡ returned u
    → Registered env password u (env.meanwhile db) (register_checked env name r db).1
unfolding register_checked
register_checked-Registered env name password (refused e) db u m v h = cc
register_checked-Registered env name password (returned checked) db u m v h =
    let ok = validated-long env.tools password checked (sym v) in
    rw ok.0 (insert_user-Registered env name password (env.meanwhile db) u m ok.1 (rw ok.0 at h))

register_found-Registered :
    (env : Service) (name password : Text) (found : Reply (Option User)) (db : List User) (u : User)
    → matches_id name ≡ true
    → (register_found env name password found db).0 ≡ returned u
    → Registered env password u (env.meanwhile db) (register_found env name password found db).1
unfolding register_found
register_found-Registered env name password (refused e) db u m h = cc
register_found-Registered env name password (returned (some w)) db u m h = cc
register_found-Registered env name password (returned none) db u m h =
    register_checked-Registered env name password (validate_password_strength env.tools password) db
      u m refl h

register_named-Registered :
    (env : Service) (value : Option Text) (r : Reply Text) (password : Text) (db : List User)
    (u : User)
    → r ≡ validate_user_id env.tools value
    → (register_named env r password db).0 ≡ returned u
    → Registered env password u (env.meanwhile db) (register_named env r password db).1
unfolding register_named
register_named-Registered env value (refused e) password db u v h = cc
register_named-Registered env value (returned name) password db u v h =
    register_found-Registered env name password _ db u
      (validate_user_id-normalized env.tools value name (sym v)).1 h

-- The names of regular users are stored in lower case.
abbrev pub is_stored_lower : StrTools → User → Bool
is_stored_lower tools u = u.is_admin || text_eq (tools.sql_lower u.username) u.username

lower-same :
    (low name username : Text)
    → text_eq low username ≡ true
    → text_eq username name ≡ false
    → text_eq low name ≡ false
lower-same low name username l f = rw ((text_eq_iff low username).0 l) f

none_regular :
    (tools : StrTools) (name : Text) (db : List User)
    → all (is_stored_lower tools) db ≡ true
    → any (is_named name) db ≡ false
    → filter (is_regular tools name) db ≡ []
none_regular tools name [] low free = refl
none_regular tools name (u ∷ us) low free = elim (Bool-cases u.is_admin) [
  | inl a ↦ ground (arith, none_regular tools name us)
  | inr a ↦
      ground
        (arith, none_regular tools name us, lower-same (tools.sql_lower u.username) name u.username)
]

truthy-long : (s : Text) → 1 ≤ length s → truthy s ≡ true
truthy-long [] h = ground arith
truthy-long (c ∷ cs) h = refl

check_hash-fits :
    (env : Service) (w : User) (o : Option Text) (password hashed : Text)
    → o ≡ some hashed
    → env.verify_password password (some hashed) ≡ true
    → truthy hashed ≡ true
    → check_hash env w o password ≡ returned (some w)
unfolding check_hash
check_hash-fits env w none password hashed h fits full = cc
check_hash-fits env w (some g) password hashed h fits full = ground arith

check_regular-fits :
    (env : Service) (w : User) (password hashed : Text)
    → w.hashed_password ≡ some hashed
    → env.verify_password password (some hashed) ≡ true
    → truthy hashed ≡ true
    → check_regular env (returned (some w)) password ≡ returned (some w)
unfolding check_regular
check_regular-fits env w password hashed h fits full =
    check_hash-fits env w w.hashed_password password hashed h fits full

module _ (env : Service) (keeps : KeepIds env.tools) (name password : Text) (id : ℕ) where
  is_regular-new :
      matches_id name ≡ true → is_regular env.tools name (new_user env name password id) ≡ true
  unfolding new_user
  is_regular-new m =
      rw (keeps.sql_lower name (matches_id-chars env.tools name m).0)
        (rw ((text_eq_iff name name).1 refl) refl)

  has_hash-new :
      truthy password ≡ true
      → (new_user env name password id).hashed_password ≡ some (env.hash_password password)
  unfolding new_user
  has_hash-new long = rw long refl

  login_new :
      (user_id : Text) (db : List User)
      → env.verify_password password (some (env.hash_password password)) ≡ true
      → truthy (env.hash_password password) ≡ true
      → truthy password ≡ true
      → matches_id name ≡ true
      → all (is_stored_lower env.tools) db ≡ true
      → any (is_named name) db ≡ false
      → normalize_user_id env.tools (some user_id) ≡ name
      → authenticate_regular_user_by_username env user_id password
          (db ++ new_user env name password id ∷ [])
        ≡ returned (some (new_user env name password id))
  unfolding authenticate_regular_user_by_username get_regular_user_by_username
  login_new user_id db fits hashed long m low free n =
      let w = new_user env name password id in
      let found : filter (is_regular env.tools name) (db ++ w ∷ []) ≡ w ∷ [] =
        filter-append (is_regular env.tools name) db (w ∷ [])
        ∙ rw (none_regular env.tools name db low free) (rw (is_regular-new m) refl) in
      rw n (
        rw (truthy-long name (matches_id-chars env.tools name m).1) (
          rw found (
            check_regular-fits env w password (env.hash_password password) (has_hash-new long) fits
              hashed)))

-- After a registration has succeeded, the id in any spelling that normalizes to the stored one and
-- the password log that user in: `verify` accepts what `hash` made, `strip` and `lower` keep an id,
-- and the names of the other regular users are stored in lower case.
pub register_then_login :
    (env : Service)
    → KeepIds env.tools
    → (user_id user_id' password : Text) (db : List User) (u : User)
    → env.verify_password password (some (env.hash_password password)) ≡ true
    → truthy (env.hash_password password) ≡ true
    → all (is_stored_lower env.tools) (env.meanwhile db) ≡ true
    → (register_regular_user env user_id password db).0 ≡ returned u
    → normalize_user_id env.tools (some user_id') ≡ u.username
    → authenticate_regular_user_by_username env user_id' password
        (register_regular_user env user_id password db).1
      ≡ returned (some u)
unfolding authenticate_regular_user_by_username get_regular_user_by_username check_regular
    register_regular_user scalar_one_or_none
register_then_login env keeps user_id user_id' password db u fits hashed low h n =
    let r = register_named-Registered env (some user_id) _ password db u refl h in
    rw r.added (
      rw r.row (
        login_new env keeps r.name password r.id user_id' (env.meanwhile db) fits hashed r.long
          r.matches low r.free (n ∙ ap User.username r.row)))
