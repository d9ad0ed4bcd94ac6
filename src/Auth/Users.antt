-- ===== src/Auth/Users.antt =====
-- The table of users and its queries: app/models/users.py and the selects and updates of
-- app/services/auth_service.py.
use elp_gemini.Base.{
  Text, text_eq, ℕ, ◌≡◌, refl, inl, inr, Bool, true, false, Option, none, some, List, [], ◌∷◌,
  arith, ◌==◌, if◌then◌else◌, Bool-cases, any, find, count,
}

pub record User : Type 0 where
  pub id : ℕ
  pub username : Text
  pub nickname : Text
  pub hashed_password : Option Text
  pub is_admin : Bool
  pub failed_login_count : ℕ
  pub locked_until : Option ℕ
  pub last_failed_login_at : Option ℕ
  pub session_version : ℕ
  pub created_at : ℕ
  pub updated_at : ℕ

-- `update(User).where(test).values(...)`
unfoldable pub update_where : (User → Bool) → (User → User) → List User → List User
update_where p f [] = []
update_where p f (u ∷ us) = (if p u then f u else u) ∷ update_where p f us

abbrev pub has_id : ℕ → User → Bool
has_id k u = u.id == k

-- `db.refresh(user)`, `db.get`: the row of an id.
unfoldable pub get_user_by_id : List User → ℕ → Option User
get_user_by_id us k = find (has_id k) us

unfoldable pub get_user_by_username : List User → Text → Option User
get_user_by_username us name = find (λ u. text_eq u.username name) us

-- The result's `rowcount`.
unfoldable pub rowcount : (User → Bool) → List User → ℕ
rowcount p us = count p us

-- A property of every row.
pub data Every (P : User → Type 0) : List User → Type 0 where
  no_rows : Every P []
  row : {u : User} {us : List User} → P u → Every P us → Every P (u ∷ us)

pub update_where-Every :
    (P : User → Type 0) (p : User → Bool) (f : User → User) (us : List User)
    → ((u : User) → P u → P (f u))
    → Every P us
    → Every P (update_where p f us)
unfolding update_where
update_where-Every P p f [] keeps Every.no_rows = Every.no_rows
update_where-Every P p f (u ∷ us) keeps (Every.row x e) =
    Every.row (elim (Bool-cases (p u)) [ inl h ↦ rw h (keeps u x) | inr h ↦ rw h x ])
      (update_where-Every P p f us keeps e)

-- An update that keeps the ids changes the row of an id as it changes any row.
pub find-update_where :
    (p : User → Bool) (f : User → User) (us : List User) (k : ℕ)
    → ((u : User) → (f u).id ≡ u.id)
    → find (has_id k) (update_where p f us)
      ≡ elim (find (has_id k) us) [ none ↦ none | some u ↦ some (if p u then f u else u) ]
unfolding update_where
find-update_where p f [] k ids = refl
find-update_where p f (u ∷ us) k ids = elim (Bool-cases (u.id == k)) [
  | inl h ↦ rw h (ground (arith, ids u))
  | inr h ↦ rw h (ground (arith, ids u, find-update_where p f us k ids))
]

pub find-update_some :
    (p : User → Bool) (f : User → User) (us : List User) (k : ℕ) (u : User)
    → ((w : User) → (f w).id ≡ w.id)
    → find (has_id k) us ≡ some u
    → find (has_id k) (update_where p f us) ≡ some (if p u then f u else u)
find-update_some p f us k u ids h = rw (find-update_where p f us k ids, h) refl

pub find-update_none :
    (p : User → Bool) (f : User → User) (us : List User) (k : ℕ)
    → ((w : User) → (f w).id ≡ w.id)
    → find (has_id k) us ≡ none
    → find (has_id k) (update_where p f us) ≡ none
find-update_none p f us k ids h = rw (find-update_where p f us k ids, h) refl

-- An update whose condition no row meets changes nothing.
pub update_where-id :
    (p : User → Bool) (f : User → User) (us : List User)
    → any p us ≡ false
    → update_where p f us ≡ us
unfolding update_where
update_where-id p f [] h = refl
update_where-id p f (u ∷ us) h = ground (arith, update_where-id p f us)

pub rowcount-zero : (p : User → Bool) (us : List User) → any p us ≡ false → rowcount p us ≡ 0
unfolding rowcount
rowcount-zero p [] h = refl
rowcount-zero p (u ∷ us) h = ground (arith, rowcount-zero p us)

-- What no row meets after an update: no row that it wrote, and none that it left.
pub update_where-gone :
    (p q : User → Bool) (f : User → User) (us : List User)
    → ((u : User) → p u ≡ true → q (f u) ≡ false)
    → ((u : User) → p u ≡ false → q u ≡ false)
    → any q (update_where p f us) ≡ false
unfolding update_where
update_where-gone p q f [] wrote left = refl
update_where-gone p q f (u ∷ us) wrote left = elim (Bool-cases (p u)) [
  | inl h ↦ ground (arith, wrote u h, update_where-gone p q f us wrote left)
  | inr h ↦ ground (arith, left u h, update_where-gone p q f us wrote left)
]

-- An update that makes its own condition false leaves no row that meets it.
pub update_where-none :
    (p : User → Bool) (f : User → User) (us : List User)
    → ((u : User) → p u ≡ true → p (f u) ≡ false)
    → any p (update_where p f us) ≡ false
update_where-none p f us undone = update_where-gone p p f us undone (λ u h. h)
