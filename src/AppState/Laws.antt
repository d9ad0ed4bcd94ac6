-- ===== src/AppState/Laws.antt =====
-- What `get` reads after `set` and `set_many` of app/repositories/app_state_repository.py.
use elp_gemini.AppState.{set_many, has_key, update_value, Rows, set, get}
use elp_gemini.Base.{
  Text, text_eq, text_eq_iff, ◌≡◌, refl, sym, ap, ◌∙◌, inl, inr, true, false, not, Option, none,
  some, List, [], ◌∷◌, ◌++◌, arith, if◌then◌else◌, Bool-cases, filter, any,
}

text_eq-false : (a b c : Text) → text_eq a b ≡ true → text_eq b c ≡ false → text_eq a c ≡ false
text_eq-false a b c h k = rw ((text_eq_iff a b).0 h) k

delete-get :
    (rows : Rows) (key : Text) → get (filter (λ row. not (has_key key row)) rows) key ≡ none
unfolding get
delete-get [] key = refl
delete-get (row ∷ rows) key = ground (arith, delete-get rows key)

delete-others :
    (rows : Rows) (key k : Text)
    → text_eq key k ≡ false
    → get (filter (λ row. not (has_key key row)) rows) k ≡ get rows k
unfolding get
delete-others [] key k other = refl
delete-others (row ∷ rows) key k other =
    ground (arith, delete-others rows key k, text_eq-false row.0 key k)

update-get :
    (rows : Rows) (key value : Text)
    → any (has_key key) rows ≡ true
    → get (update_value key value rows) key ≡ some value
unfolding get update_value
update-get [] key value h = ground arith
update-get (row ∷ rows) key value h = ground (arith, update-get rows key value)

update-others :
    (rows : Rows) (key value k : Text)
    → text_eq key k ≡ false
    → get (update_value key value rows) k ≡ get rows k
unfolding get update_value
update-others [] key value k other = refl
update-others (row ∷ rows) key value k other =
    ground (arith, update-others rows key value k, text_eq-false row.0 key k)

add-get :
    (rows : Rows) (key value : Text)
    → any (has_key key) rows ≡ false
    → get (rows ++ (key, value) ∷ []) key ≡ some value
unfolding get
add-get [] key value h = ground (arith, (text_eq_iff key key).1 refl)
add-get (row ∷ rows) key value h = ground (arith, add-get rows key value)

add-others :
    (rows : Rows) (key value k : Text)
    → text_eq key k ≡ false
    → get (rows ++ (key, value) ∷ []) k ≡ get rows k
unfolding get
add-others [] key value k other = ground arith
add-others (row ∷ rows) key value k other = ground (arith, add-others rows key value k)

set_same : (rows : Rows) (key : Text) (value : Option Text) → get (set rows key value) key ≡ value
unfolding set
set_same rows key none = delete-get rows key
set_same rows key (some value) = ground (arith, update-get rows key value, add-get rows key value)

set_others :
    (rows : Rows) (key k : Text) (value : Option Text)
    → text_eq key k ≡ false
    → get (set rows key value) k ≡ get rows k
unfolding set
set_others rows key k none other = delete-others rows key k other
set_others rows key k (some value) other =
    ground (arith, update-others rows key value k, add-others rows key value k)

-- What is read is what was last set, nothing after a deletion, and what is kept under any other key
-- stays as it was.
pub get-set :
    (rows : Rows) (key k : Text) (value : Option Text)
    → get (set rows key value) k ≡ (if text_eq key k then value else get rows k)
get-set rows key k value = elim (Bool-cases (text_eq key k)) [
  | inl y ↦ rw y (rw (sym ((text_eq_iff key k).0 y)) (set_same rows key value))
  | inr n ↦ rw n (set_others rows key k value n)
]

-- The value of a key after `set_many`: that of its last item, if it has one.
unfoldable pub last_value : Option Text → Text → List (Text × Option Text) → Option Text
last_value before key [] = before
last_value before key (item ∷ items) =
    last_value (if text_eq item.0 key then item.1 else before) key items

-- `set_many` leaves every key with the value of its last item, and the keys without one as they were.
pub get-set_many :
    (rows : Rows) (items : List (Text × Option Text)) (key : Text)
    → get (set_many rows items) key ≡ last_value (get rows key) key items
unfolding set_many last_value
get-set_many rows [] key = refl
get-set_many rows (item ∷ items) key =
    get-set_many (set rows item.0 item.1) items key
    ∙ ap (λ v. last_value v key items) (get-set rows item.0 key item.1)
