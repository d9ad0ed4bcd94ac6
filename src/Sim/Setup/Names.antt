-- ===== src/Sim/Setup/Names.antt =====
-- `assign_pseudonyms` of app/services/simulation/persona_pool.py.
pub mod Laws
use elp_gemini.Base.{
  Text, codes, text_eq, text_eq_iff, ℕ, zero, suc, ◌+◌, ◌-◌, ◌*◌, ◌/◌, ◌%◌, ◌≤◌, ◌<◌, min, max,
  String, ◌≡◌, refl, sym, ap, subst, ◌∙◌, ◌≢◌, ◌↔◌, ◌⊎◌, inl, inr, Bool, true, false, ◌&&◌, ◌||◌,
  not, Option, none, some, List, [], ◌∷◌, ◌++◌, map, append_assoc, append-nil, arith, ltb, leb,
  ◌==◌, if◌then◌else◌, leb→le, le→leb, ltb→lt, ==_iff, ==_refl, Bool-cases, Option-cases,
  &&-eq-true, is_some, opt_eq, length, get_elem?, filter, any, all, find, count, get_last?,
  order_by, any-append, count-append, filter-append, any-filter, any-order_by, length-order_by,
  length-append, length-filter_le, elem, zip, length-map, List-cases, get_elem?-lt,
}
use elp_gemini.Sim.Errors.{Code, Result, ok, err}

-- `s.split()` of a text whose only spaces are blanks.
abbrev put_char : ℕ → List Text → List Text
put_char c [] = (c ∷ []) ∷ []
put_char c (w ∷ ws) = (c ∷ w) ∷ ws

abbrev words : Text → List Text
words [] = [] ∷ []
words (c ∷ cs) = let rest = words cs in if c == 32 then [] ∷ rest else put_char c rest

unfoldable pub female_names : List Text
female_names =
    words (codes "서연 서윤 지우 서현 민서 하은 하윤 윤서 지유 지민")
    ++ words (codes "채원 수아 지아 다은 예은 수빈 소율 예린 지원 유나")
    ++ words (codes "은서 가은 시은")

unfoldable pub male_names : List Text
male_names =
    words (codes "민준 서준 도윤 예준 시우 하준 주원 지호 지후 준우")
    ++ words (codes "준서 도현 건우 현우 우진 선우 연우 유준 정우 승우")
    ++ words (codes "승현 시윤 준혁 은우 지환 민재 윤우 이준 태윤 하람")

unfoldable pub name_pool : List Text
name_pool = female_names ++ male_names ++ codes "다온" ∷ []

-- `GENDER_NAMES.get(gender, NAME_POOL)`
unfoldable pub pool_of : Option Text → List Text
pool_of none = name_pool
pool_of (some gender) =
    if text_eq gender (codes "female")
    then female_names
    else if text_eq gender (codes "male")
    then male_names
    else name_pool

abbrev pub is_used : List Text → Text → Bool
is_used names n = any (text_eq n) names

unfoldable pub free_names : Option Text → List Text → List Text
free_names gender names = filter (λ n. not (is_used names n)) (pool_of gender)

-- `rng.choice(xs)` is the element at the index that the generator draws, in its k-th draw, for the
-- length of `xs`; it raises when there is none.
unfoldable pub choice : (ℕ → ℕ → ℕ) → ℕ → List Text → Option Text
choice draw k xs = get_elem? xs (draw k (length xs))

-- One more name, and the loop over the others.
unfoldable pub with_name :
    Option Text → List Text → (List Text → Result (List Text)) → Result (List Text)
with_name none names rest = err Code.unexpected
with_name (some n) names rest = rest (names ++ n ∷ [])

unfoldable pub assign_from : (ℕ → ℕ → ℕ) → ℕ → List Text → List (Option Text) → Result (List Text)
unfolding with_name choice
assign_from draw k names [] = ok names
assign_from draw k names (gender ∷ genders) =
    with_name (choice draw k (free_names gender names)) names
      (λ more. assign_from draw (k + 1) more genders)

unfoldable pub assign_pseudonyms : (ℕ → ℕ → ℕ) → List (Option Text) → Result (List Text)
unfolding assign_from
assign_pseudonyms draw genders = assign_from draw 0 [] genders
