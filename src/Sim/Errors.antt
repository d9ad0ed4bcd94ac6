-- ===== src/Sim/Errors.antt =====
-- app/services/simulation/errors.py: the error codes, their HTTP status, and the result of a call
-- that may raise `SimulationError`.
use elp_gemini.Base.{
  refl, inl, inr, inr, inl, false, true, List, [], ◌∷◌, ◌∷◌, List, ℕ, ◌≡◌, ◌⊎◌, Bool, ◌||◌, ◌==◌,
  Option, none, some, if◌then◌else◌,
}

-- `integrity` and `unexpected` are exceptions of the database and of the SDK that the services let
-- through; the others are the keys of `CODES`.
pub data Code : Type 0 where
  session_not_found no_feedback no_upload library_not_found : Code
  phase_not_current session_finished phase_not_entered not_all_agreed turn_limit : Code
  nothing_to_regenerate conflict_retry session_not_finished no_sample_session : Code
  too_many_personas unknown_persona duplicate_pseudonym : Code
  invalid_persona : Code
  resource_exhausted : Code
  model_overloaded model_timeout model_unavailable : Code
  adapt_failed feedback_parse_failed : Code
  unexpected : Code

-- What a service function does: it raises an error's code, or returns.
pub data Result {ℓ} (B : Type ℓ) : Type ℓ where
  err : Code → Result B
  ok : B → Result B

infixl 5 ◌>>◌
abbrev pub ◌>>◌ {κ} : {C : Type κ} → Result (Unit {0}) → Result C → Result C
err raised >> rest = err raised
ok done >> rest = rest

infixl 5 ◌>>=◌
abbrev pub ◌>>=◌ {κ ℓ} : {B : Type ℓ} {C : Type κ} → Result B → (B → Result C) → Result C
err raised >>= rest = err raised
ok value >>= rest = rest value

-- `if test: raise SimulationError(code)`
abbrev pub raise_if : Bool → Code → Result (Unit {0})
raise_if b e = if b then err e else ok tt

abbrev pub or_raise {ℓ} : {A : Type ℓ} → Option A → Code → Result A
or_raise none e = err e
or_raise (some a) e = ok a

-- The status column of `CODES`. What is no `SimulationError` becomes a plain 500.
unfoldable pub status_of : Code → ℕ
status_of Code.session_not_found = 404
status_of Code.no_feedback = 404
status_of Code.no_upload = 404
status_of Code.library_not_found = 404
status_of Code.phase_not_current = 409
status_of Code.session_finished = 409
status_of Code.phase_not_entered = 409
status_of Code.not_all_agreed = 409
status_of Code.turn_limit = 409
status_of Code.nothing_to_regenerate = 409
status_of Code.conflict_retry = 409
status_of Code.session_not_finished = 409
status_of Code.no_sample_session = 409
status_of Code.too_many_personas = 422
status_of Code.unknown_persona = 422
status_of Code.duplicate_pseudonym = 422
status_of Code.invalid_persona = 400
status_of Code.resource_exhausted = 429
status_of Code.model_overloaded = 503
status_of Code.model_timeout = 503
status_of Code.model_unavailable = 503
status_of Code.adapt_failed = 502
status_of Code.feedback_parse_failed = 502
status_of Code.unexpected = 500

abbrev pub retry_after_seconds : ℕ
retry_after_seconds = 30

pub record HttpError : Type 0 where
  pub status_code : ℕ
  pub code : Code
  pub retry_after : Option ℕ

-- `SimulationError.to_http`; the message is the code's, and is left out.
pub to_http : Code → HttpError
unfolding status_of
to_http e = record {
  status_code = status_of e;
  code = e;
  retry_after = if status_of e == 429 || status_of e == 503 then some retry_after_seconds else none;
}

-- The codes by which `gemini.call_many` reports that the model was not reached.
abbrev pub IsTransient : Code → Type 0
IsTransient e =
    (e ≡ Code.resource_exhausted)
    ⊎ (e ≡ Code.model_overloaded)
    ⊎ (e ≡ Code.model_timeout)
    ⊎ (e ≡ Code.model_unavailable)

-- A comprehension whose body may raise.
unfoldable pub map_result {ℓ κ} :
    {A : Type ℓ} {B : Type κ} → (A → Result B) → List A → Result (List B)
map_result f [] = ok []
map_result f (x ∷ xs) = do y ← f x; ys ← map_result f xs; ok (y ∷ ys)

abbrev pub is_ok {ℓ} : {A : Type ℓ} → Result A → Bool
is_ok (ok a) = true
is_ok (err e) = false

pub Result-cases {ℓ} :
    {A : Type ℓ} (r : Result A) → ((a : A) × (r ≡ ok a)) ⊎ ((e : Code) × (r ≡ err e))
Result-cases (ok a) = inl (a, refl)
Result-cases (err e) = inr (e, refl)

pub ok_inj {ℓ} : {A : Type ℓ} {a b : A} → ◌≡◌ {A = Result A} (ok a) (ok b) → a ≡ b
ok_inj h = cc
