-- ===== src/Sim/Gemini.antt =====
-- app/services/simulation/gemini.py: the parallel calls of the language model and their errors.
-- What one call gives (`call_structured`, over the SDK) is a parameter of the callers.
pub mod Laws
use elp_gemini.Base.{
  Text, codes, text_eq, text_eq_iff, ℕ, zero, suc, ◌+◌, ◌-◌, ◌*◌, ◌/◌, ◌%◌, ◌≤◌, ◌<◌, min, max,
  String, ◌≡◌, refl, sym, ap, subst, ◌∙◌, ◌≢◌, ◌↔◌, ◌⊎◌, inl, inr, Bool, true, false, ◌&&◌, ◌||◌,
  not, Option, none, some, List, [], ◌∷◌, ◌++◌, map, append_assoc, append-nil, arith, ltb, leb,
  ◌==◌, if◌then◌else◌, leb→le, le→leb, ltb→lt, ==_iff, ==_refl, Bool-cases, Option-cases,
  &&-eq-true, is_some, opt_eq, length, get_elem?, filter, any, all, find, count, get_last?,
  order_by, any-append, count-append, filter-append, any-filter, any-order_by, length-order_by,
  length-append, length-filter_le, elem, zip, length-map,
}
use elp_gemini.Sim.Errors.{Code, Result, ok, err}

pub record LlmResult (P : Type 0) : Type 0 where
  pub parsed : Option P
  pub text : Text
  pub model : Text
  pub temperature : Text
  pub latency_ms : ℕ

-- The keyword arguments of `call_structured`; the schema is the type of the parsed answer.
pub record Call : Type 0 where
  pub kind : Text
  pub system : Text
  pub user : Text
  pub persona_key : Option Text

-- One entry of `asyncio.gather(..., return_exceptions=True)`. `timeout` is an
-- `httpx.TimeoutException`, and `transport` any other `httpx.TransportError`.
pub data Outcome (P : Type 0) : Type 0 where
  answered : LlmResult P → Outcome P
  quota_exhausted : Outcome P
  server_overloaded : Outcome P
  timeout : Outcome P
  transport : Outcome P
  other_error : Outcome P

module _ {P : Type 0} where
  abbrev pub is_quota : Outcome P → Bool
  is_quota Outcome.quota_exhausted = true
  is_quota _ = false

  abbrev pub is_overloaded : Outcome P → Bool
  is_overloaded Outcome.server_overloaded = true
  is_overloaded _ = false

  abbrev pub is_timeout : Outcome P → Bool
  is_timeout Outcome.timeout = true
  is_timeout _ = false

  -- `httpx.TransportError`, of which a timeout is one
  abbrev pub is_transport : Outcome P → Bool
  is_transport Outcome.timeout = true
  is_transport Outcome.transport = true
  is_transport _ = false

  abbrev pub is_error : Outcome P → Bool
  is_error (Outcome.answered r) = false
  is_error _ = true

  abbrev pub answers : List (Outcome P) → List (LlmResult P)
  answers [] = []
  answers (Outcome.answered r ∷ rest) = r ∷ answers rest
  answers (_ ∷ rest) = answers rest

  -- The tests of `call_many` after the gather, in their order.
  unfoldable pub settle : List (Outcome P) → Result (List (LlmResult P))
  settle results =
      if any is_quota results
      then err Code.resource_exhausted
      else if any is_overloaded results
      then err Code.model_overloaded
      else if any is_timeout results
      then err Code.model_timeout
      else if any is_transport results
      then err Code.model_unavailable
      else if any is_error results
      then err Code.unexpected
      else ok (answers results)

  unfoldable pub call_many : (Call → Outcome P) → List Call → Result (List (LlmResult P))
  unfolding settle
  call_many call_structured calls = settle (map call_structured calls)
