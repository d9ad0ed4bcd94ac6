-- ===== src/Sim/Setup/Adapt.antt =====
-- `adapt_many` of app/services/simulation/adaptation.py and `normalize_level` of persona_pool.py.
pub mod Laws
use elp_gemini.Base.{
  Text, codes, text_eq, text_eq_iff, ℕ, zero, suc, ◌+◌, ◌-◌, ◌*◌, ◌/◌, ◌%◌, ◌≤◌, ◌<◌, min, max,
  String, ◌≡◌, refl, sym, ap, subst, ◌∙◌, ◌≢◌, ◌↔◌, ◌⊎◌, inl, inr, Bool, true, false, ◌&&◌, ◌||◌,
  not, Option, none, some, List, [], ◌∷◌, ◌++◌, map, append_assoc, append-nil, arith, ltb, leb,
  ◌==◌, if◌then◌else◌, leb→le, le→leb, ltb→lt, ==_iff, ==_refl, Bool-cases, Option-cases,
  &&-eq-true, is_some, opt_eq, length, get_elem?, filter, any, all, find, count, get_last?,
  order_by, any-append, count-append, filter-append, any-filter, any-order_by, length-order_by,
  length-append, length-filter_le, elem, zip, length-map, List-cases, get_elem?-lt,
}
use elp_gemini.Base.Json
use elp_gemini.Base.Json.{Json, Items, Fields}
use elp_gemini.Sim.Errors.{Code, Result, ok, err}
use elp_gemini.Sim.Gemini.{LlmResult, Outcome, Call, call_many}

pub record AdaptationResult : Type 0 where
  pub strengths : List Text
  pub weaknesses : List Text
  pub behavior_summary : Text
  pub speech_style : Text
  pub support_needs : Text

unfoldable pub texts : List Text → Items
texts [] = Items.nil
texts (t ∷ ts) = Items.cons (Json.str t) (texts ts)

-- `result.parsed.model_dump()` with the key "adapted_level".
unfoldable pub adapted_fields : AdaptationResult → Text → Fields
unfolding texts
adapted_fields a level = Fields.field (codes "strengths") (Json.arr (texts a.strengths)) (
    Fields.field (codes "weaknesses") (Json.arr (texts a.weaknesses)) (
      Fields.field (codes "behavior_summary") (Json.str a.behavior_summary) (
        Fields.field (codes "speech_style") (Json.str a.speech_style) (
          Fields.field (codes "support_needs") (Json.str a.support_needs)
            (Fields.field (codes "adapted_level") (Json.str level) Fields.end)))))

-- `value.split(":", 1)[0]`
unfoldable pub before_colon : Text → Text
before_colon [] = []
before_colon (c ∷ cs) = let rest = before_colon cs in if c == 58 then [] else c ∷ rest

unfoldable pub unalias : Text → Text
unalias cat = if text_eq cat (codes "Mid") then codes "Average" else cat

-- The category and its label in `LEVEL_LABELS`; none where `normalize_level` raises.
unfoldable pub level_label : Text → Option Text
level_label cat =
    if text_eq cat (codes "High")
    then some (codes "높은 도달")
    else if text_eq cat (codes "Average")
    then some (codes "안정적 도달")
    else if text_eq cat (codes "Low")
    then some (codes "부분 도달")
    else if text_eq cat (codes "Poor")
    then some (codes "추가 지원 필요")
    else none

-- What the adaptation uses of Python, of the prompt file and of the model.
pub record AdaptEnv : Type 0 where
  pub strip : Text → Text
  pub dumps : Fields → Text
  pub get_prompt : Text → Text
  pub call_structured : Call → Outcome AdaptationResult

-- `LEVEL_LABELS[normalize_level(value)]`
unfoldable pub normalized_label : AdaptEnv → Text → Option Text
unfolding before_colon unalias
normalized_label env value = level_label (unalias (env.strip (before_colon value)))

-- The label of `raw["academic_level"]`; none where a key is missing or a value is no level.
unfoldable pub raw_label : AdaptEnv → Option Json → Option Text
unfolding normalized_label
raw_label env (some (Json.str value)) = normalized_label env value
raw_label env _ = none

unfoldable pub adapt_call : AdaptEnv → Option Text × Fields → Call
adapt_call env item = record {
  kind = codes "adapt";
  system = env.get_prompt (codes "sim_adapt");
  user = env.dumps item.1;
  persona_key = item.0;
}

abbrev pub unparsed : LlmResult AdaptationResult → Bool
unparsed r = not (is_some r.parsed)

-- One round of the loop over the items and the results.
unfoldable pub with_adapted :
    Option AdaptationResult
    → Option Text
    → Result (List (Fields × Text))
    → Result (List (Fields × Text))
with_adapted (some a) (some level) (ok rest) = ok ((adapted_fields a level, level) ∷ rest)
with_adapted (some a) (some level) (err e) = err e
with_adapted _ _ rest = err Code.unexpected

unfoldable pub adapt_zip :
    AdaptEnv
    → List (Option Text × Fields)
    → List (LlmResult AdaptationResult)
    → Result (List (Fields × Text))
unfolding with_adapted raw_label
adapt_zip env [] results = ok []
adapt_zip env (item ∷ items) [] = ok []
adapt_zip env (item ∷ items) (r ∷ results) =
    with_adapted r.parsed (raw_label env (Json.get item.1 (codes "academic_level")))
      (adapt_zip env items results)

unfoldable pub adapted :
    AdaptEnv
    → List (Option Text × Fields)
    → Result (List (LlmResult AdaptationResult))
    → Result (List (Fields × Text))
unfolding adapt_zip
adapted env items (err e) = err e
adapted env items (ok results) =
    if any unparsed results then err Code.adapt_failed else adapt_zip env items results

unfoldable pub adapt_many : AdaptEnv → List (Option Text × Fields) → Result (List (Fields × Text))
unfolding adapted adapt_call
adapt_many env items =
    adapted env items (call_many env.call_structured (map (adapt_call env) items))
