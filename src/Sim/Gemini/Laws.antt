-- ===== src/Sim/Gemini/Laws.antt =====
-- What the callers of `gemini.call_many` rely on.
use elp_gemini.Base.{
  suc, ◌≡◌, refl, ap, ◌∙◌, false, List, [], ◌∷◌, map, arith, length, any, length-map,
}
use elp_gemini.Sim.Errors.{ok}
use elp_gemini.Sim.Gemini.{Call, LlmResult, Outcome, answers, is_error, settle, call_many}

module _ {P : Type 0} where
  length-answers :
      (os : List (Outcome P)) → any is_error os ≡ false → length (answers os) ≡ length os
  length-answers [] h = refl
  length-answers (Outcome.answered r ∷ os) h = ap suc (length-answers os h)
  length-answers (_ ∷ os) h = cc

  settle-length :
      (os : List (Outcome P)) (rs : List (LlmResult P)) → settle os ≡ ok rs → length rs ≡ length os
  unfolding settle
  settle-length os rs h = ground (arith, length-answers os)

  -- If the calls succeed there is one answer to each call.
  pub call_many-length :
      (call : Call → Outcome P) (calls : List Call) (rs : List (LlmResult P))
      → call_many call calls ≡ ok rs
      → length rs ≡ length calls
  unfolding call_many
  call_many-length call calls rs h = settle-length (map call calls) rs h ∙ length-map call calls
