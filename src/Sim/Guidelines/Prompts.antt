-- ===== src/Sim/Guidelines/Prompts.antt =====
-- The prompt that a guideline makes.
use elp_gemini.Base.{
  Text, ◌≡◌, refl, sym, ap, ◌∙◌, false, Option, none, some, List, [], ◌∷◌, ◌++◌, append_assoc,
}
use elp_gemini.Base.Texts.{join}
use elp_gemini.Criteria.{Criteria}
use elp_gemini.Sim.Guidelines.{
  Guideline, blank_line, base_constraints, enabled_parts, assemble, system_prompt, enabled_excerpts,
}

join-snoc :
    (sep x : Text) (xs : List Text) (last : Text)
    → (before : Text) × (join sep ((x ∷ xs) ++ last ∷ []) ≡ before ++ last)
join-snoc sep x [] last = (x ++ sep, refl)
join-snoc sep x (y ∷ ys) last =
    let r = join-snoc sep y ys last in
    (x ++ sep ++ r.0, ap (λ t. x ++ sep ++ t) r.1 ∙ sym (append_assoc (x ++ sep) r.0 last))

-- Whatever a guideline says, the prompt ends with the base constraints; one that is not enabled adds
-- nothing to what there is without any.
pub system_prompt-ends :
    (strip : Text → Text) (read : Text → Option Text) (base : Text) (criteria : List Criteria)
    (guideline : Option Guideline)
    → ((before : Text) × (system_prompt strip read base criteria guideline
          ≡ before ++ base_constraints))
      × ((g : Guideline)
          → guideline ≡ some g
          → g.enabled ≡ false
          → system_prompt strip read base criteria guideline
            ≡ system_prompt strip read base criteria none)
unfolding system_prompt assemble
system_prompt-ends strip read base criteria guideline = (
  join-snoc blank_line (strip base)
      (enabled_parts strip guideline (enabled_excerpts strip read criteria guideline))
      base_constraints,
  λ g e d. rw e (rw d refl),
)
