-- ===== src/Sim/Guidelines/Tests.antt =====
-- Guidelines at concrete versions.
use elp_gemini.Base.{Text, codes, ℕ, ◌≡◌, ◌⊎◌, false, none, some, List, [], ◌∷◌, ◌++◌, arith}
use elp_gemini.Sim.Errors.{ok}
use elp_gemini.Sim.Guidelines.{Guideline, save, current, system_prompt, base_constraints}
use elp_gemini.Sim.Guidelines.Versions.{UniqueVersions, save-current}
use elp_gemini.Sim.Guidelines.Prompts.{system_prompt-ends}

abbrev guideline : ℕ → Guideline
guideline v = record {
  id = v;
  version = v;
  enabled = false;
  required_aspects = codes "udl" ∷ [];
  criteria_ids = [];
  extra_instructions = codes "x";
  created_by = none;
  created_at = 0;
}

abbrev rows : List Guideline
rows = guideline 1 ∷ guideline 2 ∷ []

rows-UniqueVersions : UniqueVersions rows
rows-UniqueVersions v = ground arith

save-current_example :
    ((row : Guideline) × ((save 5 1 (guideline 0) rows rows).0 ≡ ok row)
      × (current (save 5 1 (guideline 0) rows rows).1 ≡ some row))
    × UniqueVersions (save 5 1 (guideline 0) rows rows).1
    × (((save 5 1 (guideline 0) rows rows).1 ≡ rows)
        ⊎ ((row : Guideline) × ((save 5 1 (guideline 0) rows rows).0 ≡ ok row)))
save-current_example = save-current 5 1 (guideline 0) rows rows rows-UniqueVersions

system_prompt-ends_example :
    ((before : Text) × (system_prompt (λ t. t) (λ p. none) (codes "b") [] (some (guideline 1))
        ≡ before ++ base_constraints))
    × ((g : Guideline)
        → some (guideline 1) ≡ some g
        → g.enabled ≡ false
        → system_prompt (λ t. t) (λ p. none) (codes "b") [] (some (guideline 1))
          ≡ system_prompt (λ t. t) (λ p. none) (codes "b") [] none)
system_prompt-ends_example =
    system_prompt-ends (λ t. t) (λ p. none) (codes "b") [] (some (guideline 1))
