-- ===== src/Sim/Tests/Reactions.antt =====
-- Agreement, reactions and calls at the sessions of the parent.
use elp_gemini.Base.{codes, ◌≤◌, ◌≡◌, refl, true, false, some, [], map, filter}
use elp_gemini.Sim.Model.{Structured}
use elp_gemini.Sim.Agreement.{compute_agreement, row_agrees}
use elp_gemini.Sim.Agreement.Laws.{agreed-eq-filter, ever_agreed}
use elp_gemini.Sim.Reaction.{RawInt, RawReaction, Context, validate, stored_understanding, dump}
use elp_gemini.Sim.Reaction.Laws.{stored_understanding_rise, misconception_never_agrees}
use elp_gemini.Sim.Prompt.{previous_understanding}
use elp_gemini.Sim.Store.{scene_of, personas_of}
use elp_gemini.Sim.Tests.{tools, answer, spoken, opened}
use elp_gemini.Sim.Agreement.Shown.{shown_is_previous}

agreed-eq-filter_example :
    (compute_agreement 0 (personas_of spoken 7) (scene_of spoken 7 0)).agreed_persona_ids
    ≡ map
        (λ p. p.id)
        (filter (λ p. ever_agreed 0 p.id (scene_of spoken 7 0)) (personas_of spoken 7))
agreed-eq-filter_example = agreed-eq-filter 0 (personas_of spoken 7) (scene_of spoken 7 0)

abbrev later : Context
later = record {
  first = false;
  previous = some 40;
  teacher = codes "Say it";
  previous_artifact = [];
  previous_utterance = codes "I think that it is a half";
}

stored_understanding_rise_example :
    (stored_understanding tools later (answer 95 (codes "Now I see it") [] true) ≤ 60)
    × (stored_understanding tools later (answer 95 (codes "Now I see it") [] true) ≤ 95)
stored_understanding_rise_example =
    stored_understanding_rise tools later (answer 95 (codes "Now I see it") [] true) 40 refl

abbrev raw : RawReaction
raw = record {
  action = [];
  utterance = codes "A half is two";
  artifact = codes "1/2 = 2";
  misconception = codes "takes the denominator for the value";
  ready_for_next = true;
  understanding = RawInt.pos 140;
  confidence = codes "1.0";
  on_task = true;
}

misconception_never_agrees_example :
    row_agrees (Structured.reaction (dump tools later (validate tools raw))) ≡ false
unfolding validate
misconception_never_agrees_example = misconception_never_agrees tools later raw refl

shown_is_previous_example :
    (compute_agreement 0 (personas_of spoken 7) (scene_of spoken 7 0)).understanding
    ≡ map (λ p. (p.id, previous_understanding (scene_of spoken 7 0) p.id)) (personas_of spoken 7)
unfolding opened
shown_is_previous_example = shown_is_previous 0 (personas_of spoken 7) (scene_of spoken 7 0) refl
