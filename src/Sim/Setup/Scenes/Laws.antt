-- ===== src/Sim/Setup/Scenes/Laws.antt =====
-- What a draft of scenes may be.
use elp_gemini.Base.{
  false, Text, ℕ, ◌≤◌, ◌<◌, ◌≡◌, ◌⊎◌, Bool, true, Option, none, some, List, [], ◌∷◌, leb, length,
}
use elp_gemini.Sim.Errors.{Code, Result, ok, err}
use elp_gemini.Sim.Model.{Upload}
use elp_gemini.Sim.Store.{Db}
use elp_gemini.Sim.Setup.Scenes.{
  Draft, DraftSource, Drafts, max_phases, fallback_phases, SplitEnv, generated_phases,
  inherited_phases,
}

abbrev pub at_most : ℕ → Option ℕ → Bool
at_most n none = true
at_most n (some m) = leb m n

-- The upper bounds of `PhaseIn` on the lengths and the minutes of a scene.
abbrev pub IsFitting : Draft → Type 0
IsFitting d =
    (length d.name ≤ 50)
    × (length d.teacher_prompt ≤ 2000)
    × (length d.task ≤ 2000)
    × (length d.materials ≤ 4000)
    × (length d.cautions ≤ 4000)
    × (length d.source_span ≤ 4000)
    × (at_most 180 d.minutes ≡ true)

abbrev pub AllFitting : List Draft → Type 0
AllFitting [] = Unit
AllFitting (d ∷ ds) = IsFitting d × AllFitting ds

-- Scenes that the model made: none, or from three to eight.
abbrev pub IsGenerated : List Draft → Type 0
IsGenerated ds = ((length ds ≡ 0) ⊎ (2 < length ds)) × (length ds ≤ max_phases) × AllFitting ds

-- What is drafted from the text of a plan: from three to eight scenes of the model, or the empty ones.
abbrev pub Holds : DraftSource → List Draft → Type 0
Holds DraftSource.inherited ds = ⊥
Holds DraftSource.generated ds = (2 < length ds) × (length ds ≤ max_phases) × AllFitting ds
Holds DraftSource.fallback ds = ds ≡ fallback_phases

-- The answer without scenes of an earlier session, with the reason of an error.
abbrev pub IsDraft : Type 0 → Result Drafts → Type 0
IsDraft reason (ok d) = Holds d.source d.phases
IsDraft reason (err e) = (e ≡ Code.unexpected) × reason

-- The PDF could not be read, or a call of the model raised what is no error of the simulation's own.
abbrev pub IsBroken : SplitEnv → Upload → Type 0
IsBroken env u =
    (env.extract_text u ≡ none)
    ⊎ ((text : Text) × (env.extract_text u ≡ some text)
        × (generated_phases env (env.strip text) ≡ err Code.unexpected))

-- The answer for an upload, by the scenes of its newest session.
abbrev pub IsDraftOf : SplitEnv → Upload → List Draft → Result Drafts → Type 0
IsDraftOf env u [] r = IsDraft (IsBroken env u) r
IsDraftOf env u (p ∷ ps) r =
    r ≡ ok (record { source = DraftSource.inherited; phases = p ∷ ps; has_notice = false })

-- The answer by the user's newest upload.
abbrev pub IsAnswer : SplitEnv → Db → Option Upload → Result Drafts → Type 0
IsAnswer env db none r = r ≡ err Code.no_upload
IsAnswer env db (some u) r = IsDraftOf env u (inherited_phases db u.id) r
