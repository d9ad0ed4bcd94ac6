-- ===== src/Sim/Setup/Scenes.antt =====
-- The draft of a session's scenes: app/services/simulation/phase_split.py, with `get_latest_upload` of
-- lessonplan_source.py. `extract_text` reads a PDF, which may fail, and is a
-- parameter.
pub mod Laws
use elp_gemini.Base.{
  Text, codes, text_eq, text_eq_iff, ℕ, zero, suc, ◌+◌, ◌-◌, ◌*◌, ◌/◌, ◌%◌, ◌≤◌, ◌<◌, min, max,
  String, ◌≡◌, refl, sym, ap, subst, ◌∙◌, ◌≢◌, ◌↔◌, ◌⊎◌, inl, inr, Bool, true, false, ◌&&◌, ◌||◌,
  not, Option, none, some, List, [], ◌∷◌, ◌++◌, map, append_assoc, append-nil, arith, ltb, leb,
  ◌==◌, if◌then◌else◌, leb→le, le→leb, ltb→lt, ==_iff, ==_refl, Bool-cases, Option-cases,
  &&-eq-true, is_some, opt_eq, some_inj, length, get_elem?, filter, any, all, find, count,
  get_last?, order_by, any-append, count-append, filter-append, any-filter, any-order_by,
  length-order_by, length-append, length-filter_le, elem, zip, length-map, List-cases, get_elem?-lt,
}
use elp_gemini.Sim.Errors.{Code, Result, ok, err, ◌>>=◌, or_raise}
use elp_gemini.Sim.Gemini.{Outcome, LlmResult, Call, call_many}
use elp_gemini.Sim.Model.{Session, Phase, Upload}
use elp_gemini.Sim.Store.{Db, phases_of}
use elp_gemini.Sim.Setup.Listing.{newest_first}
use elp_gemini.Base.Texts.{truthy}

-- A number of minutes as the model writes it; `negsuc n` is -(n + 1).
pub data Minutes : Type 0 where
  pos : ℕ → Minutes
  negsuc : ℕ → Minutes

pub record PhaseItem : Type 0 where
  pub name : Text
  pub minutes : Option Minutes
  pub teacher_prompt : Text
  pub task : Text
  pub materials : Text
  pub cautions : Text
  pub source_span : Text

pub record Draft : Type 0 where
  pub name : Text
  pub minutes : Option ℕ
  pub teacher_prompt : Text
  pub task : Text
  pub materials : Text
  pub cautions : Text
  pub source_span : Text

pub data DraftSource : Type 0 where
  inherited : DraftSource
  generated : DraftSource
  fallback : DraftSource

pub record Drafts : Type 0 where
  pub source : DraftSource
  pub phases : List Draft
  pub has_notice : Bool

-- `xs[:n]`
unfoldable pub first_of {ℓ} : {A : Type ℓ} → ℕ → List A → List A
first_of zero xs = []
first_of (suc n) [] = []
first_of (suc n) (x ∷ xs) = x ∷ first_of n xs

abbrev pub max_phases : ℕ
max_phases = 8

unfoldable pub fallback_phase : Text → Draft
fallback_phase name = record {
  name = name;
  minutes = none;
  teacher_prompt = [];
  task = [];
  materials = [];
  cautions = [];
  source_span = [];
}

unfoldable pub fallback_phases : List Draft
unfolding fallback_phase
fallback_phases =
    fallback_phase (codes "도입") ∷ fallback_phase (codes "활동1") ∷ fallback_phase (codes "정리") ∷ []

-- `minutes if minutes in range(181) else None`
unfoldable pub fit_minutes : Option Minutes → Option ℕ
fit_minutes none = none
fit_minutes (some (Minutes.negsuc n)) = none
fit_minutes (some (Minutes.pos n)) = if ltb n 181 then some n else none

-- `_fit`, with the limits of `FIELD_LIMITS`.
unfoldable pub fit : PhaseItem → Draft
unfolding first_of fit_minutes
fit item = record {
  name = first_of 50 item.name;
  minutes = fit_minutes item.minutes;
  teacher_prompt = first_of 2000 item.teacher_prompt;
  task = first_of 2000 item.task;
  materials = first_of 4000 item.materials;
  cautions = first_of 4000 item.cautions;
  source_span = first_of 4000 item.source_span;
}

unfoldable pub draft_of : Phase → Draft
draft_of p = record {
  name = p.name;
  minutes = p.minutes;
  teacher_prompt = p.teacher_prompt;
  task = p.task;
  materials = p.materials;
  cautions = p.cautions;
  source_span = p.source_span;
}

-- `_inherited`: the scenes of the newest session of the upload.
unfoldable pub phases_of_newest : Db → List Session → List Draft
unfolding draft_of
phases_of_newest db [] = []
phases_of_newest db (s ∷ ss) = map draft_of (phases_of db s.id)

unfoldable pub inherited_phases : Db → ℕ → List Draft
unfolding phases_of_newest
inherited_phases db upload_id =
    phases_of_newest db (newest_first (filter (λ s. s.upload_id == upload_id) db.sessions))

-- What the model made of the text: nothing when it failed or found two scenes at most.
unfoldable pub split_phases : Option (List PhaseItem) → List Draft
unfolding fit
split_phases none = []
split_phases (some items) = if leb (length items) 2 then [] else map fit (first_of max_phases items)

unfoldable pub split_answer : List (LlmResult (List PhaseItem)) → List Draft
unfolding split_phases
split_answer [] = []
split_answer (r ∷ rs) = split_phases r.parsed

-- `except SimulationError`; an exception of another kind goes through.
unfoldable pub recovered : Result (List (LlmResult (List PhaseItem))) → Result (List Draft)
unfolding split_answer
recovered (ok results) = ok (split_answer results)
recovered (err Code.unexpected) = err Code.unexpected
recovered (err e) = ok []

-- What the drafting uses of the model, the prompt file and the stored PDF, with `str.strip`; the text
-- is none where reading the PDF raises.
pub record SplitEnv : Type 0 where
  pub call_structured : Call → Outcome (List PhaseItem)
  pub get_prompt : Text → Text
  pub extract_text : Upload → Option Text
  pub strip : Text → Text

-- `_generated`
unfoldable pub generated_phases : SplitEnv → Text → Result (List Draft)
unfolding recovered
generated_phases env text = recovered (
    call_many env.call_structured (
      record {
        kind = codes "phase_split";
        system = env.get_prompt (codes "sim_phase_split");
        user = text;
        persona_key = none;
      }
      ∷ []))

-- `order by created_at desc, id desc limit 1`
unfoldable pub later_upload : Upload → Option Upload → Upload
later_upload u none = u
later_upload u (some v) =
    if ltb v.created_at u.created_at || u.created_at == v.created_at && leb v.id u.id then u else v

unfoldable pub newest_upload : List Upload → Option Upload
unfolding later_upload
newest_upload [] = none
newest_upload (u ∷ us) = some (later_upload u (newest_upload us))

unfoldable pub get_latest_upload : Db → ℕ → Option Upload
unfolding newest_upload
get_latest_upload db user_id = newest_upload (filter (λ u. u.user_id == user_id) db.uploads)

unfoldable pub or_fallback : List Draft → Drafts
or_fallback [] = record {
  source = DraftSource.fallback;
  phases = fallback_phases;
  has_notice = true;
}
or_fallback (p ∷ ps) = record {
  source = DraftSource.generated;
  phases = p ∷ ps;
  has_notice = false;
}

unfoldable pub draft_of_text : SplitEnv → Text → Result Drafts
unfolding or_fallback generated_phases
draft_of_text env text =
    (if truthy text then generated_phases env text else ok []) >>= λ phases. ok (or_fallback phases)

unfoldable pub draft_for : SplitEnv → Upload → List Draft → Result Drafts
unfolding draft_of_text
draft_for env upload [] = or_raise (env.extract_text upload) Code.unexpected >>= λ text.
    draft_of_text env (env.strip text)
draft_for env upload (p ∷ ps) =
    ok (record { source = DraftSource.inherited; phases = p ∷ ps; has_notice = false })

unfoldable pub draft_upload : SplitEnv → Db → Option Upload → Result Drafts
unfolding draft_for inherited_phases
draft_upload env db none = err Code.no_upload
draft_upload env db (some upload) = draft_for env upload (inherited_phases db upload.id)

-- `draft_phases`
unfoldable pub draft_phases : SplitEnv → Db → ℕ → Result Drafts
unfolding draft_upload get_latest_upload
draft_phases env db user_id = draft_upload env db (get_latest_upload db user_id)
