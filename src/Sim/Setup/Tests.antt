-- ===== src/Sim/Setup/Tests.antt =====
-- The limit, the library and the list of sessions at concrete tables.
use elp_gemini.Base.{
  length, Text, codes, ℕ, ◌-◌, ◌≡◌, refl, true, Option, none, some, List, [], ◌∷◌, map,
}
use elp_gemini.AppState.{Rows, get}
use elp_gemini.Base.Json
use elp_gemini.Base.Json.{Fields, Json}
use elp_gemini.Sim.Setup.Scenes.{SplitEnv}
use elp_gemini.Sim.Errors.{ok}
use elp_gemini.Sim.Model.{Session, Status, LibraryItem}
use elp_gemini.Sim.Reaction.{RawInt}
use elp_gemini.Sim.Store.{Db}
use elp_gemini.Sim.Setup.Limit.{effective_max_personas, key_sim_max_personas}
use elp_gemini.Sim.Setup.Library.{snapshot_for_session}
use elp_gemini.Sim.Setup.Listing.{SessionSummary, list_sessions, newer}
use elp_gemini.Sim.Setup.Names.{
  assign_pseudonyms, female_names, free_names, male_names, name_pool, pool_of,
}
use elp_gemini.Sim.Setup.Names.Laws.{is_distinct, pseudonyms_differ}
use elp_gemini.Sim.Gemini.{Outcome, call_many}
use elp_gemini.Sim.Setup.Adapt.{AdaptEnv, AdaptationResult, adapt_many, adapted_fields, level_label}

-- One decimal digit.
abbrev one_digit : Text → Option RawInt
one_digit [] = none
one_digit (c ∷ []) = some (RawInt.pos (c - 48))
one_digit (c ∷ d ∷ cs) = none

abbrev stored : Rows
stored = (key_sim_max_personas, codes "9") ∷ []

-- A stored value above the absolute maximum is ignored.
falls_back : effective_max_personas one_digit 6 stored ≡ 4
unfolding effective_max_personas get
falls_back = refl

abbrev item : ℕ → ℕ → LibraryItem
item id user_id = record {
  id = id;
  user_id = user_id;
  raw_profile = Fields.end;
  adapted_profile = Fields.end;
  adapted_level = [];
  created_at = 1;
}

abbrev items : List LibraryItem
items = item 1 2 ∷ item 2 3 ∷ item 3 2 ∷ []

both : snapshot_for_session items 2 (3 ∷ 1 ∷ []) ≡ ok (item 3 2 ∷ item 1 2 ∷ [])
unfolding snapshot_for_session
both = refl

abbrev session : ℕ → ℕ → Session
session id created_at = record {
  id = id;
  user_id = 2;
  upload_id = 1;
  status = Status.running;
  current_phase_idx = 0;
  persona_count = 2;
  model_name = [];
  created_at = created_at;
  feedback_json = none;
  feedback_report_path = none;
  feedback_guideline_version = none;
  finished_at = none;
}

abbrev db : Db
db = record {
  sessions = session 1 10 ∷ session 2 30 ∷ session 3 10 ∷ [];
  phases = [];
  personas = [];
  utterances = [];
  uploads = [];
  library = items;
  app_state = stored;
}

listed : map SessionSummary.id (list_sessions db 2 (some 1)) ≡ 2 ∷ 3 ∷ 1 ∷ []
unfolding list_sessions newer
listed = refl

abbrev genders : List (Option Text)
genders = some (codes "female") ∷ none ∷ some (codes "male") ∷ []

abbrev drawn : List Text
drawn = codes "서연" ∷ codes "서윤" ∷ codes "민준" ∷ []

assigned : assign_pseudonyms (λ k n. 0) genders ≡ ok drawn
unfolding assign_pseudonyms free_names pool_of female_names name_pool male_names
assigned = refl

pseudonyms_differ_example : (is_distinct drawn ≡ true) × (length drawn ≡ 3)
pseudonyms_differ_example = pseudonyms_differ (λ k n. 0) genders drawn assigned

abbrev adaptation : AdaptationResult
adaptation = record {
  strengths = codes "읽기" ∷ [];
  weaknesses = [];
  behavior_summary = codes "조용함";
  speech_style = [];
  support_needs = [];
}

abbrev adapt_env : AdaptEnv
adapt_env = record {
  strip = λ t. t;
  dumps = λ f. [];
  get_prompt = λ name. name;
  call_structured = λ call. Outcome.answered (record {
    parsed = some adaptation;
    text = [];
    model = [];
    temperature = [];
    latency_ms = 1;
  });
}

abbrev profiles : List (Option Text × Fields)
profiles =
    (none, Fields.field (codes "academic_level") (Json.str (codes "Mid: 보통")) Fields.end) ∷ []

abbrev adapted_profiles : List (Fields × Text)
adapted_profiles = (adapted_fields adaptation (codes "안정적 도달"), codes "안정적 도달") ∷ []

adapts : adapt_many adapt_env profiles ≡ ok adapted_profiles
unfolding adapt_many call_many Json.get level_label
adapts = refl

abbrev plan_db : Db
plan_db = record db {
  uploads =
      record { id = 4; user_id = 2; filename = []; original_filename = none; created_at = 1 } ∷ [];
}

-- A model that finds no scenes.
abbrev split_env : SplitEnv
split_env = record {
  call_structured = λ call. Outcome.timeout;
  get_prompt = λ k. [];
  extract_text = λ u. some (codes "plan");
  strip = λ t. t;
}
