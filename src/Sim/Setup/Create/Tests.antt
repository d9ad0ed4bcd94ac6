-- ===== src/Sim/Setup/Create/Tests.antt =====
-- A session that is created from a personal persona and one of the pool, or from two drawn at random.
use elp_gemini.AppState.{get}
use elp_gemini.Base.Dicts.{lookup}
use elp_gemini.Sim.Setup.Library.{snapshot_for_session}
use elp_gemini.Base.Texts.{show}
use elp_gemini.Sim.Setup.Scenes.{get_latest_upload}
use elp_gemini.Sim.Setup.Choose.{choose_students, requested, Selection, PoolRecord, PersonaPick}
use elp_gemini.Sim.Setup.Create.{CreateSessionRequest, CreateEnv, create_session}
use elp_gemini.Base.{order_by, Text, codes, ℕ, ◌≡◌, ◌≤◌, refl, none, some, List, [], ◌∷◌}
use elp_gemini.AppState
use elp_gemini.Base.Json
use elp_gemini.Base.Json.{Fields, Json}
use elp_gemini.Sim.Errors.{Code, ok, err}
use elp_gemini.Sim.Gemini.{Outcome, call_many}
use elp_gemini.Sim.Model.{Session, Status}
use elp_gemini.Sim.Store.{Db}
use elp_gemini.Sim.Setup.Adapt.{AdaptEnv, AdaptationResult, adapt_many, level_label}
use elp_gemini.Sim.Setup.Limit.{effective_max_personas}
use elp_gemini.Sim.Setup.Names.{
  pool_of, free_names, assign_pseudonyms, name_pool, female_names, male_names,
}
use elp_gemini.Sim.Setup.Create.Laws.{IsCreated, create_session-IsCreated}

abbrev adaptation : AdaptationResult
adaptation = record {
  strengths = [];
  weaknesses = [];
  behavior_summary = [];
  speech_style = [];
  support_needs = [];
}

abbrev adapt_env : AdaptEnv
adapt_env = record {
  strip = λ t. t;
  dumps = λ f. [];
  get_prompt = λ name. name;
  call_structured = λ call. Outcome.answered (record {
    parsed = some adaptation;
    text = [];
    model = [];
    temperature = [];
    latency_ms = 1;
  });
}

abbrev pool_record : ℕ → PoolRecord
pool_record id = record {
  id = id;
  grade = 5;
  academic_level = codes "Low";
  gender = none;
  profile = Fields.field (codes "academic_level") (Json.str (codes "Low")) Fields.end;
}

abbrev env : CreateEnv
env = record {
  pool = pool_record 7 ∷ pool_record 8 ∷ [];
  draws = record { level_order = codes "Low" ∷ []; choice_at = λ k n. 0; name_draw = λ k n. 0 };
  adapt = adapt_env;
  int = λ t. none;
  sim_max_personas = 6;
  model_name = codes "gemini";
  now = 9;
  meanwhile = λ db. db;
}

abbrev db : Db
db = record {
  sessions = [];
  phases = [];
  personas = [];
  utterances = [];
  uploads =
      record { id = 4; user_id = 2; filename = []; original_filename = none; created_at = 1 } ∷ [];
  library =
      record {
        id = 3;
        user_id = 2;
        raw_profile = Fields.end;
        adapted_profile = Fields.end;
        adapted_level = [];
        created_at = 1;
      }
      ∷ [];
  app_state = [];
}

abbrev pick : Text → Text → PersonaPick
pick ref pseudonym = record { ref = ref; pseudonym = pseudonym }

abbrev request : List PersonaPick → CreateSessionRequest
request picks = record { selection = Selection.personas picks; phases = [] }

abbrev body : CreateSessionRequest
body = request (pick (codes "custom:3") (codes "다온") ∷ pick (codes "8") (codes "서연") ∷ [])

abbrev session : Session
session = record {
  id = 1;
  user_id = 2;
  upload_id = 4;
  status = Status.running;
  current_phase_idx = 0;
  persona_count = 2;
  model_name = codes "gemini";
  created_at = 9;
  feedback_json = none;
  feedback_report_path = none;
  feedback_guideline_version = none;
  finished_at = none;
}

created : (create_session env 2 body db).0 ≡ ok session
unfolding create_session get_latest_upload effective_max_personas AppState.get requested
    choose_students name_pool female_names male_names show snapshot_for_session lookup adapt_many
    call_many Json.get level_label
created = refl

-- "custom:03" is no other spelling of "custom:3".
respelled :
    (create_session env 2 (request (pick (codes "custom:03") (codes "다온") ∷ [])) db).0
    ≡ err Code.unknown_persona
unfolding create_session get_latest_upload effective_max_personas get requested choose_students
    name_pool female_names male_names show
respelled = refl

abbrev random_body : CreateSessionRequest
random_body = record {
  selection = Selection.random (record { n = 2; grade = some 5; level = none });
  phases = [];
}

at_random : (create_session env 2 random_body db).0 ≡ ok session
unfolding create_session get_latest_upload effective_max_personas AppState.get requested
    choose_students name_pool female_names male_names show snapshot_for_session lookup adapt_many
    call_many Json.get level_label order_by assign_pseudonyms free_names pool_of
at_random = refl

create_session-IsCreated_example :
    IsCreated 2 2 db (create_session env 2 body db).1 session
    × (2 ≤ effective_max_personas env.int 6 db.app_state)
unfolding requested
create_session-IsCreated_example = create_session-IsCreated env 2 body db session created
