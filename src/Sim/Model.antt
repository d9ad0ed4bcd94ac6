-- ===== src/Sim/Model.antt =====
-- app/models/simulation_*.py and the student reaction of app/services/simulation/llm_schemas.py.
-- Each record is a row. A floating-point number (confidence, temperature) is never computed with,
-- so it is kept as its text, and so is the JSON of a feedback; a time is a number of ticks.
use elp_gemini.Base.{ℕ, Bool, Text, Option}
use elp_gemini.Base.Json.{Fields}

pub data Status : Type 0 where
  running finished : Status

pub record Session : Type 0 where
  pub id : ℕ
  pub user_id : ℕ
  pub upload_id : ℕ
  pub status : Status
  pub current_phase_idx : ℕ
  pub persona_count : ℕ
  pub model_name : Text
  pub feedback_json : Option Text
  pub feedback_report_path : Option Text
  pub feedback_guideline_version : Option ℕ
  pub created_at : ℕ
  pub finished_at : Option ℕ

pub record Phase : Type 0 where
  pub session_id : ℕ
  pub idx : ℕ
  pub name : Text
  pub minutes : Option ℕ
  pub teacher_prompt : Text
  pub task : Text
  pub materials : Text
  pub cautions : Text
  pub source_span : Text

pub data Source : Type 0 where
  dataset custom : Source

pub record Persona : Type 0 where
  pub id : ℕ
  pub session_id : ℕ
  pub seat_idx : ℕ
  pub display_name : Text
  pub color_key : Text
  pub source : Source
  pub source_record_id : ℕ
  pub raw_profile : Fields
  pub adapted_profile : Fields
  pub adapted_level : Text

-- `StudentReaction.model_dump()`. Rows stored before the column `understanding` was introduced
-- have none.
pub record Reaction : Type 0 where
  pub action : Text
  pub utterance : Text
  pub artifact : Text
  pub misconception : Text
  pub ready_for_next : Bool
  pub understanding : Option ℕ
  pub confidence : Text
  pub on_task : Bool

pub data Origin : Type 0 where
  plan user : Origin

pub data Event : Type 0 where
  phase_enter agree_advance skip end_last_phase end_finish : Event

-- The JSON column `structured` of an utterance, by who speaks: a student's reaction, a teacher's
-- {"source": ...}, a system row's {"type": ...}.
pub data Structured : Type 0 where
  reaction : Reaction → Structured
  source : Origin → Structured
  event : Event → Structured

pub data Speaker : Type 0 where
  teacher student system : Speaker

pub record Utterance : Type 0 where
  pub id : ℕ
  pub session_id : ℕ
  pub phase_idx : ℕ
  pub seq : ℕ
  pub speaker_type : Speaker
  pub persona_id : Option ℕ
  pub target_persona_id : Option ℕ
  pub content : Text
  pub structured : Option Structured
  pub model_name : Option Text
  pub temperature : Option Text
  pub latency_ms : Option ℕ
  pub created_at : ℕ

abbrev pub is_student : Speaker → Bool
is_student Speaker.student = Bool.true
is_student _ = Bool.false

abbrev pub is_teacher : Speaker → Bool
is_teacher Speaker.teacher = Bool.true
is_teacher _ = Bool.false

abbrev pub is_system : Speaker → Bool
is_system Speaker.system = Bool.true
is_system _ = Bool.false

-- app/models/lessonplan_uploads.py: the columns that the simulation reads.
pub record Upload : Type 0 where
  pub id : ℕ
  pub user_id : ℕ
  pub filename : Text
  pub original_filename : Option Text
  pub created_at : ℕ

-- app/models/simulation_persona_library.py
pub record LibraryItem : Type 0 where
  pub id : ℕ
  pub user_id : ℕ
  pub raw_profile : Fields
  pub adapted_profile : Fields
  pub adapted_level : Text
  pub created_at : ℕ
