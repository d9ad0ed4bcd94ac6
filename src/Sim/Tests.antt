-- ===== src/Sim/Tests.antt =====
-- The simulation's theorems at concrete sessions, and runs of its operations.
pub mod Reactions
pub mod Requests
pub mod Runs
use elp_gemini.Base.{
  Text, codes, ℕ, ◌+◌, ◌≤◌, ◌<◌, ◌≡◌, refl, ◌≢◌, Bool, true, false, not, none, some, [], ◌∷◌, ◌++◌,
  map, arith, leb, ◌==◌, length, get_elem?, filter, order_by,
}
use elp_gemini.Base.Texts.{show}
use elp_gemini.Base.Json
use elp_gemini.Base.Json.{Fields}
use elp_gemini.Sim.Errors.{is_ok, map_result, Code, ok, err}
use elp_gemini.Sim.Gemini.{LlmResult, Outcome, call_many}
use elp_gemini.Sim.Gemini.Laws.{call_many-length}
use elp_gemini.Sim.Model.{Status, Session, Phase, Persona, Source, Structured}
use elp_gemini.Sim.Agreement.{compute_agreement, row_agrees, valid_row}
use elp_gemini.Sim.Agreement.Laws.{agreed-eq-filter, all_agreed-append, ever_agreed}
use elp_gemini.Sim.Reaction.{
  TextTools, RawInt, RawReaction, StudentReaction, Context, validate, stored_understanding, is_echo,
  dump, student_utterance,
}
use elp_gemini.Sim.Reaction.Laws.{
  stored_understanding_rise, echo_never_raises, off_task_keeps, misconception_never_agrees,
}
use elp_gemini.Sim.Prompt.{
  previous_utterance, previous_artifact, previous_understanding, last_valid, shown_before,
  transcript_line, student_call,
}
use elp_gemini.Sim.Store.{
  Db, scene_of, session_row, teacher_turns_used, next_seq, insert_rows, update_session,
  lock_running, personas_of, phases_of, agreement, utterances_of,
}
use elp_gemini.Sim.Store.Rows.{stamp}
use elp_gemini.Sim.Session.Replies.{TurnResult, turn_result}
use elp_gemini.Sim.Session.Rows.{system_row, Env}
use elp_gemini.Sim.Session.Enter
use elp_gemini.Sim.Session.Enter.Scene.{enter_phase_again, enter_none_agreed}
use elp_gemini.Sim.Session.Say
use elp_gemini.Sim.Session.Say.Turns.{say_write_commits, say_uses_one_turn}
use elp_gemini.Sim.Session.Move
use elp_gemini.Sim.Session.Move.Scenes.{advance-Moved, advance_needs_agreement, Moved}
use elp_gemini.Sim.Session.Again
use elp_gemini.Sim.Session.Again.Answer.{regenerate_in_place, place}
use elp_gemini.Sim.Run
use elp_gemini.Sim.Run.Others.{SameSession}
use elp_gemini.Sim.Run.Frozen.{finished_is_final}
use elp_gemini.Sim.Run.Sound.{turns_within_limit}
use elp_gemini.Sim.Run.Scenes.{IsPlaced, Reach-IsPlaced}

abbrev pub tools : TextTools
tools = record {
  strip = λ t. t;
  sub_filler = λ t. t;
  sub_separators = filter (λ c. not (c == b' '));
  quoted = [];
  longest_match = λ a b. 0;
  stuck_summary = λ t. false;
  stuck_words = λ t. false;
  has_word_char = λ t. true;
  split_sentences = λ t. t ∷ [];
}

abbrev pub answer : ℕ → Text → Text → Bool → StudentReaction
answer understanding utterance misconception on_task = record {
  action = codes "writes";
  utterance = utterance;
  artifact = [];
  misconception = misconception;
  ready_for_next = true;
  understanding = understanding;
  confidence = codes "0.5";
  on_task = on_task;
}

abbrev pub result_of : StudentReaction → LlmResult StudentReaction
result_of r = record {
  parsed = some r;
  text = codes "{}";
  model = codes "gemini";
  temperature = codes "1.0";
  latency_ms = 20;
}

abbrev pub garbled : LlmResult StudentReaction
garbled = record {
  parsed = none;
  text = codes "{";
  model = codes "gemini";
  temperature = codes "1.0";
  latency_ms = 20;
}

abbrev pub env_of : LlmResult StudentReaction → Env
env_of r = record {
  prompts = record { tools = tools; dumps = λ f. []; get_prompt = λ k. k };
  call_structured = λ c. Outcome.answered r;
  meanwhile = λ db. db;
  now = 100;
  max_teacher_turns = 2;
}

abbrev pub session : Session
session = record {
  id = 7;
  user_id = 1;
  upload_id = 3;
  status = Status.running;
  current_phase_idx = 0;
  persona_count = 2;
  model_name = codes "gemini";
  created_at = 5;
  feedback_json = none;
  feedback_report_path = none;
  feedback_guideline_version = none;
  finished_at = none;
}

abbrev pub phase : ℕ → Phase
phase idx = record {
  session_id = 7;
  idx = idx;
  name = codes "intro";
  minutes = some 5;
  teacher_prompt = codes "What is a half?";
  task = [];
  materials = [];
  cautions = [];
  source_span = [];
}

abbrev pub student : ℕ → ℕ → Persona
student id seat = record {
  id = id;
  session_id = 7;
  seat_idx = seat;
  display_name = codes "Jiwoo";
  color_key = codes "p1";
  source = Source.dataset;
  source_record_id = 11;
  raw_profile = Fields.end;
  adapted_profile = Fields.end;
  adapted_level = codes "Average";
}

-- A session that was just created, with two scenes and two students.
abbrev pub created : Db
created = record {
  sessions = session ∷ [];
  phases = phase 0 ∷ phase 1 ∷ [];
  personas = student 21 0 ∷ student 22 1 ∷ [];
  utterances = [];
  uploads = [];
  library = [];
  app_state = [];
}

abbrev pub env : Env
env = env_of (result_of (answer 90 (codes "It is one of two equal parts") [] true))

-- The first scene entered; then the teacher speaks once and both students agree.
abbrev pub entered : Db
entered = (Enter.enter_phase env session 0 created).1

abbrev pub question : Say.SayRequest
question = record { content = codes "Show it on the paper"; target_persona_id = none }

abbrev pub env_say : Env
env_say = env_of (result_of (answer 90 (codes "Two halves make a whole") [] true))

abbrev pub spoken : Db
spoken = (Say.say env_say session question entered).1

-- Everything that the runs below compute with.
unfoldable pub opened : ℕ
unfolding Enter.enter_phase Enter.enter_write Say.say Say.say_ask Say.say_write Say.say_rows
    Move.advance Move.finish Again.regenerate Again.update_row update_session session_row scene_of
    phases_of personas_of utterances_of teacher_turns_used next_seq insert_rows lock_running
    turn_result agreement compute_agreement call_many student_utterance map_result student_call
    transcript_line shown_before show order_by Json.put Json.get Json.merge last_valid
    previous_understanding previous_artifact previous_utterance is_echo row_agrees valid_row dump
    stored_understanding system_row
opened = 0

abbrev pub entered_reply : TurnResult
entered_reply = turn_result entered session (scene_of entered 7 0)

pub entered_ok : (Enter.enter_phase env session 0 created).0 ≡ ok entered_reply
unfolding opened
entered_ok = refl

-- The same words again would have been an echo, and the value would have stayed at 79.
echo_stays :
    (agreement (Say.say env session question entered).1 session).understanding
    ≡ (21, some 79) ∷ (22, some 79) ∷ []
unfolding opened
echo_stays = refl

pub spoken_agreed : (agreement spoken session).all_agreed ≡ true
unfolding opened
spoken_agreed = refl
