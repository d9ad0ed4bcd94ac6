-- ===== src/Sim/Setup/Create.antt =====
-- `create_session` of app/services/simulation/session_service.py. The request has passed the checks of
-- its schema. The pool of profiles, the draws and the model are parameters.
pub mod Laws
pub mod Tests
use elp_gemini.Base.{
  Text, codes, text_eq, text_eq_iff, ℕ, zero, suc, ◌+◌, ◌-◌, ◌*◌, ◌/◌, ◌%◌, ◌≤◌, ◌<◌, min, max,
  String, ◌≡◌, refl, sym, ap, subst, ◌∙◌, ◌≢◌, ◌↔◌, ◌⊎◌, inl, inr, Bool, true, false, ◌&&◌, ◌||◌,
  not, Option, none, some, List, [], ◌∷◌, ◌++◌, map, append_assoc, append-nil, arith, ltb, leb,
  ◌==◌, if◌then◌else◌, leb→le, le→leb, ltb→lt, ==_iff, ==_refl, Bool-cases, Option-cases,
  &&-eq-true, is_some, opt_eq, some_inj, length, get_elem?, filter, any, all, find, count,
  get_last?, order_by, any-append, count-append, filter-append, any-filter, any-order_by,
  length-order_by, length-append, length-filter_le, elem, zip, length-map, List-cases, get_elem?-lt,
}
use elp_gemini.Base.Texts.{show}
use elp_gemini.Base.Json.{Fields}
use elp_gemini.Base.Dicts.{lookup}
use elp_gemini.Sim.Errors.{Code, Result, ok, err, ◌>>=◌, ◌>>◌, raise_if, or_raise}
use elp_gemini.Sim.Model.{Session, Status, Phase, Persona, Source, Upload, LibraryItem}
use elp_gemini.Sim.Store.{Db}
use elp_gemini.Sim.Reaction.{RawInt}
use elp_gemini.Sim.Setup.Limit.{effective_max_personas}
use elp_gemini.Sim.Setup.Adapt.{AdaptEnv, adapt_many}
use elp_gemini.Sim.Setup.Scenes.{Draft, get_latest_upload}
use elp_gemini.Sim.Setup.Choose.{
  PoolRecord, Selection, Draws, requested, Chosen, choose_students, cons_ok,
}

pub record CreateSessionRequest : Type 0 where
  pub selection : Selection
  pub phases : List Draft

-- What the request meets outside; `meanwhile` is what other requests commit while the model adapts
-- the profiles.
pub record CreateEnv : Type 0 where
  pub pool : List PoolRecord
  pub draws : Draws
  pub adapt : AdaptEnv
  pub int : Text → Option RawInt
  pub sim_max_personas : ℕ
  pub model_name : Text
  pub now : ℕ
  pub meanwhile : Db → Db

-- A seat, with the name and the adapted profile and level that are zipped with it.
pub record Student : Type 0 where
  pub name : Text
  pub source : Source
  pub source_record_id : ℕ
  pub raw_profile : Fields
  pub adapted_profile : Fields
  pub adapted_level : Text

-- `by_ref.items()`, as `adapt_many` takes them.
abbrev pub adapt_item : Text × PoolRecord → Option Text × Fields
adapt_item e = (some e.0, e.1.profile)

-- `dict(zip(by_ref, adapted))`
unfoldable pub adapted_by_ref :
    List (Text × PoolRecord) → List (Fields × Text) → List (Text × (Fields × Text))
adapted_by_ref [] adapted = []
adapted_by_ref (e ∷ es) [] = []
adapted_by_ref (e ∷ es) (a ∷ rs) = (e.0, a) ∷ adapted_by_ref es rs

-- One round of the loop over the refs; a ref that `by_ref` does not have is a `KeyError`.
abbrev pub student_of :
    Text → Option LibraryItem → Option PoolRecord → Option (Fields × Text) → Result Student
student_of name (some item) raw adapted = ok (record {
  name = name;
  source = Source.custom;
  source_record_id = item.id;
  raw_profile = item.raw_profile;
  adapted_profile = item.adapted_profile;
  adapted_level = item.adapted_level;
})
student_of name none (some r) (some a) = ok (record {
  name = name;
  source = Source.dataset;
  source_record_id = r.id;
  raw_profile = r.profile;
  adapted_profile = a.0;
  adapted_level = a.1;
})
student_of name none (some r) none = err Code.unexpected
student_of name none none adapted = err Code.unexpected

-- The loop, and `zip(seats, names, adapted)`; there is a name for each ref.
unfoldable pub students_of :
    Chosen → List (Text × (Fields × Text)) → List Text → List Text → Result (List Student)
students_of chosen adapted [] names = ok []
students_of chosen adapted (ref ∷ refs) [] = ok []
students_of chosen adapted (ref ∷ refs) (name ∷ names) =
    student_of name (lookup ref chosen.custom) (lookup ref chosen.by_ref) (lookup ref adapted)
    >>= λ s. cons_ok s (students_of chosen adapted refs names)

unfoldable pub next_session_id : List Session → ℕ
next_session_id [] = 1
next_session_id (s ∷ ss) = max (s.id + 1) (next_session_id ss)

unfoldable pub next_persona_id : List Persona → ℕ
next_persona_id [] = 1
next_persona_id (p ∷ ps) = max (p.id + 1) (next_persona_id ps)

unfoldable pub new_session : CreateEnv → ℕ → ℕ → ℕ → ℕ → Session
new_session env sid user_id upload_id persona_count = record {
  id = sid;
  user_id = user_id;
  upload_id = upload_id;
  status = Status.running;
  current_phase_idx = 0;
  persona_count = persona_count;
  model_name = env.model_name;
  created_at = env.now;
  feedback_json = none;
  feedback_report_path = none;
  feedback_guideline_version = none;
  finished_at = none;
}

-- The loops that add the rows, from an index.
unfoldable pub phase_rows : ℕ → ℕ → List Draft → List Phase
phase_rows sid idx [] = []
phase_rows sid idx (d ∷ ds) =
    record {
      session_id = sid;
      idx = idx;
      name = d.name;
      minutes = d.minutes;
      teacher_prompt = d.teacher_prompt;
      task = d.task;
      materials = d.materials;
      cautions = d.cautions;
      source_span = d.source_span;
    }
    ∷ phase_rows sid (idx + 1) ds

unfoldable pub persona_rows : ℕ → ℕ → ℕ → List Student → List Persona
persona_rows sid next seat_idx [] = []
persona_rows sid next seat_idx (s ∷ ss) =
    record {
      id = next;
      session_id = sid;
      seat_idx = seat_idx;
      display_name = s.name;
      color_key = codes "p" ++ show (seat_idx + 1);
      source = s.source;
      source_record_id = s.source_record_id;
      raw_profile = s.raw_profile;
      adapted_profile = s.adapted_profile;
      adapted_level = s.adapted_level;
    }
    ∷ persona_rows sid (next + 1) (seat_idx + 1) ss

-- The rows, committed together.
unfoldable pub insert_session :
    CreateEnv → ℕ → List Draft → ℕ → Db → Result (List Student) → Result Session × Db
unfolding new_session phase_rows persona_rows next_session_id next_persona_id
insert_session env user_id phases upload_id db (err e) = (err e, db)
insert_session env user_id phases upload_id db (ok students) =
    let sid = next_session_id db.sessions in
    let s = new_session env sid user_id upload_id (length students) in
    (
      ok s,
      record db {
        sessions = db.sessions ++ s ∷ [];
        phases = db.phases ++ phase_rows sid 0 phases;
        personas = db.personas ++ persona_rows sid (next_persona_id db.personas) 0 students;
      },
    )

-- The checks and the choice of the students, before the model is called.
unfoldable pub prepare : CreateEnv → ℕ → Selection → Db → Result (Upload × Chosen)
prepare env user_id selection db =
    or_raise (get_latest_upload db user_id) Code.no_upload >>= λ upload.
    let limit = effective_max_personas env.int env.sim_max_personas db.app_state in
    raise_if (ltb limit (requested selection)) Code.too_many_personas
    >> choose_students env.draws env.pool db.library user_id selection
    >>= λ chosen. ok (upload, chosen)

abbrev pub with_students : Chosen → Result (List (Fields × Text)) → Result (List Student)
with_students chosen adapted =
    adapted >>= λ rs. students_of chosen (adapted_by_ref chosen.by_ref rs) chosen.refs chosen.names

unfoldable pub after_prepare :
    CreateEnv → ℕ → List Draft → Db → Result (Upload × Chosen) → Result Session × Db
unfolding insert_session students_of adapted_by_ref
after_prepare env user_id phases db (err e) = (err e, db)
after_prepare env user_id phases db (ok (upload, chosen)) =
    insert_session env user_id phases upload.id (env.meanwhile db)
      (with_students chosen (adapt_many env.adapt (map adapt_item chosen.by_ref)))

unfoldable pub create_session : CreateEnv → ℕ → CreateSessionRequest → Db → Result Session × Db
unfolding after_prepare prepare
create_session env user_id body db =
    after_prepare env user_id body.phases db (prepare env user_id body.selection db)
