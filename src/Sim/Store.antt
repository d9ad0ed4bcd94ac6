-- ===== src/Sim/Store.antt =====
-- The tables that the simulation uses and the queries on them (app/services/simulation/
-- session_service.py). A `Db` is what is committed; a request reads it again at every query, and
-- writes by one commit at its end.
pub mod Rows
use elp_gemini.Base.{
  Text, codes, text_eq, text_eq_iff, ℕ, zero, suc, ◌+◌, ◌-◌, ◌*◌, ◌/◌, ◌%◌, ◌≤◌, ◌<◌, min, max,
  String, ◌≡◌, refl, sym, ap, subst, ◌∙◌, ◌≢◌, ◌↔◌, ◌⊎◌, inl, inr, Bool, true, false, ◌&&◌, ◌||◌,
  not, Option, none, some, List, [], ◌∷◌, ◌++◌, map, append_assoc, append-nil, arith, ltb, leb,
  ◌==◌, if◌then◌else◌, leb→le, le→leb, ltb→lt, ==_iff, ==_refl, Bool-cases, Option-cases,
  &&-eq-true, is_some, opt_eq, length, get_elem?, filter, any, all, find, count, get_last?,
  order_by, any-append, count-append, filter-append, any-filter, any-order_by, length-order_by,
  length-append, length-filter_le, elem, zip, length-map,
}
use elp_gemini.Sim.Errors.{Code, Result, ok, err}
use elp_gemini.Sim.Model.{
  Status, Session, Phase, Persona, Origin, Structured, Utterance, Upload, LibraryItem, is_student,
  is_teacher,
}
use elp_gemini.Sim.Agreement.{Agreement, compute_agreement}

pub record Db : Type 0 where
  pub sessions : List Session
  pub phases : List Phase
  pub personas : List Persona
  pub utterances : List Utterance
  pub uploads : List Upload
  pub library : List LibraryItem
  pub app_state : List (Text × Text)

abbrev pub is_running : Status → Bool
is_running Status.running = true
is_running Status.finished = false

-- The row with a primary key.
unfoldable pub session_row : Db → ℕ → Option Session
session_row db sid = find (λ s. s.id == sid) db.sessions

-- `get_owned_session`
unfoldable pub get_owned_session : Db → ℕ → ℕ → Result Session
get_owned_session db sid user_id =
    elim (find (λ s. s.id == sid && s.user_id == user_id) db.sessions) [
      | none ↦ err Code.session_not_found
      | some s ↦ ok s
    ]

-- `_phases`
unfoldable pub phases_of : Db → ℕ → List Phase
phases_of db sid = order_by (λ p. p.idx) (filter (λ p. p.session_id == sid) db.phases)

-- `_personas`
unfoldable pub personas_of : Db → ℕ → List Persona
personas_of db sid = order_by (λ p. p.seat_idx) (filter (λ p. p.session_id == sid) db.personas)

abbrev pub in_session : ℕ → Utterance → Bool
in_session sid u = u.session_id == sid

abbrev pub in_scene : ℕ → ℕ → Utterance → Bool
in_scene sid idx u = u.session_id == sid && u.phase_idx == idx

-- `_utterances(db, sid)` and `_utterances(db, sid, idx)`
unfoldable pub utterances_of : Db → ℕ → List Utterance
utterances_of db sid = order_by (λ u. u.seq) (filter (in_session sid) db.utterances)

unfoldable pub scene_of : Db → ℕ → ℕ → List Utterance
scene_of db sid idx = order_by (λ u. u.seq) (filter (in_scene sid idx) db.utterances)

abbrev pub from_user : Option Structured → Bool
from_user none = false
from_user (some (Structured.reaction r)) = false
from_user (some (Structured.source Origin.plan)) = false
from_user (some (Structured.source Origin.user)) = true
from_user (some (Structured.event e)) = false

abbrev pub is_user_turn : ℕ → Utterance → Bool
is_user_turn sid u = u.session_id == sid && is_teacher u.speaker_type && from_user u.structured

-- `_teacher_turns_used`
unfoldable pub teacher_turns_used : Db → ℕ → ℕ
teacher_turns_used db sid = count (is_user_turn sid) db.utterances

-- `select max(seq)`; 0 stands for no row, as in `(current or 0)`.
unfoldable pub max_seq : ℕ → List Utterance → ℕ
max_seq sid [] = 0
max_seq sid (u ∷ us) = if u.session_id == sid then max u.seq (max_seq sid us) else max_seq sid us

unfoldable pub next_seq : Db → ℕ → ℕ
unfolding max_seq
next_seq db sid = max_seq sid db.utterances + 1

-- `_agreement`: the scene is the one that the session object names.
unfoldable pub agreement : Db → Session → Agreement
agreement db session =
    compute_agreement session.current_phase_idx (personas_of db session.id)
      (scene_of db session.id session.current_phase_idx)

-- The index `uq_simulation_utterances_session_seq`.
unfoldable pub taken : List Utterance → Utterance → Bool
taken us r = any (λ u. u.session_id == r.session_id && u.seq == r.seq) us

unfoldable pub next_id : List Utterance → ℕ
next_id [] = 1
next_id (u ∷ us) = max (u.id + 1) (next_id us)

-- `db.add_all(rows)` and the flush: one row after the other, each with a new id and the time of the
-- insert; none is an `IntegrityError`, after which everything is rolled back.
unfoldable pub insert_rows : ℕ → List Utterance → List Utterance → Option (List Utterance)
unfolding taken next_id
insert_rows now us [] = some us
insert_rows now us (r ∷ rs) =
    let rest = insert_rows now (us ++ record r { id = next_id us; created_at = now } ∷ []) rs in
    if taken us r then none else rest

-- An `UPDATE ... WHERE id = sid` of the session's row.
unfoldable pub update_session : ℕ → (Session → Session) → List Session → List Session
update_session sid f [] = []
update_session sid f (s ∷ ss) = (if s.id == sid then f s else s) ∷ update_session sid f ss

-- `_lock_running`: `ok` leaves the request the only writer until it commits or rolls back. A row
-- that is gone cannot be refreshed.
unfoldable pub lock_running : Db → Session → ℕ → Code → Result (Unit {0})
unfolding session_row
lock_running db session idx moved = elim (session_row db session.id) [
  | none ↦ err Code.unexpected
  | some row ↦
      if is_running row.status && row.current_phase_idx == idx
      then ok tt
      else if is_running row.status
      then err moved
      else err Code.session_finished
]
