-- ===== src/Sim/Session/Again/Answer.antt =====
-- What `regenerate` changes.
use elp_gemini.Base.{
  not, filter, ◌==◌, ℕ, ◌≤◌, ◌≡◌, refl, ap, ◌∙◌, inl, inr, false, Option, List, [], ◌∷◌, map, arith,
  count,
}
use elp_gemini.Sim.Errors.{Code, ok, err, Result-cases}
use elp_gemini.Sim.Gemini.{LlmResult, call_many}
use elp_gemini.Sim.Model.{Session, Speaker, Utterance}
use elp_gemini.Sim.Reaction.{StudentReaction, student_utterance}
use elp_gemini.Sim.Store.{Db, from_user, is_user_turn, teacher_turns_used, lock_running}
use elp_gemini.Sim.Session.Replies.{TurnResult}
use elp_gemini.Sim.Session.Rows.{Env}
use elp_gemini.Sim.Session.Again

pub record Answered (env : Env) (session : Session) (k : ℕ) (db db' : Db) : Type 0 where
  pub fresh : Utterance
  pub no_teacher : from_user fresh.structured ≡ false
  pub locked : lock_running db session session.current_phase_idx Code.conflict_retry ≡ ok tt
  pub done :
      db' ≡ record db { utterances = Again.update_row k (Again.replace_answer fresh) db.utterances }

module _ (env : Env) (session : Session) (ask : Again.AgainAsk) where
  module _ (result : LlmResult StudentReaction) (db : Db) where
    pub again_write_atomic :
        (e : Code)
        → (Again.again_write env session ask result db).0 ≡ err e
        → (Again.again_write env session ask result db).1 ≡ db
    unfolding Again.again_write
    again_write_atomic e h = ground arith

    fresh_row : Utterance
    fresh_row =
        student_utterance env.prompts.tools session.id session.current_phase_idx ask.row.seq
          ask.persona result (Again.again_context ask ask.persona)

    fresh_row-no_teacher : from_user fresh_row.structured ≡ false
    unfolding fresh_row student_utterance
    fresh_row-no_teacher = ground arith

    pub again_write-Answered :
        (reply : TurnResult)
        → (Again.again_write env session ask result db).0 ≡ ok reply
        → Answered env session ask.row.id db (Again.again_write env session ask result db).1
    unfolding Again.again_write
    again_write-Answered reply h = record {
      fresh = fresh_row;
      no_teacher = fresh_row-no_teacher;
      locked = ground arith;
      done = unfold fresh_row in ground arith;
    }

update_row-turns :
    (k : ℕ) (fresh : Utterance) (sid : ℕ) (us : List Utterance)
    → from_user fresh.structured ≡ false
    → count (is_user_turn sid) (Again.update_row k (Again.replace_answer fresh) us)
      ≤ count (is_user_turn sid) us
unfolding Again.update_row Again.replace_answer
update_row-turns k fresh sid [] h = omega arith
update_row-turns k fresh sid (u ∷ us) h = ground (arith, update_row-turns k fresh sid us h)

pub Answered-turns :
    (env : Env) (session : Session) (k sid : ℕ) {db db' : Db}
    → Answered env session k db db'
    → teacher_turns_used db' sid ≤ teacher_turns_used db sid
unfolding teacher_turns_used
Answered-turns env session k sid {db} a =
    rw a.done (update_row-turns k a.fresh sid db.utterances a.no_teacher)

-- What a reader of a row may rely on: the place of the row in the session and who speaks.
pub record Place : Type 0 where
  pub id : ℕ
  pub session_id : ℕ
  pub phase_idx : ℕ
  pub seq : ℕ
  pub speaker_type : Speaker
  pub persona_id : Option ℕ
  pub target_persona_id : Option ℕ
  pub created_at : ℕ

abbrev pub place : Utterance → Place
place u = record {
  id = u.id;
  session_id = u.session_id;
  phase_idx = u.phase_idx;
  seq = u.seq;
  speaker_type = u.speaker_type;
  persona_id = u.persona_id;
  target_persona_id = u.target_persona_id;
  created_at = u.created_at;
}

-- Of the rows with another id, everything stays.
update_row-others :
    (k : ℕ) (fresh : Utterance) (us : List Utterance)
    → filter (λ u. not (u.id == k)) (Again.update_row k (Again.replace_answer fresh) us)
      ≡ filter (λ u. not (u.id == k)) us
unfolding Again.update_row Again.replace_answer
update_row-others k fresh [] = refl
update_row-others k fresh (u ∷ us) = ground (arith, update_row-others k fresh us)

update_row-place :
    (k : ℕ) (fresh : Utterance) (us : List Utterance)
    → map place (Again.update_row k (Again.replace_answer fresh) us) ≡ map place us
unfolding Again.update_row Again.replace_answer
update_row-place k fresh [] = refl
update_row-place k fresh (u ∷ us) = ground (arith, update_row-place k fresh us)

module _ (env : Env) (session : Session) (persona_id : ℕ) (db : Db) where
  regenerate-Answered :
      (reply : TurnResult)
      → (Again.regenerate env session persona_id db).0 ≡ ok reply
      → (k : ℕ) × Answered env session k
          (env.meanwhile db)
          (Again.regenerate env session persona_id db).1
  unfolding Again.regenerate
  regenerate-Answered reply h = elim (Result-cases (Again.again_ask env session persona_id db)) [
    | inr (c, e) ↦ absurd (ground (arith, e))
    | inl (ask, e) ↦ elim (Result-cases (call_many env.call_structured (ask.call ∷ []))) [
      | inr (c, f) ↦ absurd (ground (arith, e, f))
      | inl ([], f) ↦ absurd (ground (arith, e, f))
      | inl (r ∷ rs, f) ↦ (
        ask.row.id,
        rw (e, Again.regenerate)
            (rw (f, Again.regenerate)
              (again_write-Answered env session ask r (env.meanwhile db) reply
                (ground (arith, e, f)))),
      )
    ]
  ]

  -- Asking again for an answer adds and removes no row and moves none: the ids, scenes, sequence
  -- numbers, speakers, addressees and times are those of before, in the tables that other requests
  -- had left when the model had answered. All rows but those of one id stay whole, and no session
  -- has more teacher's turns than before.
  pub regenerate_in_place :
      (reply : TurnResult)
      → (Again.regenerate env session persona_id db).0 ≡ ok reply
      → let db' = (Again.regenerate env session persona_id db).1 in
        (map place db'.utterances ≡ map place (env.meanwhile db).utterances)
        × ((k : ℕ) × (filter (λ u. not (u.id == k)) db'.utterances
              ≡ filter (λ u. not (u.id == k)) (env.meanwhile db).utterances))
        × ((sid : ℕ) → teacher_turns_used db' sid ≤ teacher_turns_used (env.meanwhile db) sid)
  regenerate_in_place reply h =
      let (k, a) = regenerate-Answered reply h in
      (
        ap (λ (d : Db). map place d.utterances) a.done
            ∙ update_row-place k a.fresh (env.meanwhile db).utterances,
        (
          k,
          ap (λ (d : Db). filter (λ (u : Utterance). not (u.id == k)) d.utterances) a.done
              ∙ update_row-others k a.fresh (env.meanwhile db).utterances,
        ),
        (λ sid. Answered-turns env session k sid a),
      )
