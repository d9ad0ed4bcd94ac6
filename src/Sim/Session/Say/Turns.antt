-- ===== src/Sim/Session/Say/Turns.antt =====
-- `say` under the lock: its rows, its commit and the number of the teacher's turns.
use elp_gemini.Base.{
  ℕ, ◌+◌, ◌≤◌, ◌<◌, ◌≡◌, refl, inl, inr, true, List, [], ◌∷◌, ◌++◌, arith, ◌==◌, if◌then◌else◌,
  Option-cases, count,
}
use elp_gemini.Sim.Errors.{Result-cases, is_ok, Code, ok, err}
use elp_gemini.Sim.Gemini.{LlmResult, call_many}
use elp_gemini.Sim.Model.{Session, Persona}
use elp_gemini.Sim.Reaction.{StudentReaction, Context, student_utterance}
use elp_gemini.Sim.Store.{Db, teacher_turns_used, is_user_turn, next_seq, insert_rows, lock_running}
use elp_gemini.Sim.Store.Rows.{Runs, insert-Runs, stamp, turns-insert, next_seq-above}
use elp_gemini.Sim.Session.Replies.{TurnResult}
use elp_gemini.Sim.Session.Rows.{Env, student_rows}
use elp_gemini.Sim.Session.Say

pub student_rows-Runs :
    (env : Env) (sid idx n : ℕ) (ctx : Persona → Context) (ps : List Persona)
    (rs : List (LlmResult StudentReaction))
    → Runs sid n (student_rows env sid idx n ctx ps rs)
unfolding student_rows student_utterance
student_rows-Runs env sid idx n ctx [] rs = tt
student_rows-Runs env sid idx n ctx (p ∷ ps) [] = tt
student_rows-Runs env sid idx n ctx (p ∷ ps) (r ∷ rs) =
    (refl, refl, student_rows-Runs env sid idx (n + 1) ctx ps rs)

pub student_rows-turns :
    (env : Env) (sid k idx n : ℕ) (ctx : Persona → Context) (ps : List Persona)
    (rs : List (LlmResult StudentReaction))
    → count (is_user_turn k) (student_rows env sid idx n ctx ps rs) ≡ 0
unfolding student_rows student_utterance
student_rows-turns env sid k idx n ctx [] rs = refl
student_rows-turns env sid k idx n ctx (p ∷ ps) [] = refl
student_rows-turns env sid k idx n ctx (p ∷ ps) (r ∷ rs) =
    ground (arith, student_rows-turns env sid k idx (n + 1) ctx ps rs)

module _ (env : Env) (session : Session) (body : Say.SayRequest) (ask : Say.SayAsk) where
  module _ (results : List (LlmResult StudentReaction)) where
    pub say_rows-Runs : (n : ℕ) → Runs session.id n (Say.say_rows env session body ask results n)
    unfolding Say.say_rows
    say_rows-Runs n = (refl, refl, student_rows-Runs env session.id _ (n + 1) _ _ results)

    say_rows-turns :
        (n k : ℕ)
        → count (is_user_turn k) (Say.say_rows env session body ask results n)
          ≡ (if session.id == k then 1 else 0)
    unfolding Say.say_rows
    say_rows-turns n k = ground (
      arith,
      student_rows-turns env session.id k session.current_phase_idx (n + 1)
          (Say.say_context ask.stored body.content) ask.responders results,
    )

    -- Under the lock and below the limit the commit goes through: the unique index on (session,
    -- seq) is never hit. It appends the teacher's row and the students' rows, and changes no
    -- other table.
    pub say_write_commits :
        (db : Db)
        → lock_running db session session.current_phase_idx Code.conflict_retry ≡ ok tt
        → teacher_turns_used db session.id < env.max_teacher_turns
        → (is_ok (Say.say_write env session body ask results db).0 ≡ true)
          × ((Say.say_write env session body ask results db).1 ≡ record db {
            utterances =
                db.utterances
                ++ stamp env.now db.utterances
                    (Say.say_rows env session body ask results (next_seq db session.id));
          })
    unfolding Say.say_write
    say_write_commits db locked room =
        let seq = next_seq db session.id in
        let inserted =
          insert-Runs env.now session.id seq db.utterances
            (Say.say_rows env session body ask results seq) (say_rows-Runs seq)
            (next_seq-above db session.id) in
        (ground (arith, inserted), ground (arith, inserted))

    say_write_turns :
        (db : Db) (k : ℕ) (reply : TurnResult)
        → (Say.say_write env session body ask results db).0 ≡ ok reply
        → (teacher_turns_used (Say.say_write env session body ask results db).1 k
            ≡ teacher_turns_used db k + (if session.id == k then 1 else 0))
          × (teacher_turns_used db session.id < env.max_teacher_turns)
    unfolding Say.say_write teacher_turns_used
    say_write_turns db k reply h =
        let rows = Say.say_rows env session body ask results (next_seq db session.id) in
        elim (Option-cases (insert_rows env.now db.utterances rows)) [
          | inl e ↦ ground arith
          | inr (us, e) ↦ ground (
            arith,
            turns-insert env.now k db.utterances rows us e,
            say_rows-turns (next_seq db session.id) k,
          )
        ]

    -- An error leaves the tables alone.
    pub say_write_atomic :
        (db : Db) (e : Code)
        → (Say.say_write env session body ask results db).0 ≡ err e
        → (Say.say_write env session body ask results db).1 ≡ db
    unfolding Say.say_write
    say_write_atomic db e h = ground arith

    pub say_write_within :
        (db : Db) (k : ℕ)
        → teacher_turns_used db k ≤ env.max_teacher_turns
        → teacher_turns_used (Say.say_write env session body ask results db).1 k
          ≤ env.max_teacher_turns
    say_write_within db k h =
        elim (Result-cases (Say.say_write env session body ask results db).0) [
          | inl (reply, e) ↦ ground (arith, say_write_turns db k reply e)
          | inr (c, e) ↦ rw (say_write_atomic db c e) h
        ]

module _ (env : Env) (session : Session) (body : Say.SayRequest) where
  -- Whatever other requests committed while the model was asked: if they kept within the limit, so
  -- does this request, for every session.
  pub say_within_limit :
      (db : Db) (k : ℕ)
      → teacher_turns_used (env.meanwhile db) k ≤ env.max_teacher_turns
      → teacher_turns_used db k ≤ env.max_teacher_turns
      → teacher_turns_used (Say.say env session body db).1 k ≤ env.max_teacher_turns
  unfolding Say.say
  say_within_limit db k h h' = elim (Result-cases (Say.say_ask env session body db)) [
    | inr (c, e) ↦ rw (e, Say.say) h'
    | inl (ask, e) ↦
        rw (e, Say.say)
          (elim (Result-cases (call_many env.call_structured ask.calls)) [
            | inr (c, f) ↦ rw (f, Say.say) h
            | inl (rs, f) ↦
                rw (f, Say.say) (say_write_within env session body ask rs (env.meanwhile db) k h)
          ])
  ]

  -- A reply without an error has used up one of the session's turns, of which there was one left,
  -- and none of another session's.
  pub say_uses_one_turn :
      (db : Db) (k : ℕ) (reply : TurnResult)
      → (Say.say env session body db).0 ≡ ok reply
      → (teacher_turns_used (Say.say env session body db).1 k
          ≡ teacher_turns_used (env.meanwhile db) k + (if session.id == k then 1 else 0))
        × (teacher_turns_used (env.meanwhile db) session.id < env.max_teacher_turns)
  unfolding Say.say
  say_uses_one_turn db k reply h = elim (Result-cases (Say.say_ask env session body db)) [
    | inr (c, e) ↦ ground (arith, h)
    | inl (ask, e) ↦ elim (Result-cases (call_many env.call_structured ask.calls)) [
      | inr (c, f) ↦ ground (arith, h)
      | inl (rs, f) ↦
          ground (arith, h, say_write_turns env session body ask rs (env.meanwhile db) k reply)
    ]
  ]
