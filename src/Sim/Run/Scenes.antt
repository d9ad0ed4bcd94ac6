-- ===== src/Sim/Run/Scenes.antt =====
-- The scene and the time of the end of a session over the steps of Run.
use elp_gemini.Base.{
  ℕ, ◌+◌, ◌<◌, ◌≡◌, ◌⊎◌, inl, inr, true, not, some, List, arith, ◌==◌, ==_iff, Bool-cases,
  Option-cases, is_some, length, get_elem?-lt,
}
use elp_gemini.Sim.Errors.{Code, ok, Result-cases}
use elp_gemini.Sim.Gemini.{LlmResult}
use elp_gemini.Sim.Model.{Session, Phase, Persona}
use elp_gemini.Sim.Reaction.{StudentReaction}
use elp_gemini.Sim.Store.{Db, is_running, phases_of, session_row, lock_running}
use elp_gemini.Sim.Session.Rows.{Env}
use elp_gemini.Sim.Session.Enter
use elp_gemini.Sim.Session.Say
use elp_gemini.Sim.Session.Move
use elp_gemini.Sim.Session.Move.Commits.{
  Change, to_next, to_end, Committed, advance-Committed, finish-Committed,
}
use elp_gemini.Sim.Session.Move.Scenes.{advance_atomic, finish_atomic, commit_move-row}
use elp_gemini.Sim.Session.Again
use elp_gemini.Sim.Session.Feedback
use elp_gemini.Sim.Run
use elp_gemini.Sim.Run.Others.{Change-keeps, save_feedback-row}

-- The invariant of one session's row.
pub record IsPlaced (sid : ℕ) (db : Db) : Type 0 where
  pub in_scene :
      (row : Session)
      → session_row db sid ≡ some row
      → row.current_phase_idx < length (phases_of db sid)
  pub end_time :
      (row : Session)
      → session_row db sid ≡ some row
      → is_running row.status ≡ not (is_some row.finished_at)

-- The tables of sessions and scenes are those of before.
abbrev SameTables : Db → Db → Type 0
SameTables db db' = (db'.sessions ≡ db.sessions) × (db'.phases ≡ db.phases)

SameTables-IsPlaced :
    (sid : ℕ) {db db' : Db} → SameTables db db' → IsPlaced sid db → IsPlaced sid db'
unfolding session_row phases_of
SameTables-IsPlaced sid {db} {db'} (s, p) h = record {
  in_scene = λ row e. rw p (h.in_scene row (rw (← s) e));
  end_time = λ row e. h.end_time row (rw (← s) e);
}

module _ (env : Env) (session : Session) (sid : ℕ) (db : Db) where
  enter-tables :
      (idx : ℕ) (phase : Phase) (ps : List Persona) (results : List (LlmResult StudentReaction))
      → SameTables db (Enter.enter_write env session idx phase ps results db).1
  unfolding Enter.enter_write
  enter-tables idx phase ps results = (ground arith, ground arith)

  say-tables :
      (body : Say.SayRequest) (ask : Say.SayAsk) (results : List (LlmResult StudentReaction))
      → SameTables db (Say.say_write env session body ask results db).1
  unfolding Say.say_write
  say-tables body ask results = (ground arith, ground arith)

  again-tables :
      (ask : Again.AgainAsk) (result : LlmResult StudentReaction)
      → SameTables db (Again.again_write env session ask result db).1
  unfolding Again.again_write
  again-tables ask result = (ground arith, ground arith)

  commit_move-phases : (db' : Db) (c : Committed env session db db') → db'.phases ≡ db.phases
  unfolding Move.commit_move
  commit_move-phases db' c = ground (arith, c.done)

  locked_row :
      (row : Session)
      → session_row db session.id ≡ some row
      → lock_running db session session.current_phase_idx Code.conflict_retry ≡ ok tt
      → (is_running row.status ≡ true) × (row.current_phase_idx ≡ session.current_phase_idx)
  unfolding lock_running
  locked_row row e l = ground (arith, e, l)

  -- The row that a commit leaves, in the session that it is about.
  Change-in_scene :
      (f : Session → Session) (row : Session)
      → Change env session db f
      → row.current_phase_idx ≡ session.current_phase_idx
      → row.current_phase_idx < length (phases_of db session.id)
      → (f row).current_phase_idx < length (phases_of db session.id)
  unfolding Move.next_scene Move.finish_now
  Change-in_scene f row (to_next p g e) same h =
      let there = get_elem?-lt (phases_of db session.id) (session.current_phase_idx + 1) p g in
      rw e (omega arith)
  Change-in_scene f row (to_end e) same h = rw e h

  Change-end_time :
      (f : Session → Session) (row : Session)
      → Change env session db f
      → is_running row.status ≡ not (is_some row.finished_at)
      → is_running (f row).status ≡ not (is_some (f row).finished_at)
  unfolding Move.next_scene Move.finish_now
  Change-end_time f row (to_next p g e) h = rw e h
  Change-end_time f row (to_end e) h = rw e

  Committed-row :
      (db' : Db) (c : Committed env session db db') (row : Session)
      → session_row db' sid ≡ some row
      → ((old : Session) × (session_row db session.id ≡ some old)
          × (row ≡ c.change old)
          × (session.id ≡ sid))
        ⊎ (session_row db sid ≡ some row)
  Committed-row db' c row e =
      let after =
        commit_move-row env.now session.id db c.rows c.change db' sid
          (Change-keeps env session db c.change c.kind) c.done in
      elim (Bool-cases (session.id == sid)) [
        | inr h ↦ inr (ground (arith, after, h))
        | inl h ↦ elim (Option-cases (session_row db sid)) [
          | inl f ↦ absurd (ground (arith, after, h, f))
          | inr (old, f) ↦ inl (
            old,
            rw ((==_iff session.id sid).0 h) f,
            ground (arith, after, h, f),
            (==_iff session.id sid).0 h,
          )
        ]
      ]

  Committed-IsPlaced :
      (db' : Db) → Committed env session db db' → IsPlaced sid db → IsPlaced sid db'
  unfolding phases_of
  Committed-IsPlaced db' c h = record {
    in_scene = λ row e. rw (commit_move-phases db' c) (elim (Committed-row db' c row e) [
      | inr f ↦ h.in_scene row f
      | inl (old, f, r, k) ↦
          let (running, same) = locked_row old f c.locked in
          rw (r, ← k)
            (Change-in_scene c.change old c.kind same (rw k (h.in_scene old (rw (← k) f))))
    ]);
    end_time = λ row e. elim (Committed-row db' c row e) [
      | inr f ↦ h.end_time row f
      | inl (old, f, r, k) ↦
          rw r (Change-end_time c.change old c.kind (h.end_time old (rw (← k) f)))
    ];
  }

store_feedback-row :
    (k sid : ℕ) (saved : Feedback.Saved) (db : Db) (row : Session)
    → session_row (Feedback.save_feedback k saved db).1 sid ≡ some row
    → (old : Session) × (session_row db sid ≡ some old)
      × (row.current_phase_idx ≡ old.current_phase_idx)
      × (row.status ≡ old.status)
      × (row.finished_at ≡ old.finished_at)
unfolding Feedback.store_feedback
store_feedback-row k sid saved db row e = elim (Option-cases (session_row db sid)) [
  | inl f ↦ absurd (ground (arith, save_feedback-row k sid saved db, f, e))
  | inr (old, f) ↦ (
    old,
    f,
    ground (arith, save_feedback-row k sid saved db, f, e),
    ground (arith, save_feedback-row k sid saved db, f, e),
    ground (arith, save_feedback-row k sid saved db, f, e),
  )
]

feedback-IsPlaced :
    (k sid : ℕ) (saved : Feedback.Saved) (db : Db)
    → IsPlaced sid db
    → IsPlaced sid (Feedback.save_feedback k saved db).1
unfolding phases_of
feedback-IsPlaced k sid saved db h = record {
  in_scene = λ row e.
      let (old, f, i, s, t) = store_feedback-row k sid saved db row e in
      rw i (unfold Feedback.save_feedback in h.in_scene old f);
  end_time = λ row e.
      let (old, f, i, s, t) = store_feedback-row k sid saved db row e in
      rw (s, t) (h.end_time old f);
}

IsPlaced-step :
    (limit sid : ℕ) {db db' : Db} → IsPlaced sid db → Run.Step limit db db' → IsPlaced sid db'
IsPlaced-step limit sid {db} h (Run.Step.enter env session idx phase ps results e) =
    rw e (SameTables-IsPlaced sid (enter-tables env session sid db idx phase ps results) h)
IsPlaced-step limit sid {db} h (Run.Step.say env session body ask results l e) =
    rw e (SameTables-IsPlaced sid (say-tables env session sid db body ask results) h)
IsPlaced-step limit sid {db} h (Run.Step.regenerate env session ask result k e) =
    rw e (SameTables-IsPlaced sid (again-tables env session sid db ask result) h)
IsPlaced-step limit sid {db} h (Run.Step.advance env session mode e) =
    rw e (elim (Result-cases (Move.advance env session mode db).0) [
      | inl (a, f) ↦
          Committed-IsPlaced env session sid db _ (advance-Committed env session db mode a f) h
      | inr (c, f) ↦ rw (advance_atomic env session mode db c f) h
    ])
IsPlaced-step limit sid {db} h (Run.Step.finish env session e) =
    rw e (elim (Result-cases (Move.finish env session db).0) [
      | inl (a, f) ↦ Committed-IsPlaced env session sid db _ (finish-Committed env session db a f) h
      | inr (c, f) ↦ rw (finish_atomic env session db c f) h
    ])
IsPlaced-step limit sid {db} h (Run.Step.feedback k saved e) =
    rw e (feedback-IsPlaced k sid saved db h)

-- Through any interleaving of requests a session stays in one of its scenes, and has a time of its
-- end exactly when it is finished.
pub Reach-IsPlaced :
    (limit sid : ℕ) {db db' : Db} → IsPlaced sid db → Run.Reach limit db db' → IsPlaced sid db'
Reach-IsPlaced limit sid h Run.Reach.here = h
Reach-IsPlaced limit sid h (Run.Reach.next r st) =
    IsPlaced-step limit sid (Reach-IsPlaced limit sid h r) st
