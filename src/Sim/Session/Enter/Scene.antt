-- ===== src/Sim/Session/Enter/Scene.antt =====
-- `enter_phase`: entering a scene for the first time and again.
use elp_gemini.Base.{
  ℕ, ◌+◌, ◌≡◌, refl, ap, subst, ◌∙◌, ◌≢◌, inl, inr, Bool, true, false, ◌&&◌, List, [], ◌∷◌, ◌++◌,
  map, arith, ◌==◌, Option-cases, filter, any, any-append, List-cases,
}
use elp_gemini.Sim.Errors.{Code, ok, Result-cases, is_ok}
use elp_gemini.Sim.Gemini.{LlmResult, call_many}
use elp_gemini.Sim.Model.{Session, Phase, Persona, Utterance}
use elp_gemini.Sim.Agreement.{row_agrees, valid_row, compute_agreement}
use elp_gemini.Sim.Agreement.Laws.{ever_agreed, row_counts, agreed-eq-filter}
use elp_gemini.Sim.Reaction.{StudentReaction, student_utterance}
use elp_gemini.Sim.Reaction.Laws.{first_reaction_below}
use elp_gemini.Sim.Store.{Db, is_running, in_scene, scene_of, next_seq, insert_rows, lock_running}
use elp_gemini.Sim.Store.Rows.{
  Runs, insert-Runs, insert-eq, stamp, any-stamp, next_seq-above, any-scene, any-scene-none,
}
use elp_gemini.Sim.Session.Replies.{TurnResult, turn_result}
use elp_gemini.Sim.Session.Rows.{Env, student_rows}
use elp_gemini.Sim.Session.Say.Turns.{student_rows-Runs}
use elp_gemini.Sim.Session.Enter

module _ (env : Env) (sid idx k : ℕ) where
  -- Of the rows that entering adds, none counts as an agreement.
  student_rows-none_agree :
      (n : ℕ) (ps : List Persona) (rs : List (LlmResult StudentReaction))
      → any (row_counts idx k) (student_rows env sid idx n Enter.first_context ps rs) ≡ false
  unfolding student_rows student_utterance row_agrees valid_row
  student_rows-none_agree n [] rs = refl
  student_rows-none_agree n (p ∷ ps) [] = refl
  student_rows-none_agree n (p ∷ ps) (r ∷ rs) = elim (Option-cases r.parsed) [
    | inl e ↦ ground (arith, student_rows-none_agree (n + 1) ps rs)
    | inr (a, e) ↦ ground (
      arith,
      student_rows-none_agree (n + 1) ps rs,
      first_reaction_below env.prompts.tools (Enter.first_context p) a,
    )
  ]

filter-none {ℓ} :
    {A : Type ℓ} (p : A → Bool) (xs : List A) → ((x : A) → p x ≡ false) → filter p xs ≡ []
filter-none p [] h = refl
filter-none p (x ∷ xs) h = ground (arith, h x, filter-none p xs h)

any-and-none {ℓ} :
    {A : Type ℓ} (p q : A → Bool) (xs : List A)
    → any q xs ≡ false
    → any (λ x. p x && q x) xs ≡ false
any-and-none p q [] h = refl
any-and-none p q (x ∷ xs) h = ground (arith, any-and-none p q xs)

module _ (env : Env) (session : Session) (idx : ℕ) (phase : Phase) (ps : List Persona) where
  module _ (results : List (LlmResult StudentReaction)) where
    pub enter_rows-Runs :
        (n : ℕ) → Runs session.id n (Enter.enter_rows env session idx phase ps results n)
    unfolding Enter.enter_rows
    enter_rows-Runs n =
        let students = student_rows env session.id idx (n + 2) Enter.first_context ps results in
        let e : n + 2 ≡ n + 1 + 1 = omega arith in
        let run =
          subst (λ m. Runs session.id m students) e
            (student_rows-Runs env session.id idx (n + 2) Enter.first_context ps results) in
        (refl, refl, (refl, refl, run))

    enter_rows-none_agree :
        (n k : ℕ)
        → any (row_counts idx k) (Enter.enter_rows env session idx phase ps results n) ≡ false
    unfolding Enter.enter_rows valid_row row_agrees
    enter_rows-none_agree n k =
        ground (arith, student_rows-none_agree env session.id idx k (n + 2) ps results)

    enter_write_inserts :
        (db : Db)
        → lock_running db session idx Code.phase_not_current ≡ ok tt
        → scene_of db session.id idx ≡ []
        → (is_ok (Enter.enter_write env session idx phase ps results db).0 ≡ true)
          × ((Enter.enter_write env session idx phase ps results db).1 ≡ record db {
            utterances =
                db.utterances
                ++ stamp env.now db.utterances
                    (Enter.enter_rows env session idx phase ps results (next_seq db session.id));
          })
    unfolding Enter.enter_write
    enter_write_inserts db locked empty =
        let seq = next_seq db session.id in
        let inserted =
          insert-Runs env.now session.id seq db.utterances
            (Enter.enter_rows env session idx phase ps results seq) (enter_rows-Runs seq)
            (next_seq-above db session.id) in
        (ground (arith, inserted), ground (arith, inserted))

    nobody :
        (db : Db)
        → lock_running db session idx Code.phase_not_current ≡ ok tt
        → scene_of db session.id idx ≡ []
        → (k : ℕ)
        → ever_agreed idx k
            (scene_of (Enter.enter_write env session idx phase ps results db).1 session.id idx)
          ≡ false
    nobody db locked empty k =
        let counts : Utterance → Bool = λ u. in_scene session.id idx u && row_counts idx k u in
        let rows = Enter.enter_rows env session idx phase ps results (next_seq db session.id) in
        let old = any-scene-none db session.id idx (row_counts idx k) empty in
        let new : any counts (stamp env.now db.utterances rows) ≡ false =
          any-stamp counts env.now db.utterances rows (unfold valid_row in λ u i c. refl)
          ∙ any-and-none (in_scene session.id idx) (row_counts idx k) rows
              (enter_rows-none_agree (next_seq db session.id) k) in
        rw (any-scene _ session.id idx (row_counts idx k), (enter_write_inserts db locked empty).1)
          (rw any-append (rw (old, new)))

    -- When a scene that nobody had entered is entered, no student agrees yet, whatever the model
    -- answered: the reactions to the plan's prompt are stored below the threshold.
    pub enter_none_agreed :
        (db : Db) (students : List Persona)
        → lock_running db session idx Code.phase_not_current ≡ ok tt
        → scene_of db session.id idx ≡ []
        → (compute_agreement idx students (
            scene_of
              (Enter.enter_write env session idx phase ps results db).1
              session.id
              idx)).agreed_persona_ids
          ≡ []
    enter_none_agreed db students locked empty = rw agreed-eq-filter (
        ap (map (λ (p : Persona). p.id)) (
          filter-none (λ (p : Persona). ever_agreed idx p.id _) students
            (λ p. nobody db locked empty p.id)))

module _ (session : Session) (idx : ℕ) where
  -- The scene has rows, and the reply shows them.
  abbrev Shows : Db → TurnResult → Type 0
  Shows db reply =
      (scene_of db session.id idx ≢ [])
      × (reply ≡ turn_result db session (scene_of db session.id idx))

  module _ (env : Env) (phase : Phase) (ps : List Persona) where
    scene-nonempty :
        (results : List (LlmResult StudentReaction)) (db : Db) (us : List Utterance) (n : ℕ)
        → us
          ≡ db.utterances
            ++ stamp env.now db.utterances (Enter.enter_rows env session idx phase ps results n)
        → scene_of (record db { utterances = us }) session.id idx ≢ []
    unfolding Enter.enter_rows stamp
    scene-nonempty results db us n e empty =
        let gone =
          any-scene-none (record db { utterances = us }) session.id idx (λ u. true) empty in
        let all_rows = Enter.enter_rows env session idx phase ps results n in
        ground (
          arith,
          gone,
          any-append (λ u. in_scene session.id idx u && true) db.utterances
              (stamp env.now db.utterances all_rows),
        )

    enter_write-Shows :
        (results : List (LlmResult StudentReaction)) (db : Db) (reply : TurnResult)
        → (Enter.enter_write env session idx phase ps results db).0 ≡ ok reply
        → Shows (Enter.enter_write env session idx phase ps results db).1 reply
    unfolding Enter.enter_write
    enter_write-Shows results db reply h =
        let rows = Enter.enter_rows env session idx phase ps results (next_seq db session.id) in
        elim (List-cases (scene_of db session.id idx)) [
          | inr (u, us, e) ↦ ground (arith, e)
          | inl e ↦ elim (Option-cases (insert_rows env.now db.utterances rows)) [
            | inl f ↦ ground (
              arith,
              f,
              insert-Runs env.now session.id (next_seq db session.id) db.utterances rows
                  (enter_rows-Runs env session idx phase ps results (next_seq db session.id))
                  (next_seq-above db session.id),
            )
            | inr (us, f) ↦ ground (
              arith,
              e,
              f,
              scene-nonempty results db us (next_seq db session.id)
                  (insert-eq env.now db.utterances rows us f),
            )
          ]
        ]

module _ (env : Env) (session : Session) (idx : ℕ) where
  enter_phase-Shows :
      (db : Db) (reply : TurnResult)
      → (Enter.enter_phase env session idx db).0 ≡ ok reply
      → (is_running session.status ≡ true)
        × ((idx == session.current_phase_idx) ≡ true)
        × Shows session idx (Enter.enter_phase env session idx db).1 reply
  unfolding Enter.enter_phase
  enter_phase-Shows db reply h = elim (List-cases (scene_of db session.id idx)) [
    | inr (u, us, e) ↦ (ground (arith, e), ground (arith, e), ground (arith, e))
    | inl e ↦ elim (Result-cases (Enter.enter_ask env session idx db)) [
      | inr (c, f) ↦ absurd (ground (arith, e, f))
      | inl (ask, f) ↦ elim (Result-cases (call_many env.call_structured ask.calls)) [
        | inr (c, g) ↦ absurd (ground (arith, e, f, g))
        | inl (rs, g) ↦
            let shows =
              enter_write-Shows session idx env ask.phase ask.personas rs (env.meanwhile db)
                reply in
            (ground (arith, e, f, g), ground (arith, e, f, g), ground (arith, e, f, g, shows))
      ]
    ]
  ]

  shown_again :
      (db : Db) (reply : TurnResult)
      → is_running session.status ≡ true
      → (idx == session.current_phase_idx) ≡ true
      → Shows session idx db reply
      → Enter.enter_phase env session idx db ≡ (ok reply, db)
  unfolding Enter.enter_phase
  shown_again db reply running same (nonempty, e) = elim (List-cases (scene_of db session.id idx)) [
    | inl f ↦ absurd (nonempty f)
    | inr (u, us, f) ↦ ground (arith, f)
  ]

module _ (env env' : Env) (session : Session) (idx : ℕ) where
  -- Entering a scene again, by a request that loaded the session as the first one did, gives the
  -- same reply and writes nothing: the model is not called again.
  pub enter_phase_again :
      (db : Db) (reply : TurnResult)
      → (Enter.enter_phase env session idx db).0 ≡ ok reply
      → Enter.enter_phase env' session idx (Enter.enter_phase env session idx db).1
        ≡ (ok reply, (Enter.enter_phase env session idx db).1)
  enter_phase_again db reply h =
      let (running, same, shows) = enter_phase-Shows env session idx db reply h in
      shown_again env' session idx _ reply running same shows
