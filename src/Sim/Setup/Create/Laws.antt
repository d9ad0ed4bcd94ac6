-- ===== src/Sim/Setup/Create/Laws.antt =====
-- What a new session is.
use elp_gemini.Sim.Setup.Create.{
  adapt_item, adapted_by_ref, CreateSessionRequest, prepare, with_students, after_prepare,
  create_session, next_persona_id, next_session_id, CreateEnv, student_of, new_session, students_of,
  persona_rows, insert_session, Student,
}
use elp_gemini.Base.{
  Text, ℕ, ◌+◌, ◌≤◌, ◌≡◌, refl, ap, sym, subst, ◌∙◌, true, false, Option, none, some, List, [], ◌∷◌,
  ◌++◌, map, arith, length, length-map, ltb,
}
use elp_gemini.Base.Json.{Fields}
use elp_gemini.Base.Dicts.{lookup}
use elp_gemini.Sim.Errors.{Code, Result, ok, err, ok_inj, ◌>>◌, raise_if, or_raise}
use elp_gemini.Sim.Model.{Session, Status, Persona, Upload, LibraryItem}
use elp_gemini.Sim.Store.{Db}
use elp_gemini.Sim.Setup.Limit.{effective_max_personas}
use elp_gemini.Sim.Setup.Adapt.{adapt_many}
use elp_gemini.Sim.Setup.Scenes.{Draft, get_latest_upload}
use elp_gemini.Sim.Setup.Names.Laws.{is_distinct}
use elp_gemini.Sim.Setup.Choose.{PoolRecord, Selection, requested, Chosen, choose_students, cons_ok}
use elp_gemini.Sim.Setup.Choose.Laws.{IsChoice, after_bind, raise_if-ok, choose_students-IsChoice}

-- The rows sit on the seats of a session from a number on.
abbrev pub IsSeated : ℕ → ℕ → List Persona → Type 0
IsSeated sid seat [] = Unit
IsSeated sid seat (p ∷ ps) = (p.session_id ≡ sid) × (p.seat_idx ≡ seat) × IsSeated sid (seat + 1) ps

abbrev pub display_names : List Persona → List Text
display_names ps = map (λ p. p.display_name) ps

-- A session as it starts, with n students.
abbrev pub IsCreated : ℕ → ℕ → Db → Db → Session → Type 0
IsCreated user_id n old db s =
    (students : List Persona) × (db.personas ≡ old.personas ++ students)
    × (db.sessions ≡ old.sessions ++ s ∷ [])
    × (length students ≡ n)
    × (s.persona_count ≡ n)
    × (IsSeated s.id 0 students)
    × (is_distinct (display_names students) ≡ true)
    × (s.user_id ≡ user_id)
    × (s.status ≡ Status.running)
    × (s.current_phase_idx ≡ 0)

student_of-name :
    (name : Text) (i : Option LibraryItem) (r : Option PoolRecord) (a : Option (Fields × Text))
    (s : Student)
    → student_of name i r a ≡ ok s
    → name ≡ s.name
student_of-name name (some i) r a s h = ap (λ x. x.name) (ok_inj h)
student_of-name name none (some r) (some a) s h = ap (λ x. x.name) (ok_inj h)
student_of-name name none (some r) none s h = cc
student_of-name name none none a s h = cc

cons_ok-names :
    (s : Student) (x : Result (List Student)) (names : List Text) (out : List Student)
    → ((ss : List Student) → x ≡ ok ss → map (λ y. y.name) ss ≡ names)
    → cons_ok s x ≡ ok out
    → map (λ y. y.name) out ≡ s.name ∷ names
cons_ok-names s (err e) names out k h = cc
cons_ok-names s (ok ss) names out k h =
    subst (λ z. map (λ y. y.name) z ≡ s.name ∷ names) (ok_inj h) (ap (λ t. s.name ∷ t) (k ss refl))

students_of-names :
    (chosen : Chosen) (adapted : List (Text × (Fields × Text))) (refs names : List Text)
    (out : List Student)
    → length refs ≡ length names
    → students_of chosen adapted refs names ≡ ok out
    → map (λ y. y.name) out ≡ names
unfolding students_of
students_of-names chosen adapted [] [] out l h =
    subst (λ z. map (λ y. y.name) z ≡ []) (ok_inj h) refl
students_of-names chosen adapted [] (n ∷ ns) out l h = ground arith
students_of-names chosen adapted (r ∷ rs) [] out l h = ground arith
students_of-names chosen adapted (r ∷ rs) (n ∷ ns) out l h =
    after_bind (student_of n (lookup r chosen.custom) (lookup r chosen.by_ref) (lookup r adapted)) _
      out h
      (λ s e h1.
        let tail = students_of-names chosen adapted rs ns in
        cons_ok-names s (students_of chosen adapted rs ns) ns out
          (λ ss f. tail ss (omega (arith, l)) f) h1
        ∙ ap (λ x. x ∷ ns)
            (sym (
              student_of-name n (lookup r chosen.custom) (lookup r chosen.by_ref) (lookup r adapted)
                s e)))

persona_rows-seats :
    (sid next seat : ℕ) (ss : List Student) → IsSeated sid seat (persona_rows sid next seat ss)
unfolding persona_rows
persona_rows-seats sid next seat [] = tt
persona_rows-seats sid next seat (s ∷ ss) =
    (refl, refl, persona_rows-seats sid (next + 1) (seat + 1) ss)

persona_rows-names :
    (sid next seat : ℕ) (ss : List Student)
    → display_names (persona_rows sid next seat ss) ≡ map (λ y. y.name) ss
unfolding persona_rows
persona_rows-names sid next seat [] = refl
persona_rows-names sid next seat (s ∷ ss) =
    ap (λ t. s.name ∷ t) (persona_rows-names sid (next + 1) (seat + 1) ss)

insert_session-IsCreated :
    (env : CreateEnv) (user_id : ℕ) (phases : List Draft) (upload_id n : ℕ) (db : Db)
    (r : Result (List Student)) (s : Session)
    → ((ss : List Student)
        → r ≡ ok ss
        → (length ss ≡ n) × (is_distinct (map (λ y. y.name) ss) ≡ true))
    → (insert_session env user_id phases upload_id db r).0 ≡ ok s
    → IsCreated user_id n db (insert_session env user_id phases upload_id db r).1 s
unfolding insert_session new_session
insert_session-IsCreated env user_id phases upload_id n db (err e) s k h = cc
insert_session-IsCreated env user_id phases upload_id n db (ok ss) s k h =
    let sid = next_session_id db.sessions in
    let rows = persona_rows sid (next_persona_id db.personas) 0 ss in
    let names = persona_rows-names sid (next_persona_id db.personas) 0 ss in
    subst (IsCreated user_id n db (insert_session env user_id phases upload_id db (ok ss)).1)
      (ok_inj h)
      (
        rows,
        refl,
        refl,
        sym (length-map (λ p. p.display_name) rows)
            ∙ ap length names
            ∙ length-map (λ y. y.name) ss
            ∙ (k ss refl).0,
        (k ss refl).0,
        persona_rows-seats sid (next_persona_id db.personas) 0 ss,
        ap is_distinct names ∙ (k ss refl).1,
        refl,
        refl,
        refl,
      )

with_students-names :
    (c : Chosen) (n : ℕ) (adapted : Result (List (Fields × Text))) (ss : List Student)
    → IsChoice n c
    → with_students c adapted ≡ ok ss
    → (length ss ≡ n) × (is_distinct (map (λ y. y.name) ss) ≡ true)
with_students-names c n adapted ss choice h = after_bind adapted _ ss h (λ rs e h1.
    let names =
      students_of-names c (adapted_by_ref c.by_ref rs) c.refs c.names ss (choice.0 ∙ sym choice.1)
        h1 in
    (
      sym (length-map (λ y. y.name) ss) ∙ ap length names ∙ choice.1,
      ap is_distinct names ∙ choice.2,
    ))

not_over : (m n : ℕ) → ltb m n ≡ false → n ≤ m
not_over m n h = ground arith

prepare-IsChoice :
    (env : CreateEnv) (user_id : ℕ) (selection : Selection) (db : Db) (u : Upload) (c : Chosen)
    → prepare env user_id selection db ≡ ok (u, c)
    → IsChoice (requested selection) c
      × (requested selection ≤ effective_max_personas env.int env.sim_max_personas db.app_state)
unfolding prepare
prepare-IsChoice env user_id selection db u c h =
    let limit = effective_max_personas env.int env.sim_max_personas db.app_state in
    let students = choose_students env.draws env.pool db.library user_id selection in
    let small = raise_if (ltb limit (requested selection)) Code.too_many_personas in
    after_bind (or_raise (get_latest_upload db user_id) Code.no_upload) _ (u, c) h
      (λ upload e h1.
        after_bind (small >> students) _ (u, c) h1
          (λ chosen e1 h2.
            let passed =
              raise_if-ok (ltb limit (requested selection)) Code.too_many_personas students chosen
                e1 in
            (
              subst (IsChoice (requested selection)) (ap (λ x. x.1) (ok_inj h2)) (
                  choose_students-IsChoice env.draws env.pool db.library user_id selection chosen
                    passed.1),
              not_over limit (requested selection) passed.0,
            )))

after_prepare-IsCreated :
    (env : CreateEnv) (user_id : ℕ) (body : CreateSessionRequest) (db : Db) (s : Session)
    (r : Result (Upload × Chosen))
    → prepare env user_id body.selection db ≡ r
    → (after_prepare env user_id body.phases db r).0 ≡ ok s
    → IsCreated user_id
        (requested body.selection)
        (env.meanwhile db)
        (after_prepare env user_id body.phases db r).1
        s
      × (requested body.selection
          ≤ effective_max_personas env.int env.sim_max_personas db.app_state)
unfolding after_prepare
after_prepare-IsCreated env user_id body db s (err e) p h = cc
after_prepare-IsCreated env user_id body db s (ok (u, c)) p h =
    let choice = prepare-IsChoice env user_id body.selection db u c p in
    let adapted = adapt_many env.adapt (map adapt_item c.by_ref) in
    (
      insert_session-IsCreated env user_id body.phases u.id (requested body.selection)
          (env.meanwhile db) (with_students c adapted) s
          (λ ss e. with_students-names c (requested body.selection) adapted ss choice.0 e) h,
      choice.1,
    )

-- A session that `create_session` returns is in the tables, running and at its first scene, behind
-- what others have committed meanwhile. It has as many students as the request asks for, no more
-- than the limit in force, on the seats from 0 on, and no two of them share a name.
pub create_session-IsCreated :
    (env : CreateEnv) (user_id : ℕ) (body : CreateSessionRequest) (db : Db) (s : Session)
    → (create_session env user_id body db).0 ≡ ok s
    → IsCreated user_id
        (requested body.selection)
        (env.meanwhile db)
        (create_session env user_id body db).1
        s
      × (requested body.selection
          ≤ effective_max_personas env.int env.sim_max_personas db.app_state)
unfolding create_session
create_session-IsCreated env user_id body db s h =
    after_prepare-IsCreated env user_id body db s (prepare env user_id body.selection db) refl h
