-- ===== src/Sim/Run/Others.antt =====
-- What a request leaves alone: the rows of other sessions, and of a session that is finished.
use elp_gemini.Base.{
  if◌then◌else◌, if◌then◌else◌, ℕ, ◌+◌, ◌≡◌, refl, ap, ◌∙◌, inl, inr, Bool, true, false, ◌||◌, not,
  some, List, [], ◌∷◌, append-nil, arith, ◌==◌, Option-cases, filter, any, all, filter-append,
}
use elp_gemini.Sim.Errors.{Result-cases}
use elp_gemini.Sim.Gemini.{LlmResult}
use elp_gemini.Sim.Model.{Session, Phase, Persona, Utterance}
use elp_gemini.Sim.Reaction.{StudentReaction}
use elp_gemini.Sim.Store.{Db, in_session, session_row, next_seq, insert_rows}
use elp_gemini.Sim.Store.Rows.{Runs, stamp, any-stamp, insert-eq, find-update_session}
use elp_gemini.Sim.Session.Rows.{Env}
use elp_gemini.Sim.Session.Enter
use elp_gemini.Sim.Session.Enter.Scene.{enter_rows-Runs}
use elp_gemini.Sim.Session.Say
use elp_gemini.Sim.Session.Say.Turns.{say_rows-Runs}
use elp_gemini.Sim.Session.Move
use elp_gemini.Sim.Session.Again
use elp_gemini.Sim.Session.Feedback
use mathlib.Core.Option
use elp_gemini.Sim.Session.Again.Answer.{again_write_atomic, again_write-Answered}
use elp_gemini.Sim.Session.Move.Commits.{Change, to_next, to_end}
use elp_gemini.Sim.Session.Move.Commits.{Committed, Change, advance-Committed, finish-Committed}
use elp_gemini.Sim.Session.Move.Scenes.{advance_atomic, finish_atomic}

-- The row to be answered again is one of the session's, and a row keeps its id and its session.
abbrev pub KeepsSession : Session → ℕ → Db → Type 0
KeepsSession session k db =
    all (λ u. not (u.id == k) || u.session_id == session.id) db.utterances ≡ true

-- The session's row and its utterances are the same before and after.
pub record SameSession (sid : ℕ) (db db' : Db) : Type 0 where
  pub row : session_row db' sid ≡ session_row db sid
  pub utterances : filter (in_session sid) db'.utterances ≡ filter (in_session sid) db.utterances

pub SameSession-refl : (sid : ℕ) (db : Db) → SameSession sid db db
SameSession-refl sid db = record { row = refl; utterances = refl }

Runs-other :
    (s sid n : ℕ) (rows : List Utterance)
    → (s == sid) ≡ false
    → Runs s n rows
    → any (in_session sid) rows ≡ false
Runs-other s sid n [] h r = refl
Runs-other s sid n (u ∷ us) h r = ground (arith, Runs-other s sid (n + 1) us h r.2)

filter-none {ℓ} : {A : Type ℓ} (p : A → Bool) (xs : List A) → any p xs ≡ false → filter p xs ≡ []
filter-none p [] h = refl
filter-none p (x ∷ xs) h = ground (arith, filter-none p xs)

insert-other :
    (now s sid n : ℕ) (us rows us' : List Utterance)
    → (s == sid) ≡ false
    → Runs s n rows
    → insert_rows now us rows ≡ some us'
    → filter (in_session sid) us' ≡ filter (in_session sid) us
insert-other now s sid n us rows us' h r e =
    let none_new =
      filter-none (in_session sid) (stamp now us rows)
        (any-stamp (in_session sid) now us rows (λ u i c. refl) ∙ Runs-other s sid n rows h r) in
    rw (insert-eq now us rows us' e) (rw filter-append (rw none_new (append-nil _)))

pub Change-keeps :
    (env : Env) (session : Session) (db : Db) (f : Session → Session)
    → Change env session db f
    → (s : Session) → (f s).id ≡ s.id
unfolding Move.next_scene Move.finish_now
Change-keeps env session db f (to_next p h e) s = ap (λ (g : Session → Session). (g s).id) e
Change-keeps env session db f (to_end e) s = ap (λ (g : Session → Session). (g s).id) e

module _ (env : Env) (session : Session) (sid : ℕ) (db : Db) where
  module _ (other : (session.id == sid) ≡ false) where
    pub enter-other :
        (idx : ℕ) (phase : Phase) (ps : List Persona) (results : List (LlmResult StudentReaction))
        → SameSession sid db (Enter.enter_write env session idx phase ps results db).1
    unfolding Enter.enter_write session_row
    enter-other idx phase ps results =
        let seq = next_seq db session.id in
        let rows = Enter.enter_rows env session idx phase ps results seq in
        elim (Option-cases (insert_rows env.now db.utterances rows)) [
          | inl e ↦ record { row = ground (arith, e); utterances = ground (arith, e) }
          | inr (us, e) ↦
              let same =
                insert-other env.now session.id sid seq db.utterances rows us other
                  (enter_rows-Runs env session idx phase ps results seq) e in
              record { row = ground (arith, e); utterances = ground (arith, e, same) }
        ]

    pub say-other :
        (body : Say.SayRequest) (ask : Say.SayAsk) (results : List (LlmResult StudentReaction))
        → SameSession sid db (Say.say_write env session body ask results db).1
    unfolding Say.say_write session_row
    say-other body ask results =
        let seq = next_seq db session.id in
        let rows = Say.say_rows env session body ask results seq in
        elim (Option-cases (insert_rows env.now db.utterances rows)) [
          | inl e ↦ record { row = ground (arith, e); utterances = ground (arith, e) }
          | inr (us, e) ↦
              let same =
                insert-other env.now session.id sid seq db.utterances rows us other
                  (say_rows-Runs env session body ask results seq) e in
              record { row = ground (arith, e); utterances = ground (arith, e, same) }
        ]

    commit_move-other :
        (rows : List Utterance) (n : ℕ) (change : Session → Session) (db' : Db)
        → ((s : Session) → (change s).id ≡ s.id)
        → Runs session.id n rows
        → Move.commit_move env.now session.id rows change db ≡ some db'
        → SameSession sid db db'
    unfolding Move.commit_move session_row
    commit_move-other rows n change db' keeps runs h =
        elim (Option-cases (insert_rows env.now db.utterances rows)) [
          | inl e ↦ absurd (ground (arith, e))
          | inr (us, e) ↦
              let same = insert-other env.now session.id sid n db.utterances rows us other runs e in
              record {
                row =
                    ground (arith, e, find-update_session change session.id sid db.sessions keeps);
                utterances = ground (arith, e, same);
              }
        ]

    Committed-other : (db' : Db) → Committed env session db db' → SameSession sid db db'
    Committed-other db' c =
        commit_move-other c.rows (next_seq db session.id) c.change db'
          (Change-keeps env session db c.change c.kind) c.runs c.done

    pub advance-other : (mode : Move.Mode) → SameSession sid db (Move.advance env session mode db).1
    advance-other mode = elim (Result-cases (Move.advance env session mode db).0) [
      | inl (a, e) ↦ Committed-other _ (advance-Committed env session db mode a e)
      | inr (c, e) ↦ rw (advance_atomic env session mode db c e) (SameSession-refl sid db)
    ]

    pub finish-other : SameSession sid db (Move.finish env session db).1
    finish-other = elim (Result-cases (Move.finish env session db).0) [
      | inl (a, e) ↦ Committed-other _ (finish-Committed env session db a e)
      | inr (c, e) ↦ rw (finish_atomic env session db c e) (SameSession-refl sid db)
    ]

    update_row-other :
        (k : ℕ) (f : Utterance → Utterance) (us : List Utterance)
        → ((u : Utterance) → (f u).session_id ≡ u.session_id)
        → all (λ u. not (u.id == k) || u.session_id == session.id) us ≡ true
        → filter (in_session sid) (Again.update_row k f us) ≡ filter (in_session sid) us
    unfolding Again.update_row
    update_row-other k f [] keeps h = refl
    update_row-other k f (u ∷ us) keeps h = ground (arith, keeps u, update_row-other k f us keeps)

    pub again-other :
        (ask : Again.AgainAsk) (result : LlmResult StudentReaction)
        → KeepsSession session ask.row.id db
        → SameSession sid db (Again.again_write env session ask result db).1
    unfolding session_row Again.replace_answer
    again-other ask result h = elim (Result-cases (Again.again_write env session ask result db).0) [
      | inr (c, e) ↦ rw (again_write_atomic env session ask result db c e) (SameSession-refl sid db)
      | inl (reply, e) ↦
          let a = again_write-Answered env session ask result db reply e in
          rw a.done (record {
            row = refl;
            utterances =
                update_row-other ask.row.id (Again.replace_answer a.fresh) db.utterances (λ u. refl)
                  h;
          })
    ]

-- The row of a session after a feedback is saved.
pub save_feedback-row :
    (k sid : ℕ) (saved : Feedback.Saved) (db : Db)
    → session_row (Feedback.save_feedback k saved db).1 sid ≡ (
        if k == sid
        then Option.map (Feedback.store_feedback saved) (session_row db sid)
        else session_row db sid)
unfolding Feedback.save_feedback Feedback.store_feedback session_row
save_feedback-row k sid saved db =
    find-update_session (Feedback.store_feedback saved) k sid db.sessions (λ s. ground arith)
