-- ===== src/Sim/Session/Move/Scenes.antt =====
-- `advance` and `finish`: when a scene may be left, and what leaving it changes.
use elp_gemini.Base.{
  sym, ◌∙◌, Bool, filter, all, ℕ, ◌+◌, ◌≡◌, refl, inl, inr, true, Option, none, some, List, [], ◌∷◌,
  arith, ◌==◌, if◌then◌else◌, Option-cases, get_elem?,
}
use mathlib.Core.Option
use elp_gemini.Sim.Errors.{Code, ok, err, Result-cases}
use elp_gemini.Sim.Model.{Session, Phase, Status, Utterance}
use elp_gemini.Sim.Store.{
  Db, is_running, in_scene, scene_of, personas_of, session_row, phases_of, agreement, next_seq,
  insert_rows, lock_running,
}
use elp_gemini.Sim.Agreement.Laws.{ever_agreed, all_agreed-order_by}
use elp_gemini.Sim.Store.Rows.{find-update_session}
use elp_gemini.Sim.Session.Rows.{Env}
use elp_gemini.Sim.Session.Move

-- Every student of the session has, in its scene, a readable reaction that agrees.
abbrev pub everyone_agreed : Db → Session → Bool
everyone_agreed db session =
    all
      (λ p.
        ever_agreed session.current_phase_idx p.id
          (filter (in_scene session.id session.current_phase_idx) db.utterances))
      (personas_of db session.id)

all_agreed-everyone :
    (db : Db) (session : Session) → (agreement db session).all_agreed ≡ everyone_agreed db session
unfolding agreement scene_of
all_agreed-everyone db session =
    all_agreed-order_by session.current_phase_idx (personas_of db session.id) (λ u. u.seq)
      (filter (in_scene session.id session.current_phase_idx) db.utterances)

lock_running-row :
    (db : Db) (session : Session) (idx : ℕ) (moved : Code)
    → lock_running db session idx moved ≡ ok tt
    → (row : Session) × (session_row db session.id ≡ some row)
      × (is_running row.status ≡ true)
      × (row.current_phase_idx ≡ idx)
unfolding lock_running
lock_running-row db session idx moved h = elim (Option-cases (session_row db session.id)) [
  | inl e ↦ absurd (ground (arith, e))
  | inr (row, e) ↦ (row, e, ground (arith, e), ground (arith, e))
]

-- By agreement a scene is left only when each student of the session has, in the stored rows of that
-- scene, a readable reaction that meets the condition of agreement, and only by a request whose
-- session object names the scene in which the stored session is running.
pub advance_needs_agreement :
    (env : Env) (session : Session) (db : Db) (a : Move.Advanced)
    → (Move.advance env session Move.Mode.agree db).0 ≡ ok a
    → (everyone_agreed db session ≡ true)
      × ((row : Session) × (session_row db session.id ≡ some row)
          × (is_running row.status ≡ true)
          × (row.current_phase_idx ≡ session.current_phase_idx))
unfolding Move.advance
advance_needs_agreement env session db a h = (
  sym (all_agreed-everyone db session) ∙ ground arith,
  lock_running-row db session session.current_phase_idx Code.conflict_retry (ground arith),
)

-- An error of `advance` or `finish` leaves the tables alone.
pub advance_atomic :
    (env : Env) (session : Session) (mode : Move.Mode) (db : Db) (e : Code)
    → (Move.advance env session mode db).0 ≡ err e
    → (Move.advance env session mode db).1 ≡ db
unfolding Move.advance
advance_atomic env session mode db e h = ground arith

pub finish_atomic :
    (env : Env) (session : Session) (db : Db) (e : Code)
    → (Move.finish env session db).0 ≡ err e
    → (Move.finish env session db).1 ≡ db
unfolding Move.finish
finish_atomic env session db e h = ground arith

module _ (now sid : ℕ) (db : Db) (rows : List Utterance) (change : Session → Session) where
  pub commit_move-row :
      (db' : Db) (k : ℕ)
      → ((s : Session) → (change s).id ≡ s.id)
      → Move.commit_move now sid rows change db ≡ some db'
      → session_row db' k
        ≡ (if sid == k then Option.map change (session_row db k) else session_row db k)
  unfolding Move.commit_move session_row
  commit_move-row db' k keeps h = elim (Option-cases (insert_rows now db.utterances rows)) [
    | inl e ↦ ground (arith, e)
    | inr (us, e) ↦ ground (arith, e, find-update_session change sid k db.sessions keeps)
  ]

module _ (env : Env) (session : Session) (mode : Move.Mode) (db : Db) where
  -- The reply and the session's row after a move to the next scene `p`.
  abbrev pub MovesOn : Phase → Move.Advanced → Db → Type 0
  MovesOn p a db' =
      (a.status ≡ session.status)
      × (a.current_phase_idx ≡ session.current_phase_idx + 1)
      × (a.next_phase ≡ some p)
      × (session_row db' session.id
          ≡ Option.map {A = Session} (λ s. record s { current_phase_idx = s.current_phase_idx + 1 })
              (session_row db session.id))

  -- The reply and the session's row after the last scene.
  abbrev pub Ends : Move.Advanced → Db → Type 0
  Ends a db' =
      (a.status ≡ Status.finished)
      × (a.current_phase_idx ≡ session.current_phase_idx)
      × (a.next_phase ≡ none)
      × (session_row db' session.id
          ≡ Option.map {A = Session}
              (λ s. record s { status = Status.finished; finished_at = some env.now })
              (session_row db session.id))

  abbrev pub Moved : Option Phase → Move.Advanced → Db → Type 0
  Moved (some p) a db' = MovesOn p a db'
  Moved none a db' = Ends a db'

  advance_locked-Moved :
      (next : Option Phase) (a : Move.Advanced)
      → get_elem? (phases_of db session.id) (session.current_phase_idx + 1) ≡ next
      → (Move.advance_locked env session mode db).0 ≡ ok a
      → Moved next a (Move.advance_locked env session mode db).1
  unfolding Move.advance_locked
  advance_locked-Moved none a e h =
      let seq = next_seq db session.id in
      elim (Option-cases (get_elem? (phases_of db session.id) session.current_phase_idx)) [
        | inl f ↦ ground (arith, e, f)
        | inr (phase, f) ↦
            let rows = Move.last_rows mode session phase seq in
            elim (Option-cases
              (Move.commit_move env.now session.id rows (Move.finish_now env.now) db)) [
                | inl g ↦ ground (arith, e, f, g)
                | inr (db', g) ↦ ground (
                  arith,
                  e,
                  f,
                  g,
                  commit_move-row env.now session.id db rows (Move.finish_now env.now) db'
                      session.id (λ s. refl) g,
                )
              ]
      ]
  advance_locked-Moved (some p) a e h =
      let seq = next_seq db session.id in
      elim (Option-cases (get_elem? (phases_of db session.id) session.current_phase_idx)) [
        | inl f ↦ ground (arith, e, f)
        | inr (phase, f) ↦
            let rows = Move.move_row mode session phase seq ∷ [] in
            elim (Option-cases (Move.commit_move env.now session.id rows Move.next_scene db)) [
              | inl g ↦ ground (arith, e, f, g)
              | inr (db', g) ↦ ground (
                arith,
                e,
                f,
                g,
                commit_move-row env.now session.id db rows Move.next_scene db' session.id
                    (λ s. refl) g,
              )
            ]
      ]

  -- `advance` without an error moves to the scene that follows, if there is one, and otherwise
  -- finishes the session; the other columns of the session's row stay.
  pub advance-Moved :
      (a : Move.Advanced)
      → (Move.advance env session mode db).0 ≡ ok a
      → Moved
          (get_elem? (phases_of db session.id) (session.current_phase_idx + 1))
          a
          (Move.advance env session mode db).1
  unfolding Move.advance
  advance-Moved a h =
      elim (Result-cases (lock_running db session session.current_phase_idx Code.conflict_retry)) [
        | inl (u, e) ↦ ground (arith, e, advance_locked-Moved _ a refl)
        | inr (c, e) ↦ ground (arith, e)
      ]
