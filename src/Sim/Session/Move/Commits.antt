-- ===== src/Sim/Session/Move/Commits.antt =====
-- `advance` and `finish` write by one commit of new rows with one change of the session's row.
use elp_gemini.Base.{
  codes, ℕ, ◌+◌, ◌≡◌, refl, inl, inr, some, List, [], ◌∷◌, arith, Option-cases, get_elem?, count,
}
use elp_gemini.Sim.Errors.{Code, ok}
use elp_gemini.Sim.Model.{Session, Phase, Status, Utterance, Event}
use elp_gemini.Sim.Store.{Db, is_user_turn, phases_of, next_seq, lock_running}
use elp_gemini.Sim.Store.Rows.{Runs}
use elp_gemini.Sim.Session.Rows.{Env, system_row}
use elp_gemini.Sim.Session.Move

-- The change of the session's row: to a scene that is there, or to the end.
pub data Change (env : Env) (session : Session) (db : Db) (f : Session → Session) : Type 0 where
  to_next :
      (p : Phase)
      → get_elem? (phases_of db session.id) (session.current_phase_idx + 1) ≡ some p
      → f ≡ Move.next_scene
      → Change env session db f
  to_end : f ≡ Move.finish_now env.now → Change env session db f

pub record Committed (env : Env) (session : Session) (db db' : Db) : Type 0 where
  pub rows : List Utterance
  pub change : Session → Session
  pub kind : Change env session db change
  pub runs : Runs session.id (next_seq db session.id) rows
  pub no_turns : (k : ℕ) → count (is_user_turn k) rows ≡ 0
  pub locked : lock_running db session session.current_phase_idx Code.conflict_retry ≡ ok tt
  pub done : Move.commit_move env.now session.id rows change db ≡ some db'

module _ (env : Env) (session : Session) (db : Db) where
  module _ (mode : Move.Mode) (phase : Phase) where
    move_row-Runs : (n : ℕ) → Runs session.id n (Move.move_row mode session phase n ∷ [])
    unfolding Move.move_row
    move_row-Runs n = elim mode as (λ m. Runs session.id n (Move.move_row m session phase n ∷ [])) [
      | Move.Mode.agree ↦ (refl, refl, tt)
      | Move.Mode.skip ↦ (refl, refl, tt)
    ]

    last_rows-Runs : (n : ℕ) → Runs session.id n (Move.last_rows mode session phase n)
    unfolding Move.last_rows
    last_rows-Runs n = elim mode as (λ m. Runs session.id n (Move.last_rows m session phase n)) [
      | Move.Mode.agree ↦ (refl, refl, (refl, refl, tt))
      | Move.Mode.skip ↦ (refl, refl, (refl, refl, tt))
    ]

    move_row-turns :
        (n k : ℕ) → count (is_user_turn k) (Move.move_row mode session phase n ∷ []) ≡ 0
    unfolding Move.move_row
    move_row-turns n k = ground arith

    last_rows-turns : (n k : ℕ) → count (is_user_turn k) (Move.last_rows mode session phase n) ≡ 0
    unfolding Move.last_rows
    last_rows-turns n k = ground arith

  pub advance-Committed :
      (mode : Move.Mode) (a : Move.Advanced)
      → (Move.advance env session mode db).0 ≡ ok a
      → Committed env session db (Move.advance env session mode db).1
  unfolding Move.advance Move.advance_locked
  advance-Committed mode a h =
      let seq = next_seq db session.id in
      elim (Option-cases (get_elem? (phases_of db session.id) session.current_phase_idx)) [
        | inl f ↦ absurd (ground (arith, f))
        | inr (phase, f) ↦
            elim (Option-cases
              (get_elem? (phases_of db session.id) (session.current_phase_idx + 1))) [
                | inl g ↦ record {
                  rows = Move.last_rows mode session phase seq;
                  change = Move.finish_now env.now;
                  kind = to_end refl;
                  runs = last_rows-Runs mode phase seq;
                  no_turns = last_rows-turns mode phase seq;
                  locked = ground (arith, f, g);
                  done = ground (arith, f, g);
                }
                | inr (p, g) ↦ record {
                  rows = Move.move_row mode session phase seq ∷ [];
                  change = Move.next_scene;
                  kind = to_next p g refl;
                  runs = move_row-Runs mode phase seq;
                  no_turns = move_row-turns mode phase seq;
                  locked = ground (arith, f, g);
                  done = ground (arith, f, g);
                }
              ]
      ]

  pub finish-Committed :
      (s : Status)
      → (Move.finish env session db).0 ≡ ok s
      → Committed env session db (Move.finish env session db).1
  unfolding Move.finish system_row
  finish-Committed s h = record {
    rows = system_row session (next_seq db session.id) (codes "수업 종료") Event.end_finish ∷ [];
    change = Move.finish_now env.now;
    kind = to_end refl;
    runs = (refl, refl, tt);
    no_turns = λ k. ground arith;
    locked = ground arith;
    done = ground arith;
  }
