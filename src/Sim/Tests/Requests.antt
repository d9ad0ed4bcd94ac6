-- ===== src/Sim/Tests/Requests.antt =====
-- The requests at the sessions of the parent.
use elp_gemini.Base.{
  not, ℕ, ◌+◌, ◌≤◌, ◌<◌, ◌≡◌, refl, true, some, [], ◌∷◌, ◌++◌, map, arith, leb, ◌==◌, get_elem?,
  filter,
}
use elp_gemini.Sim.Errors.{is_ok, ok}
use elp_gemini.Sim.Model.{Session, Status}
use elp_gemini.Sim.Agreement.{compute_agreement}
use elp_gemini.Sim.Store.{
  is_running, session_row, Db, scene_of, teacher_turns_used, next_seq, personas_of, phases_of,
}
use elp_gemini.Sim.Store.Rows.{stamp}
use elp_gemini.Sim.Session.Replies.{TurnResult, turn_result}
use elp_gemini.Sim.Session.Enter
use elp_gemini.Sim.Session.Enter.Scene.{enter_phase_again, enter_none_agreed}
use elp_gemini.Sim.Session.Say
use elp_gemini.Sim.Session.Say.Turns.{say_write_commits, say_uses_one_turn}
use elp_gemini.Sim.Session.Move
use elp_gemini.Sim.Session.Move.Scenes.{
  everyone_agreed, advance-Moved, advance_needs_agreement, Moved,
}
use elp_gemini.Sim.Session.Again
use elp_gemini.Sim.Session.Again.Answer.{regenerate_in_place, place}
use elp_gemini.Sim.Tests.{
  entered_ok, answer, result_of, garbled, session, phase, created, env, entered, question, env_say,
  spoken, opened, entered_reply,
}

enter_phase_again_example :
    Enter.enter_phase env_say session 0 entered ≡ (ok entered_reply, entered)
enter_phase_again_example = enter_phase_again env env_say session 0 created entered_reply entered_ok

enter_none_agreed_example :
    (compute_agreement 0 (personas_of created 7) (
      scene_of
        (Enter.enter_write env session 0
          (phase 0)
          (personas_of created 7)
          (result_of (answer 90 [] [] true) ∷ garbled ∷ [])
          created).1
        7
        0)).agreed_persona_ids
    ≡ []
unfolding opened
enter_none_agreed_example =
    enter_none_agreed env session 0 (phase 0) (personas_of created 7)
      (result_of (answer 90 [] [] true) ∷ garbled ∷ []) created (personas_of created 7) refl refl

abbrev pub asked : Say.SayAsk
asked = record { stored = scene_of entered 7 0; responders = personas_of entered 7; calls = [] }

say_write_commits_example :
    (is_ok (Say.say_write env session question asked (garbled ∷ []) entered).0 ≡ true)
    × ((Say.say_write env session question asked (garbled ∷ []) entered).1 ≡ record entered {
      utterances =
          entered.utterances
          ++ stamp 100 entered.utterances
              (Say.say_rows env session question asked (garbled ∷ []) (next_seq entered 7));
    })
unfolding opened
say_write_commits_example =
    say_write_commits env session question asked (garbled ∷ []) entered refl (omega arith)

abbrev pub said_reply : TurnResult
said_reply = turn_result spoken session (filter (λ u. leb 5 u.seq) (scene_of spoken 7 0))

said_ok : (Say.say env_say session question entered).0 ≡ ok said_reply
unfolding opened
said_ok = refl

say_uses_one_turn_example :
    (teacher_turns_used spoken 7 ≡ teacher_turns_used entered 7 + 1)
    × (teacher_turns_used entered 7 < 2)
say_uses_one_turn_example = say_uses_one_turn env_say session question entered 7 said_reply said_ok

advance_needs_agreement_example :
    (everyone_agreed spoken session ≡ true)
    × ((row : Session) × (session_row spoken 7 ≡ some row)
        × (is_running row.status ≡ true)
        × (row.current_phase_idx ≡ 0))
unfolding opened
advance_needs_agreement_example =
    advance_needs_agreement env session spoken
      (record { status = Status.running; current_phase_idx = 1; next_phase = some (phase 1) }) refl

abbrev pub moved_on : Move.Advanced
moved_on = record { status = Status.running; current_phase_idx = 1; next_phase = some (phase 1) }

advance-Moved_example :
    Moved env session Move.Mode.skip spoken
      (get_elem? (phases_of spoken 7) 1)
      moved_on
      (Move.advance env session Move.Mode.skip spoken).1
unfolding opened
advance-Moved_example = advance-Moved env session Move.Mode.skip spoken moved_on refl

-- A scene in which the second student's answer could not be read.
abbrev pub half_read : Db
half_read =
    (Enter.enter_write env session 0 (phase 0) (personas_of created 7)
      (result_of (answer 90 [] [] true) ∷ garbled ∷ []) created).1

abbrev pub again_reply : TurnResult
again_reply =
    let db = (Again.regenerate env session 22 half_read).1 in
    turn_result db session (filter (λ u. u.id == 4) db.utterances)

regenerate_in_place_example :
    (map place (Again.regenerate env session 22 half_read).1.utterances
      ≡ map place half_read.utterances)
    × ((k : ℕ) × (filter
            (λ u. not (u.id == k))
            (Again.regenerate env session 22 half_read).1.utterances
          ≡ filter (λ u. not (u.id == k)) half_read.utterances))
    × ((sid : ℕ)
        → teacher_turns_used (Again.regenerate env session 22 half_read).1 sid
          ≤ teacher_turns_used half_read sid)
unfolding opened
regenerate_in_place_example = regenerate_in_place env session 22 half_read again_reply refl
