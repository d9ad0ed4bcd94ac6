-- ===== src/Sim/Tests/Runs.antt =====
-- Interleavings of requests at the sessions of the parent.
use elp_gemini.Base.{codes, ◌≤◌, refl, true, none, some, [], ◌∷◌, arith}
use elp_gemini.Sim.Model.{Status}
use elp_gemini.Sim.Store.{Db, teacher_turns_used, personas_of}
use elp_gemini.Sim.Session.Say
use elp_gemini.Sim.Session.Move
use elp_gemini.Sim.Run
use elp_gemini.Sim.Session.Feedback
use elp_gemini.Sim.Run.Frozen.{StaysEnded, finished_is_final}
use elp_gemini.Sim.Run.Sound.{turns_within_limit}
use elp_gemini.Sim.Run.Scenes.{IsPlaced, Reach-IsPlaced}
use elp_gemini.Sim.Tests.{
  answer, result_of, garbled, session, phase, created, env, entered, question, spoken, opened,
}
use elp_gemini.Sim.Tests.Requests.{asked}

abbrev over : Db
over = (Move.finish env session spoken).1

-- A late answer to a question from before the end, and a move by a session object from then.
late :
    Run.Reach 2 over
      (Move.advance env session Move.Mode.skip
        (Say.say_write env session question asked (garbled ∷ []) over).1).1
late =
    Run.Reach.next
      (Run.Reach.next Run.Reach.here
        (Run.Step.say env session question asked (garbled ∷ []) refl refl))
      (Run.Step.advance env session Move.Mode.skip refl)

abbrev saved : Feedback.Saved
saved = record { envelope = codes "good"; file_path = codes "simulation_7.md"; version = none }

finished_is_final_example :
    StaysEnded 7 over
      (Feedback.save_feedback 7 saved
        (Move.advance env session Move.Mode.skip
          (Say.say_write env session question asked (garbled ∷ []) over).1).1).1
unfolding opened
finished_is_final_example =
    finished_is_final 2 7
      (record session { status = Status.finished; finished_at = some 100 }, refl, refl)
      (Run.Reach.next late (Run.Step.feedback 7 saved refl))

turns_within_limit_example :
    teacher_turns_used
      (Move.advance env session Move.Mode.skip
        (Say.say_write env session question asked (garbled ∷ []) over).1).1
      7
    ≤ 2
unfolding opened
turns_within_limit_example = turns_within_limit 2 7 (omega arith) late

-- The session as it is created is in its first scene.
created-IsPlaced : IsPlaced 7 created
unfolding opened
created-IsPlaced = record { in_scene = λ row e. ground arith; end_time = λ row e. ground arith }

two_steps : Run.Reach 2 created (Move.advance env session Move.Mode.skip entered).1
unfolding opened
two_steps =
    Run.Reach.next
      (Run.Reach.next Run.Reach.here (
        Run.Step.enter env session 0 (phase 0) (personas_of created 7)
          (result_of (answer 90 (codes "It is one of two equal parts") [] true)
            ∷ result_of (answer 90 (codes "It is one of two equal parts") [] true)
            ∷ [])
          refl))
      (Run.Step.advance env session Move.Mode.skip refl)

Reach-IsPlaced_example : IsPlaced 7 (Move.advance env session Move.Mode.skip entered).1
Reach-IsPlaced_example = Reach-IsPlaced 2 7 created-IsPlaced two_steps
