-- ===== src/Sim/Reaction/Laws.antt =====
-- How the understanding of a stored reaction is bounded.
use elp_gemini.Sim.Reaction.{
  Structured, dump, is_echo, understanding_max_rise, truthy, StudentReaction, Context, RawReaction,
  validate, stored_understanding, TextTools,
}
use elp_gemini.Base.{ℕ, ◌+◌, ◌≤◌, ◌<◌, max, ◌≡◌, true, false, some, [], arith}
use elp_gemini.Sim.Agreement.{agree_threshold, row_agrees}

module _ (tools : TextTools) where
  -- The first reaction in a scene is stored below the agreement threshold, whatever the model said.
  pub first_reaction_below :
      (ctx : Context) (r : StudentReaction)
      → ctx.first ≡ true
      → stored_understanding tools ctx r < agree_threshold
  unfolding stored_understanding
  first_reaction_below ctx r h = ground arith

  -- After an earlier readable reaction with the value p, what is stored is at most p + 20, and at
  -- most the larger of p and what the model answered.
  pub stored_understanding_rise :
      (ctx : Context) (r : StudentReaction) (p : ℕ)
      → ctx.previous ≡ some p
      → (stored_understanding tools ctx r ≤ p + understanding_max_rise)
        × (stored_understanding tools ctx r ≤ max p r.understanding)
  unfolding stored_understanding
  stored_understanding_rise ctx r p h = ground arith

  -- A reaction that repeats what was already said never raises the value.
  pub echo_never_raises :
      (ctx : Context) (r : StudentReaction) (p : ℕ)
      → ctx.previous ≡ some p
      → is_echo tools r.utterance r.artifact ctx.teacher ctx.previous_artifact
          ctx.previous_utterance
        ≡ true
      → stored_understanding tools ctx r ≤ p
  unfolding stored_understanding
  echo_never_raises ctx r p h e = ground arith

  -- A reaction that is off task, shows no misconception and comes after the value p, keeps p.
  pub off_task_keeps :
      (ctx : Context) (r : StudentReaction) (p : ℕ)
      → ctx.first ≡ false
      → ctx.previous ≡ some p
      → r.on_task ≡ false
      → r.misconception ≡ []
      → stored_understanding tools ctx r ≡ p
  unfolding stored_understanding
  off_task_keeps ctx r p f h o m = ground arith

  validate-misconception :
      (raw : RawReaction)
      → truthy (validate tools raw).misconception ≡ true
      → (validate tools raw).understanding < agree_threshold
  unfolding validate
  validate-misconception raw h = ground arith

  -- The clamp: whatever integer the model sends, the reaction holds one from 0 to 100.
  pub validate_range : (raw : RawReaction) → (validate tools raw).understanding ≤ 100
  unfolding validate
  validate_range raw = ground arith

  stored-le-misconception :
      (ctx : Context) (r : StudentReaction)
      → truthy r.misconception ≡ true
      → stored_understanding tools ctx r ≤ r.understanding
  unfolding stored_understanding
  stored-le-misconception ctx r h = ground arith

  -- A validated reaction that still shows a misconception is stored as one that does not agree.
  pub misconception_never_agrees :
      (ctx : Context) (raw : RawReaction)
      → truthy (validate tools raw).misconception ≡ true
      → row_agrees (Structured.reaction (dump tools ctx (validate tools raw))) ≡ false
  unfolding row_agrees dump
  misconception_never_agrees ctx raw h =
      ground
        (arith, validate-misconception raw h, stored-le-misconception ctx (validate tools raw) h)
