-- ===== src/Sim/Reaction.antt =====
-- `StudentReaction` of app/services/simulation/llm_schemas.py, and `student_utterance` of
-- app/services/simulation/session_service.py: from a model's answer to the row that is stored.
-- Python's `re`, `difflib` and `str.strip` are parameters (`TextTools`).
pub mod Laws
use elp_gemini.Base.{
  Text, codes, text_eq, text_eq_iff, ℕ, zero, suc, ◌+◌, ◌-◌, ◌*◌, ◌/◌, ◌%◌, ◌≤◌, ◌<◌, min, max,
  String, ◌≡◌, refl, sym, ap, subst, ◌∙◌, ◌≢◌, ◌↔◌, ◌⊎◌, inl, inr, Bool, true, false, ◌&&◌, ◌||◌,
  not, Option, none, some, List, [], ◌∷◌, ◌++◌, map, append_assoc, append-nil, arith, ltb, leb,
  ◌==◌, if◌then◌else◌, leb→le, le→leb, ltb→lt, ==_iff, ==_refl, Bool-cases, Option-cases,
  &&-eq-true, is_some, opt_eq, length, get_elem?, filter, any, all, find, count, get_last?,
  order_by, any-append, count-append, filter-append, any-filter, any-order_by, length-order_by,
  length-append, length-filter_le, elem, zip, length-map,
}
use elp_gemini.Base.Texts.{contains, drop_last_if, truthy}
use elp_gemini.Sim.Gemini.{LlmResult}
use elp_gemini.Sim.Model.{Reaction, Structured, Speaker, Utterance, Persona}

-- The standard library's text functions, at the patterns that the source gives them.
pub record TextTools : Type 0 where
  -- `str.strip`
  pub strip : Text → Text
  -- `_FILLER.sub("", s)`, `_SEPARATORS.sub("", s)`
  pub sub_filler : Text → Text
  pub sub_separators : Text → Text
  -- `[p.findall for p in _QUOTED]`
  pub quoted : List (Text → List Text)
  -- `SequenceMatcher(None, a, b, autojunk=False).find_longest_match(...).size`
  pub longest_match : Text → Text → ℕ
  -- `STUCK_SUMMARY.search`, `_STUCK_WORDS.search`, `re.search(r"\w", s)`
  pub stuck_summary : Text → Bool
  pub stuck_words : Text → Bool
  pub has_word_char : Text → Bool
  -- `_SENTENCE_END.split`
  pub split_sentences : Text → List Text

-- An integer of the model's JSON, which may be negative.
pub data RawInt : Type 0 where
  pos : ℕ → RawInt
  negsuc : ℕ → RawInt

-- The answer before its validators run.
pub record RawReaction : Type 0 where
  pub action : Text
  pub utterance : Text
  pub artifact : Text
  pub misconception : Text
  pub ready_for_next : Bool
  pub understanding : RawInt
  pub confidence : Text
  pub on_task : Bool

pub record StudentReaction : Type 0 where
  pub action : Text
  pub utterance : Text
  pub artifact : Text
  pub misconception : Text
  pub ready_for_next : Bool
  pub understanding : ℕ
  pub confidence : Text
  pub on_task : Bool

-- `_clamp`: max(0, min(100, v))
unfoldable pub clamp : RawInt → ℕ
clamp (RawInt.pos n) = min 100 n
clamp (RawInt.negsuc n) = 0

abbrev get_last : Text → Option ℕ
get_last [] = none
get_last (x ∷ []) = some x
get_last (x ∷ y ∷ ys) = get_last (y ∷ ys)

module _ (tools : TextTools) where
  sentence_is_stuck : Text → Bool
  sentence_is_stuck s = opt_eq (get_last s) (some b'?') || tools.stuck_words s

  -- `_stuck_only`
  unfoldable pub stuck_only : Text → Text → Bool
  unfolding sentence_is_stuck
  stuck_only utterance artifact =
      if truthy (tools.strip artifact)
      then false
      else all sentence_is_stuck
          (filter tools.has_word_char (map tools.strip (tools.split_sentences utterance)))

  -- `_cap_with_misconception`, after `_clamp`: the cap reads the text before it is emptied.
  unfoldable pub validate : RawReaction → StudentReaction
  unfolding clamp stuck_only
  validate raw =
      let v = clamp raw.understanding in
      record {
        action = raw.action;
        utterance = raw.utterance;
        artifact = raw.artifact;
        misconception =
            if tools.stuck_summary (tools.strip raw.misconception)
              || stuck_only raw.utterance raw.artifact
            then []
            else raw.misconception;
        ready_for_next = raw.ready_for_next;
        understanding = if truthy raw.misconception && leb 80 v then 79 else v;
        confidence = raw.confidence;
        on_task = raw.on_task;
      }

abbrev pub understanding_max_rise : ℕ
understanding_max_rise = 20

abbrev pub echo_min_core : ℕ
echo_min_core = 10

abbrev pub echo_max_tail : ℕ
echo_max_tail = 5

abbrev pub same_artifact_max_core : ℕ
same_artifact_max_core = 10

-- `요`
abbrev polite_ending : ℕ
polite_ending = 50836

-- The keyword arguments of `student_utterance`, beside the row's place.
pub record Context : Type 0 where
  pub first : Bool
  pub previous : Option ℕ
  pub teacher : Text
  pub previous_artifact : Text
  pub previous_utterance : Text

module _ (tools : TextTools) where
  -- `_plain`
  unfoldable pub plain : Text → Text
  plain text = tools.sub_separators text

  -- `_core`
  unfoldable pub core : Text → Text
  unfolding plain
  core utterance = drop_last_if polite_ending (plain (tools.sub_filler utterance))

  span_is_echo : Text → Text → Bool
  span_is_echo c span =
      if ltb (length span) echo_min_core
      then false
      else let common = tools.longest_match c span in
        leb echo_min_core common && leb (length c - common) echo_max_tail

  -- `_quoted_echo`
  unfoldable pub quoted_echo : Text → Text → Bool
  unfolding core span_is_echo
  quoted_echo c teacher =
      any (λ findall. any (span_is_echo c) (map core (findall teacher))) tools.quoted

  -- The condition of `student_utterance` under which nothing new was shown.
  unfoldable pub is_echo : Text → Text → Text → Text → Text → Bool
  unfolding core plain quoted_echo
  is_echo utterance reaction_artifact teacher previous_artifact previous_utterance =
      let c = core utterance in
      let artifact = tools.strip reaction_artifact in
      let same_artifact = text_eq artifact (tools.strip previous_artifact) in
      (leb echo_min_core (length c) && contains (plain teacher) c || quoted_echo c teacher)
      || (truthy artifact && same_artifact && leb (length c) same_artifact_max_core)
      || (leb echo_min_core (length c)
          && contains (core previous_utterance) c
          && (not (truthy artifact) || same_artifact))

  -- With no earlier reaction in the scene only the first-reaction rule applies.
  settle : Context → StudentReaction → Option ℕ → ℕ
  settle ctx r none = r.understanding
  settle ctx r (some previous) =
      let kept =
        if not r.on_task && not (truthy r.misconception) then previous else r.understanding in
      let echoed =
        if is_echo r.utterance r.artifact ctx.teacher ctx.previous_artifact ctx.previous_utterance
        then min kept previous
        else kept in
      min echoed (previous + understanding_max_rise)

  -- The value of the key "understanding" that is stored.
  unfoldable pub stored_understanding : Context → StudentReaction → ℕ
  unfolding settle
  stored_understanding ctx r =
      let settled = settle ctx r ctx.previous in if ctx.first then min settled 79 else settled

  -- `reaction.model_dump()` with that key replaced.
  unfoldable pub dump : Context → StudentReaction → Reaction
  unfolding stored_understanding
  dump ctx r = record {
    action = r.action;
    utterance = r.utterance;
    artifact = r.artifact;
    misconception = r.misconception;
    ready_for_next = r.ready_for_next;
    understanding = some (stored_understanding ctx r);
    confidence = r.confidence;
    on_task = r.on_task;
  }

  content_of : LlmResult StudentReaction → Text
  content_of result = elim result.parsed [
    | none ↦ result.text
    | some r ↦ if truthy r.utterance then r.utterance else codes "(" ++ r.action ++ codes ")"
  ]

  -- `student_utterance`; the database gives the row its `id` and `created_at`.
  unfoldable pub student_utterance :
      ℕ → ℕ → ℕ → Persona → LlmResult StudentReaction → Context → Utterance
  unfolding dump content_of
  student_utterance session_id phase_idx seq persona result ctx = record {
    id = 0;
    session_id = session_id;
    phase_idx = phase_idx;
    seq = seq;
    speaker_type = Speaker.student;
    persona_id = some persona.id;
    target_persona_id = none;
    content = content_of result;
    structured = elim result.parsed [
      | none ↦ none
      | some r ↦ some (Structured.reaction (dump ctx r))
    ];
    model_name = some result.model;
    temperature = some result.temperature;
    latency_ms = some result.latency_ms;
    created_at = 0;
  }
