-- ===== src/Sim/Guidelines.antt =====
-- The administrator's guidelines for feedback: app/services/simulation/guidelines.py and
-- app/models/simulation_feedback_guideline.py. Reading the text of a file, `str.strip` and the base
-- prompt are parameters.
pub mod Versions
pub mod Prompts
pub mod Tests
use elp_gemini.Base.{
  Text, codes, text_eq, text_eq_iff, ℕ, zero, suc, ◌+◌, ◌-◌, ◌*◌, ◌/◌, ◌%◌, ◌≤◌, ◌<◌, min, max,
  String, ◌≡◌, refl, sym, ap, subst, ◌∙◌, ◌≢◌, ◌↔◌, ◌⊎◌, inl, inr, Bool, true, false, ◌&&◌, ◌||◌,
  not, Option, none, some, List, [], ◌∷◌, ◌++◌, map, append_assoc, append-nil, arith, ltb, leb,
  ◌==◌, if◌then◌else◌, leb→le, le→leb, ltb→lt, ==_iff, ==_refl, Bool-cases, Option-cases,
  &&-eq-true, is_some, opt_eq, some_inj, length, get_elem?, filter, any, all, find, count,
  get_last?, order_by, any-append, count-append, filter-append, any-filter, any-order_by,
  length-order_by, length-append, length-filter_le, elem, zip, length-map, List-cases, get_elem?-lt,
}
use elp_gemini.Base.Texts.{truthy, join}
use elp_gemini.Base.Dicts.{lookup}
use elp_gemini.Criteria.{Criteria, is_active}
use elp_gemini.Criteria.Table.{get_criteria_by_id}
use elp_gemini.Sim.Errors.{Code, Result, ok, err}
use elp_gemini.Sim.Model.{Session, Status}

pub record Guideline : Type 0 where
  pub id : ℕ
  pub version : ℕ
  pub enabled : Bool
  pub required_aspects : List Text
  pub criteria_ids : List ℕ
  pub extra_instructions : Text
  pub created_by : Option ℕ
  pub created_at : ℕ

abbrev pub line_break : Text
line_break = 10 ∷ []

abbrev pub blank_line : Text
blank_line = 10 ∷ 10 ∷ []

unfoldable pub optional_aspects : List (Text × Text)
optional_aspects =
    (codes "achievement_standards", codes "성취기준 연계")
    ∷ (codes "udl", codes "UDL")
    ∷ (codes "digital_tools", codes "디지털 도구")
    ∷ (codes "question_types", codes "발문 유형")
    ∷ (codes "formative_timing", codes "형성평가 시점")
    ∷ []

unfoldable pub base_constraints : Text
base_constraints = join line_break (
    codes "[기본 제약]"
    ∷ codes "- 위의 추가 관점·지침과 충돌하면 이 제약을 따릅니다."
    ∷ codes "- 모든 내용은 가설입니다. 실제 수업 결과를 단정하지 않습니다."
    ∷ codes "- 학생을 낙인찍지 않고, 진단명이나 임상 용어를 쓰지 않습니다."
    ∷ codes "- 지도안과 대화록에 없는 사실을 지어내지 않습니다."
    ∷ codes "- 응답 항목 구성은 바꾸지 않습니다. 추가 관점은 기존 항목 안에 반영합니다."
    ∷ codes "- 이모지나 아이콘 문자를 쓰지 않습니다."
    ∷ [])

abbrev pub with_label : Option Text → List Text → List Text
with_label none rest = rest
with_label (some label) rest = label ∷ rest

-- The labels of the aspects that are known.
unfoldable pub aspect_labels : List Text → List Text
unfolding optional_aspects
aspect_labels [] = []
aspect_labels (k ∷ ks) = with_label (lookup k optional_aspects) (aspect_labels ks)

abbrev pub part_unless_empty : List Text → Text → List Text
part_unless_empty [] part = []
part_unless_empty (x ∷ xs) part = part ∷ []

-- What an enabled guideline adds.
unfoldable pub guideline_parts : (Text → Text) → Guideline → List Text → List Text
unfolding aspect_labels
guideline_parts strip g excerpts =
    let labels = aspect_labels g.required_aspects in
    part_unless_empty labels
      (codes "[추가 관점]" ++ line_break ++ join line_break (map (λ label. codes "- " ++ label) labels))
    ++ (part_unless_empty excerpts (codes "[참고 평가기준]" ++ line_break ++ join blank_line excerpts)
        ++ (if truthy (strip g.extra_instructions)
            then (codes "[추가 지침]" ++ line_break ++ strip g.extra_instructions) ∷ []
            else []))

abbrev pub enabled_parts : (Text → Text) → Option Guideline → List Text → List Text
enabled_parts strip none excerpts = []
enabled_parts strip (some g) excerpts = if g.enabled then guideline_parts strip g excerpts else []

-- `assemble`
unfoldable pub assemble : (Text → Text) → Text → Option Guideline → List Text → Text
unfolding guideline_parts base_constraints
assemble strip base guideline excerpts =
    join blank_line ((strip base ∷ enabled_parts strip guideline excerpts) ++ base_constraints ∷ [])

abbrev pub criteria_excerpt_chars : ℕ
criteria_excerpt_chars = 4000

unfoldable pub excerpt_of : ℕ → Text → Text
excerpt_of zero t = []
excerpt_of (suc n) [] = []
excerpt_of (suc n) (c ∷ t) = c ∷ excerpt_of n t

-- `_read_excerpt`; `read` is none where there is no file.
unfoldable pub read_excerpt : (Text → Text) → Option Text → Text
unfolding excerpt_of
read_excerpt strip none = []
read_excerpt strip (some text) = strip (excerpt_of criteria_excerpt_chars text)

abbrev pub excerpt_for : (Text → Text) → (Text → Option Text) → Option Criteria → Text
excerpt_for strip read none = []
excerpt_for strip read (some row) = read_excerpt strip (read row.file_path)

-- The excerpts of the guideline's criteria; rows and files that are not there are passed over.
unfoldable pub excerpts_of :
    (Text → Text) → (Text → Option Text) → List Criteria → List ℕ → List Text
unfolding read_excerpt
excerpts_of strip read criteria [] = []
excerpts_of strip read criteria (cid ∷ cids) =
    let rest = excerpts_of strip read criteria cids in
    let text = excerpt_for strip read (get_criteria_by_id criteria cid) in
    if truthy text then text ∷ rest else rest

abbrev pub enabled_excerpts :
    (Text → Text) → (Text → Option Text) → List Criteria → Option Guideline → List Text
enabled_excerpts strip read criteria none = []
enabled_excerpts strip read criteria (some g) =
    if g.enabled then excerpts_of strip read criteria g.criteria_ids else []

-- `system_prompt`
unfoldable pub system_prompt :
    (Text → Text) → (Text → Option Text) → Text → List Criteria → Option Guideline → Text
unfolding assemble excerpts_of
system_prompt strip read base criteria guideline =
    assemble strip base guideline (enabled_excerpts strip read criteria guideline)

-- `history`: by version, the newest first.
insert_version : Guideline → List Guideline → List Guideline
insert_version g [] = g ∷ []
insert_version g (h ∷ hs) = if leb h.version g.version then g ∷ h ∷ hs else h ∷ insert_version g hs

unfoldable pub history : List Guideline → List Guideline
unfolding insert_version
history [] = []
history (g ∷ gs) = insert_version g (history gs)

abbrev pub first_row : List Guideline → Option Guideline
first_row [] = none
first_row (g ∷ gs) = some g

-- `current`
unfoldable pub current : List Guideline → Option Guideline
unfolding history
current rows = first_row (history rows)

-- `select max(version)`; 0 stands for no row, as in `(latest or 0)`.
unfoldable pub max_version : List Guideline → ℕ
max_version [] = 0
max_version (g ∷ gs) = max g.version (max_version gs)

unfoldable pub next_guideline_id : List Guideline → ℕ
next_guideline_id [] = 1
next_guideline_id (g ∷ gs) = max (g.id + 1) (next_guideline_id gs)

-- `save`: `rows` is what the request read, and `committed` what is there at its commit, which the
-- unique index on `version` may refuse. The columns of `g` but the version, the id, the author and the
-- time are those of the request.
unfoldable pub save :
    ℕ → ℕ → Guideline → List Guideline → List Guideline → Result Guideline × List Guideline
unfolding max_version next_guideline_id
save now admin g rows committed =
    let version = max_version rows + 1 in
    let row = record g {
      id = next_guideline_id committed;
      version = version;
      created_by = some admin;
      created_at = now;
    } in
    if any (λ h. h.version == version) committed
    then (err Code.conflict_retry, committed)
    else (ok row, committed ++ row ∷ [])

abbrev pub or_title : Option Text → Text → Text
or_title none title = title
or_title (some alias) title = if truthy alias then alias else title

-- `active_criteria`: the id and the shown name of each active criterion.
unfoldable pub active_criteria : List Criteria → List (ℕ × Text)
active_criteria rows =
    map (λ c. (c.id, or_title c.display_alias c.title))
      (order_by Criteria.id (filter (λ c. is_active c.status) rows))

abbrev pub is_finished : Status → Bool
is_finished Status.finished = true
is_finished Status.running = false

abbrev pub of_user : Option ℕ → Session → Bool
of_user none s = true
of_user (some user_id) s = s.user_id == user_id

-- By `finished_at`, a missing one last, and then by `id`.
abbrev pub finished_later : Option ℕ → ℕ → Option ℕ → ℕ → Bool
finished_later none i none j = leb j i
finished_later none i (some b) j = false
finished_later (some a) i none j = true
finished_later (some a) i (some b) j = ltb b a || a == b && leb j i

unfoldable pub later_session : Session → Option Session → Session
later_session s none = s
later_session s (some t) = if finished_later s.finished_at s.id t.finished_at t.id then s else t

unfoldable pub latest_session : List Session → Option Session
unfolding later_session
latest_session [] = none
latest_session (s ∷ ss) = some (later_session s (latest_session ss))

-- `latest_finished_session`
unfoldable pub latest_finished_session : List Session → Option ℕ → Option Session
unfolding latest_session
latest_finished_session sessions user_id =
    latest_session (filter (λ s. is_finished s.status && of_user user_id s) sessions)
