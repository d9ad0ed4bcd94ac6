-- ===== src/Admin/Deletion/Rows.antt =====
-- The requests of app/services/admin_deletion_service.py.
pub mod Laws
pub mod OwnPlans
pub mod Users
pub mod Reports
use elp_gemini.Base.{
  Text, codes, text_eq, text_eq_iff, ℕ, zero, suc, ◌+◌, ◌-◌, ◌*◌, ◌/◌, ◌%◌, ◌≤◌, ◌<◌, min, max,
  String, ◌≡◌, refl, sym, ap, subst, ◌∙◌, ◌≢◌, ◌↔◌, ◌⊎◌, inl, inr, Bool, true, false, ◌&&◌, ◌||◌,
  not, Option, none, some, List, [], ◌∷◌, ◌++◌, map, append_assoc, append-nil, arith, ltb, leb,
  ◌==◌, if◌then◌else◌, leb→le, le→leb, ltb→lt, ==_iff, ==_refl, Bool-cases, Option-cases,
  &&-eq-true, is_some, opt_eq, some_inj, length, get_elem?, filter, any, all, find, count,
  get_last?, order_by, any-append, count-append, filter-append, any-filter, any-order_by,
  length-order_by, length-append, length-filter_le, elem, zip, length-map, List-cases, get_elem?-lt,
}
use elp_gemini.Base.Texts.{truthy, starts_with, show}
use elp_gemini.Base.Dicts.{in_texts}
use elp_gemini.Auth.Users.{User}
use elp_gemini.Sim.Model.{Upload}
use elp_gemini.Admin.Deletion.{
  AnalysisReport, ChatSession, SimulationRun, Tables, Folder, PlanPath, owned, shared, Disk, Paths,
  distinct_texts, remove_report_md_files, unlink_files, remove_unreferenced_lessonplans,
}

-- `PermissionError`, `LookupError` and `ValueError`.
pub data Refused : Type 0 where
  forbidden : Refused
  not_found : Refused
  not_owned : Refused

pub data Answer : Type 0 where
  refused : Refused → Answer
  deleted : ℕ → ℕ → Answer

-- The tables and the disk behind a request.
pub record World : Type 0 where
  pub tables : Tables
  pub disk : Disk

path_of : Bool → Option Text → List Text → List Text
path_of true (some p) rest = p ∷ rest
path_of true none rest = rest
path_of false p rest = rest

-- The reports' paths of a user's simulations.
unfoldable pub run_paths : ℕ → List SimulationRun → List Text
unfolding path_of
run_paths user_id [] = []
run_paths user_id (s ∷ ss) =
    path_of (s.user_id == user_id) s.feedback_report_path (run_paths user_id ss)

-- The uploads of a user, by which the database deletes the simulations of them.
abbrev pub upload_of : ℕ → List Upload → ℕ → Bool
upload_of user_id uploads upload_id = any (λ u. u.id == upload_id && u.user_id == user_id) uploads

-- `db.delete(user)` and the commit, with the cascades of the relationships and of the foreign keys.
unfoldable pub delete_rows_of : ℕ → Tables → Tables
delete_rows_of user_id tables = record {
  users = filter (λ u. not (u.id == user_id)) tables.users;
  reports = filter (λ r. not (r.user_id == user_id)) tables.reports;
  chats = filter (λ c. not (c.user_id == user_id)) tables.chats;
  runs =
      filter (λ s. not (s.user_id == user_id || upload_of user_id tables.uploads s.upload_id))
        tables.runs;
  uploads = filter (λ u. not (u.user_id == user_id)) tables.uploads;
}

-- `shutil.rmtree` of the user's directories, with the number of files that were in
-- them, removed or not.
abbrev pub is_owned_by : ℕ → PlanPath → Bool
is_owned_by user_id (PlanPath.owned f u x) = u == user_id
is_owned_by user_id (PlanPath.shared f x) = false

unfoldable pub reports_dir : ℕ → Text
reports_dir user_id = codes "app/static/reports/" ++ show user_id ++ codes "/"

unfoldable pub remove_user_dirs : Paths → ℕ → Disk → Disk × ℕ
unfolding reports_dir
remove_user_dirs paths user_id disk = (
  record {
    report_files =
        filter (λ p. not (starts_with p (reports_dir user_id) && paths.can_rmtree_report p))
          disk.report_files;
    plan_files =
        filter (λ p. not (is_owned_by user_id p && paths.can_rmtree_plan p)) disk.plan_files;
  },
  count (is_owned_by user_id) disk.plan_files
      + count (λ p. starts_with p (reports_dir user_id)) disk.report_files,
)

-- What `delete_user` does behind its guards.
unfoldable pub purge_user : Paths → ℕ → World → World × Answer
unfolding delete_rows_of remove_user_dirs run_paths
purge_user paths user_id world =
    let snapshot = filter (λ r. r.user_id == user_id) world.tables.reports in
    let tables = delete_rows_of user_id world.tables in
    let md = remove_report_md_files paths tables snapshot world.disk in
    let sim = unlink_files paths (distinct_texts (run_paths user_id world.tables.runs)) md.0 in
    let plans = remove_unreferenced_lessonplans paths tables snapshot sim.0 in
    let dirs = remove_user_dirs paths user_id plans.0 in
    (record { tables = tables; disk = dirs.0 }, Answer.deleted 1 (md.1 + sim.1 + plans.1 + dirs.1))

delete_found : Paths → ℕ → World → Option User → World × Answer
delete_found paths target world none = (world, Answer.refused Refused.not_found)
delete_found paths target world (some user) =
    if user.is_admin
    then (world, Answer.refused Refused.forbidden)
    else purge_user paths target world

-- `delete_user`
unfoldable pub delete_user : Paths → ℕ → ℕ → World → World × Answer
unfolding delete_found
delete_user paths target admin world =
    if target == admin
    then (world, Answer.refused Refused.forbidden)
    else delete_found paths target world (find (λ u. u.id == target) world.tables.users)

-- `delete_chat_session`; the messages go with their session.
unfoldable pub delete_chat_session : ℕ → World → World × Answer
delete_chat_session session_id world =
    if any (λ c. c.id == session_id) world.tables.chats
    then (
      record world {
        tables = record world.tables {
          chats = filter (λ c. not (c.id == session_id)) world.tables.chats;
        };
      },
      Answer.deleted 1 0,
    )
    else (world, Answer.refused Refused.not_found)

-- The deletion of reports and of the files that nothing needs any more.
unfoldable pub purge_reports : Paths → List ℕ → World → World × Answer
purge_reports paths ids world =
    let snapshot = filter (λ r. elem r.id ids) world.tables.reports in
    let tables = record world.tables {
      reports = filter (λ r. not (elem r.id ids)) world.tables.reports;
    } in
    let md = remove_report_md_files paths tables snapshot world.disk in
    let plans = remove_unreferenced_lessonplans paths tables snapshot md.0 in
    (record { tables = tables; disk = plans.0 }, Answer.deleted (length snapshot) (md.1 + plans.1))

-- `delete_analysis_report`
unfoldable pub delete_analysis_report : Paths → ℕ → World → World × Answer
unfolding purge_reports
delete_analysis_report paths report_id world =
    if any (λ r. r.id == report_id) world.tables.reports
    then purge_reports paths (report_id ∷ []) world
    else (world, Answer.refused Refused.not_found)

-- `list(dict.fromkeys(ids))`
distinct_after : List ℕ → List ℕ → List ℕ
distinct_after seen [] = []
distinct_after seen (k ∷ ks) =
    let rest = distinct_after (k ∷ seen) ks in if elem k seen then rest else k ∷ rest

unfoldable pub distinct_ids : List ℕ → List ℕ
unfolding distinct_after
distinct_ids ids = distinct_after [] ids

-- `bulk_delete_sessions`
unfoldable pub bulk_delete_sessions : ℕ → List ℕ → World → World × Answer
unfolding distinct_ids
bulk_delete_sessions user_id [] world = (world, Answer.deleted 0 0)
bulk_delete_sessions user_id (k ∷ ks) world =
    let ids = distinct_ids (k ∷ ks) in
    let sessions = filter (λ c. elem c.id ids) world.tables.chats in
    if not (length sessions == length ids) || any (λ c. not (c.user_id == user_id)) sessions
    then (world, Answer.refused Refused.not_owned)
    else (
      record world {
        tables = record world.tables {
          chats = filter (λ c. not (elem c.id ids)) world.tables.chats;
        };
      },
      Answer.deleted (length sessions) 0,
    )

-- `bulk_delete_reports`
unfoldable pub bulk_delete_reports : Paths → ℕ → List ℕ → World → World × Answer
unfolding distinct_ids purge_reports
bulk_delete_reports paths user_id [] world = (world, Answer.deleted 0 0)
bulk_delete_reports paths user_id (k ∷ ks) world =
    let ids = distinct_ids (k ∷ ks) in
    let reports = filter (λ r. elem r.id ids) world.tables.reports in
    if not (length reports == length ids) || any (λ r. not (r.user_id == user_id)) reports
    then (world, Answer.refused Refused.not_owned)
    else purge_reports paths ids world
