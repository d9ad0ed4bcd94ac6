-- ===== src/Admin/Deletion.antt =====
-- Deletions by an administrator: app/services/admin_deletion_service.py. The rows carry the columns
-- that it reads; the log of actions and the remote file store, whose errors are dropped, are left out.
pub mod Files
pub mod Plans
pub mod Rows
pub mod Tests
use elp_gemini.Base.{
  Text, codes, text_eq, text_eq_iff, ℕ, zero, suc, ◌+◌, ◌-◌, ◌*◌, ◌/◌, ◌%◌, ◌≤◌, ◌<◌, min, max,
  String, ◌≡◌, refl, sym, ap, subst, ◌∙◌, ◌≢◌, ◌↔◌, ◌⊎◌, inl, inr, Bool, true, false, ◌&&◌, ◌||◌,
  not, Option, none, some, List, [], ◌∷◌, ◌++◌, map, append_assoc, append-nil, arith, ltb, leb,
  ◌==◌, if◌then◌else◌, leb→le, le→leb, ltb→lt, ==_iff, ==_refl, Bool-cases, Option-cases,
  &&-eq-true, is_some, opt_eq, some_inj, length, get_elem?, filter, any, all, find, count,
  get_last?, order_by, any-append, count-append, filter-append, any-filter, any-order_by,
  length-order_by, length-append, length-filter_le, elem, zip, length-map, List-cases, get_elem?-lt,
}
use elp_gemini.Base.Texts.{truthy, starts_with, show}
use elp_gemini.Base.Dicts.{in_texts}
use elp_gemini.Auth.Users.{User}
use elp_gemini.Sim.Model.{Upload}

pub record AnalysisReport : Type 0 where
  pub id : ℕ
  pub user_id : ℕ
  pub lessonplan_filename : Text
  pub report_path : Text

pub record ChatSession : Type 0 where
  pub id : ℕ
  pub user_id : ℕ

pub record SimulationRun : Type 0 where
  pub id : ℕ
  pub user_id : ℕ
  pub upload_id : ℕ
  pub feedback_report_path : Option Text

pub record Tables : Type 0 where
  pub users : List User
  pub reports : List AnalysisReport
  pub chats : List ChatSession
  pub runs : List SimulationRun
  pub uploads : List Upload

-- A lesson plan's file: in a user's directory or beside them, under the static uploads or under
-- `LESSONPLAN_BASE_DIR`.
pub data Folder : Type 0 where
  static_uploads : Folder
  lessonplans : Folder

pub data PlanPath : Type 0 where
  owned : Folder → ℕ → Text → PlanPath
  shared : Folder → Text → PlanPath

abbrev pub folder_eq : Folder → Folder → Bool
folder_eq Folder.static_uploads Folder.static_uploads = true
folder_eq Folder.static_uploads Folder.lessonplans = false
folder_eq Folder.lessonplans Folder.static_uploads = false
folder_eq Folder.lessonplans Folder.lessonplans = true

abbrev pub path_eq : PlanPath → PlanPath → Bool
path_eq (PlanPath.owned f u x) (PlanPath.owned g v y) = folder_eq f g && u == v && text_eq x y
path_eq (PlanPath.owned f u x) (PlanPath.shared g y) = false
path_eq (PlanPath.shared f x) (PlanPath.owned g v y) = false
path_eq (PlanPath.shared f x) (PlanPath.shared g y) = folder_eq f g && text_eq x y

-- The files that are there.
pub record Disk : Type 0 where
  pub report_files : List Text
  pub plan_files : List PlanPath

-- The file system: which files are no links and can be unlinked, which files `shutil.rmtree` can remove
-- (it passes over the others), which paths lie below the directory of reports, and `Path(name).name`.
pub record Paths : Type 0 where
  pub can_unlink_report : Text → Bool
  pub can_unlink_plan : PlanPath → Bool
  pub can_rmtree_report : Text → Bool
  pub can_rmtree_plan : PlanPath → Bool
  pub in_reports_dir : Text → Bool
  pub base_name : Text → Text

abbrev pub has_plan : PlanPath → List PlanPath → Bool
has_plan p files = any (λ q. path_eq q p) files

-- `path.is_file()`, `path.is_symlink()` and `path.unlink()`, with the number of removed files.
unfoldable pub unlink_report : Paths → Text → Disk → Disk × ℕ
unlink_report paths p disk =
    if in_texts p disk.report_files && paths.can_unlink_report p
    then (record disk { report_files = filter (λ q. not (text_eq q p)) disk.report_files }, 1)
    else (disk, 0)

unfoldable pub unlink_plan : Paths → PlanPath → Disk → Disk × ℕ
unlink_plan paths p disk =
    if has_plan p disk.plan_files && paths.can_unlink_plan p
    then (record disk { plan_files = filter (λ q. not (path_eq q p)) disk.plan_files }, 1)
    else (disk, 0)

-- `set(...)`: the loops below go through it in sorted order, on which their result does not depend.
unfoldable pub distinct_texts : List Text → List Text
distinct_texts [] = []
distinct_texts (x ∷ xs) = let rest = distinct_texts xs in if in_texts x rest then rest else x ∷ rest

-- `_remove_report_md_files`
unfoldable pub remove_paths : Paths → Tables → List Text → Disk → Disk × ℕ
unfolding unlink_report
remove_paths paths tables [] disk = (disk, 0)
remove_paths paths tables (p ∷ ps) disk =
    let step =
      if any (λ r. text_eq r.report_path p) tables.reports
      then (disk, 0)
      else unlink_report paths p disk in
    let rest = remove_paths paths tables ps step.0 in (rest.0, step.1 + rest.1)

unfoldable pub remove_report_md_files : Paths → Tables → List AnalysisReport → Disk → Disk × ℕ
unfolding distinct_texts remove_paths
remove_report_md_files paths tables reports disk =
    remove_paths paths tables
      (distinct_texts (map (λ r. r.report_path) (filter (λ r. truthy r.report_path) reports))) disk

-- `_unlink_files`
unfoldable pub unlink_files : Paths → List Text → Disk → Disk × ℕ
unfolding unlink_report
unlink_files paths [] disk = (disk, 0)
unlink_files paths (p ∷ ps) disk =
    let step = if paths.in_reports_dir p then unlink_report paths p disk else (disk, 0) in
    let rest = unlink_files paths ps step.0 in (rest.0, step.1 + rest.1)

-- `_resolve_lessonplan_path`: the first candidate that is a file, or the first.
unfoldable pub resolve_lessonplan_path : Paths → Disk → Text → ℕ → PlanPath
resolve_lessonplan_path paths disk filename user_id =
    let name = paths.base_name filename in
    let in_uploads = PlanPath.owned Folder.static_uploads user_id name in
    let in_plans = PlanPath.owned Folder.lessonplans user_id name in
    let old_upload = PlanPath.shared Folder.static_uploads name in
    let old_plan = PlanPath.shared Folder.lessonplans name in
    if has_plan in_uploads disk.plan_files
    then in_uploads
    else if has_plan in_plans disk.plan_files
    then in_plans
    else if has_plan old_upload disk.plan_files
    then old_upload
    else if has_plan old_plan disk.plan_files
    then old_plan
    else in_uploads

-- `_is_user_scoped_lessonplan_path`
abbrev pub is_user_scoped : PlanPath → ℕ → Bool
is_user_scoped (PlanPath.owned f u x) user_id = u == user_id
is_user_scoped (PlanPath.shared f x) user_id = false

-- The reports that still have the file; those of all users for a shared path.
abbrev pub report_has : Bool → ℕ → Text → AnalysisReport → Bool
report_has user_scoped user_id name r =
    text_eq r.lessonplan_filename name && (not user_scoped || r.user_id == user_id)

-- `_lessonplan_used_by_simulation`, by the join of the simulations with their uploads.
abbrev pub upload_has : Bool → ℕ → Text → ℕ → Upload → Bool
upload_has user_scoped user_id name upload_id u =
    u.id == upload_id && text_eq u.filename name && (not user_scoped || u.user_id == user_id)

unfoldable pub lessonplan_used_by_simulation : Tables → Bool → ℕ → Text → Bool
lessonplan_used_by_simulation tables user_scoped user_id name =
    any (λ s. any (upload_has user_scoped user_id name s.upload_id) tables.uploads) tables.runs

abbrev pub is_free : Paths → Tables → PlanPath → ℕ → Text → Bool
is_free paths tables path user_id name =
    not (any (report_has (is_user_scoped path user_id) user_id name) tables.reports)
    && not (
        lessonplan_used_by_simulation tables (is_user_scoped path user_id) user_id
          (paths.base_name name))

-- `_remove_unreferenced_lessonplans`, for each pair of a user and a file name. The pairs are those of
-- the reports, each once; the id of the upload that is kept with them is not used.
abbrev pub has_pair : ℕ × Text → List (ℕ × Text) → Bool
has_pair k ks = any (λ j. j.0 == k.0 && text_eq j.1 k.1) ks

-- Python's order of texts and of pairs.
unfoldable pub text_lt : Text → Text → Bool
text_lt a [] = false
text_lt [] (y ∷ ys) = true
text_lt (x ∷ xs) (y ∷ ys) = ltb x y || x == y && text_lt xs ys

unfoldable pub key_lt : ℕ × Text → ℕ × Text → Bool
unfolding text_lt
key_lt a b = ltb a.0 b.0 || a.0 == b.0 && text_lt a.1 b.1

unfoldable pub insert_key : ℕ × Text → List (ℕ × Text) → List (ℕ × Text)
unfolding key_lt
insert_key k [] = k ∷ []
insert_key k (j ∷ js) = if key_lt j k then j ∷ insert_key k js else k ∷ j ∷ js

-- `sorted(upload_ids_by_file.items())`
unfoldable pub plan_keys : List AnalysisReport → List (ℕ × Text)
unfolding insert_key
plan_keys [] = []
plan_keys (r ∷ rs) =
    let rest = plan_keys rs in
    if truthy r.lessonplan_filename && not (has_pair (r.user_id, r.lessonplan_filename) rest)
    then insert_key (r.user_id, r.lessonplan_filename) rest
    else rest

unfoldable pub remove_plan : Paths → Tables → ℕ → Text → PlanPath → Disk → Disk × ℕ
unfolding unlink_plan lessonplan_used_by_simulation
remove_plan paths tables user_id name path disk =
    if is_free paths tables path user_id name then unlink_plan paths path disk else (disk, 0)

unfoldable pub remove_plans : Paths → Tables → List (ℕ × Text) → Disk → Disk × ℕ
unfolding remove_plan resolve_lessonplan_path
remove_plans paths tables [] disk = (disk, 0)
remove_plans paths tables (k ∷ ks) disk =
    let step = remove_plan paths tables k.0 k.1 (resolve_lessonplan_path paths disk k.1 k.0) disk in
    let rest = remove_plans paths tables ks step.0 in (rest.0, step.1 + rest.1)

unfoldable pub remove_unreferenced_lessonplans :
    Paths → Tables → List AnalysisReport → Disk → Disk × ℕ
unfolding plan_keys remove_plans
remove_unreferenced_lessonplans paths tables reports disk =
    remove_plans paths tables (plan_keys reports) disk
