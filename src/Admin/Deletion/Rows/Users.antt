-- ===== src/Admin/Deletion/Rows/Users.antt =====
-- The deletion of a user.
use elp_gemini.Base.{
  Text, text_eq, ℕ, ◌≡◌, refl, ap, ◌∙◌, inl, inr, Bool, false, ◌&&◌, ◌||◌, not, Option, none, some,
  List, [], ◌∷◌, arith, ◌==◌, Bool-cases, filter, any, find,
}
use elp_gemini.Auth.Users.{User}
use elp_gemini.Sim.Model.{Upload}
use elp_gemini.Admin.Deletion.{
  AnalysisReport, ChatSession, SimulationRun, Tables, Folder, PlanPath, has_plan, Disk, Paths,
  distinct_texts, remove_report_md_files, unlink_files, remove_unreferenced_lessonplans,
}
use elp_gemini.Base.Texts.{starts_with}
use elp_gemini.Base.Dicts.{in_texts}
use elp_gemini.Admin.Deletion.Rows.Reports.{run_names, dirs-apart, purge_user-reports}
use elp_gemini.Admin.Deletion.Rows.{
  reports_dir, World, delete_user, delete_found, purge_user, delete_rows_of, remove_user_dirs,
  run_paths, upload_of,
}
use elp_gemini.Admin.Deletion.Rows.OwnPlans.{
  dirs-others, plans-others, unlink_files-plan_files, remove_report_md_files-plan_files,
}

-- The rows with one key stay when those with another are deleted.
filter-other {ℓ} :
    {A : Type ℓ} (key : A → ℕ) (target v : ℕ) (xs : List A)
    → (v == target) ≡ false
    → filter (λ x. key x == v) (filter (λ x. not (key x == target)) xs)
      ≡ filter (λ x. key x == v) xs
filter-other key target v [] h = refl
filter-other key target v (x ∷ xs) h = ground (arith, filter-other key target v xs)

-- A simulation of `v` that is not on a lesson plan uploaded by `target`.
abbrev pub is_run_apart : ℕ → ℕ → List Upload → SimulationRun → Bool
is_run_apart target v uploads s = s.user_id == v && not (upload_of target uploads s.upload_id)

-- A report file of `v`'s directory, or outside `target`'s, that no simulation of `target` names, and
-- no report of `target`, or a report of another user as well.
abbrev pub is_spared : ℕ → ℕ → Tables → Text → Bool
is_spared target v tables p =
    (starts_with p (reports_dir v) || not (starts_with p (reports_dir target)))
    && not (any (run_names target p) tables.runs)
    && not (
        any (λ r. text_eq r.report_path p) (filter (λ r. r.user_id == target) tables.reports)
        && not (
            any (λ r. text_eq r.report_path p)
              (filter (λ r. not (r.user_id == target)) tables.reports)))

-- What a user `v` keeps when another, `target`, is deleted.
abbrev pub Untouched : ℕ → ℕ → World → World → Type 0
Untouched target v before after =
    (filter (λ u. u.id == v) after.tables.users ≡ filter (λ u. u.id == v) before.tables.users)
    × (filter (λ r. r.user_id == v) after.tables.reports
        ≡ filter (λ r. r.user_id == v) before.tables.reports)
    × (filter (λ c. c.user_id == v) after.tables.chats
        ≡ filter (λ c. c.user_id == v) before.tables.chats)
    × (filter (λ u. u.user_id == v) after.tables.uploads
        ≡ filter (λ u. u.user_id == v) before.tables.uploads)
    × (filter (is_run_apart target v before.tables.uploads) after.tables.runs
        ≡ filter (is_run_apart target v before.tables.uploads) before.tables.runs)
    × ((f : Folder) (x : Text)
        → has_plan (PlanPath.owned f v x) after.disk.plan_files
          ≡ has_plan (PlanPath.owned f v x) before.disk.plan_files)
    × ((p : Text)
        → (is_spared target v before.tables p && in_texts p after.disk.report_files)
          ≡ (is_spared target v before.tables p && in_texts p before.disk.report_files))

Untouched-refl : (target v : ℕ) (world : World) → Untouched target v world world
Untouched-refl target v world = (refl, refl, refl, refl, refl, (λ f x. refl), (λ p. refl))

runs-other :
    (target v : ℕ) (uploads : List Upload) (runs : List SimulationRun)
    → (v == target) ≡ false
    → filter
        (is_run_apart target v uploads)
        (filter (λ s. not (s.user_id == target || upload_of target uploads s.upload_id)) runs)
      ≡ filter (is_run_apart target v uploads) runs
runs-other target v uploads [] n = refl
runs-other target v uploads (s ∷ ss) n = ground (arith, runs-other target v uploads ss n)

spared-reports :
    (paths : Paths) (target v : ℕ) (world : World) (p : Text)
    → (v == target) ≡ false
    → (is_spared target v world.tables p
        && in_texts p (purge_user paths target world).0.disk.report_files)
      ≡ (is_spared target v world.tables p && in_texts p world.disk.report_files)
spared-reports paths target v world p n = elim (Bool-cases (is_spared target v world.tables p)) [
  | inr o ↦ rw o refl
  | inl y ↦
      rw
        (purge_user-reports paths target world p (ground (arith, dirs-apart v target p n, y))
          (ground (arith, y)) (ground (arith, y)))
        refl
]

purge_user-Untouched :
    (paths : Paths) (target v : ℕ) (world : World)
    → (v == target) ≡ false
    → Untouched target v world (purge_user paths target world).0
unfolding purge_user delete_rows_of remove_user_dirs
purge_user-Untouched paths target v world n = (
  filter-other (λ (u : User). u.id) target v world.tables.users n,
  filter-other (λ (r : AnalysisReport). r.user_id) target v world.tables.reports n,
  filter-other (λ (c : ChatSession). c.user_id) target v world.tables.chats n,
  filter-other (λ (u : Upload). u.user_id) target v world.tables.uploads n,
  runs-other target v world.tables.uploads world.tables.runs n,
  files,
  (λ p. spared-reports paths target v world p n),
)
  where
    tables : Tables
    tables = delete_rows_of target world.tables

    snapshot : List AnalysisReport
    snapshot = filter (λ r. r.user_id == target) world.tables.reports

    md : Disk
    md = (remove_report_md_files paths tables snapshot world.disk).0

    sim : Disk
    sim = (unlink_files paths (distinct_texts (run_paths target world.tables.runs)) md).0

    files :
        (f : Folder) (x : Text)
        → has_plan (PlanPath.owned f v x) (purge_user paths target world).0.disk.plan_files
          ≡ has_plan (PlanPath.owned f v x) world.disk.plan_files
    files f x =
        dirs-others paths target v f x
          (remove_unreferenced_lessonplans paths tables snapshot sim).0.plan_files n
        ∙ plans-others paths tables world.tables.reports sim target v f x n
        ∙ ap (has_plan (PlanPath.owned f v x)) (
            unlink_files-plan_files paths (distinct_texts (run_paths target world.tables.runs)) md
            ∙ md_same)
      where
        md_same : md.plan_files ≡ world.disk.plan_files
        md_same = remove_report_md_files-plan_files paths tables snapshot world.disk

-- The deletion of one user leaves to any other the account, the reports, chats and uploads, the
-- simulations on lesson plans that the deleted user had not uploaded, and the lesson plans in the
-- other's own directories. Of the reports' files it leaves those in the other's directory, and those
-- outside the deleted user's, unless a simulation of the deleted user names them, or one of the
-- deleted user's reports and no report of anyone else.
pub delete_user-Untouched :
    (paths : Paths) (target admin v : ℕ) (world : World)
    → (v == target) ≡ false
    → Untouched target v world (delete_user paths target admin world).0
unfolding delete_user delete_found
delete_user-Untouched paths target admin v world n = elim (Bool-cases (target == admin)) [
  | inl y ↦ rw y (Untouched-refl target v world)
  | inr o ↦ rw o (at (find (λ u. u.id == target) world.tables.users))
]
  where
    at : (o : Option User) → Untouched target v world (delete_found paths target world o).0
    at none = (Untouched-refl target v world)
    at (some user) = elim (Bool-cases user.is_admin) [
      | inl y ↦ rw y (Untouched-refl target v world)
      | inr m ↦ rw m (purge_user-Untouched paths target v world n)
    ]
