-- ===== src/Admin/Deletion/Rows/OwnPlans.antt =====
-- The lesson plans in a user's own directories, when another user is deleted.
use elp_gemini.Base.{
  sym, Text, text_eq, ℕ, ◌≡◌, refl, subst, ◌∙◌, inl, inr, true, false, ◌&&◌, not, List, [], ◌∷◌,
  map, arith, ◌==◌, if◌then◌else◌, Bool-cases, filter, any,
}
use elp_gemini.Admin.Deletion.{
  key_lt, insert_key, truthy, AnalysisReport, Tables, Folder, PlanPath, path_eq, has_plan, has_pair,
  Disk, Paths, distinct_texts, unlink_report, remove_paths, remove_report_md_files, unlink_files,
  plan_keys, resolve_lessonplan_path, remove_unreferenced_lessonplans,
}
use elp_gemini.Admin.Deletion.Plans.{Fits, resolve-Fits, remove_plans-spared}
use elp_gemini.Admin.Deletion.Rows.{is_owned_by}

unlink_report-plan_files :
    (paths : Paths) (p : Text) (disk : Disk)
    → (unlink_report paths p disk).0.plan_files ≡ disk.plan_files
unfolding unlink_report
unlink_report-plan_files paths p disk = ground arith

remove_paths-plan_files :
    (paths : Paths) (tables : Tables) (ps : List Text) (disk : Disk)
    → (remove_paths paths tables ps disk).0.plan_files ≡ disk.plan_files
unfolding remove_paths
remove_paths-plan_files paths tables [] disk = refl
remove_paths-plan_files paths tables (p ∷ ps) disk =
    remove_paths-plan_files paths tables ps
      (if any (λ r. text_eq r.report_path p) tables.reports
        then (disk, 0)
        else unlink_report paths p disk).0
    ∙ ground (arith, unlink_report-plan_files paths p disk)

pub remove_report_md_files-plan_files :
    (paths : Paths) (tables : Tables) (reports : List AnalysisReport) (disk : Disk)
    → (remove_report_md_files paths tables reports disk).0.plan_files ≡ disk.plan_files
unfolding remove_report_md_files
remove_report_md_files-plan_files paths tables reports disk =
    remove_paths-plan_files paths tables
      (distinct_texts (map (λ r. r.report_path) (filter (λ r. truthy r.report_path) reports))) disk

pub unlink_files-plan_files :
    (paths : Paths) (ps : List Text) (disk : Disk)
    → (unlink_files paths ps disk).0.plan_files ≡ disk.plan_files
unfolding unlink_files
unlink_files-plan_files paths [] disk = refl
unlink_files-plan_files paths (p ∷ ps) disk =
    unlink_files-plan_files paths ps
      (if paths.in_reports_dir p then unlink_report paths p disk else (disk, 0)).0
    ∙ ground (arith, unlink_report-plan_files paths p disk)

has_pair-insert_key :
    (k j : ℕ × Text) (ks : List (ℕ × Text)) → has_pair k (insert_key j ks) ≡ has_pair k (j ∷ ks)
unfolding insert_key
has_pair-insert_key k j [] = refl
has_pair-insert_key k j (i ∷ ks) = elim (Bool-cases (key_lt i j)) [
  | inl y ↦ rw y (ground (arith, has_pair-insert_key k j ks))
  | inr n ↦ rw n refl
]

plan_keys-user :
    (user_id : ℕ) (name : Text) (reports : List AnalysisReport)
    → has_pair (user_id, name) (plan_keys reports) ≡ true
    → any (λ r. r.user_id == user_id) reports ≡ true
unfolding plan_keys
plan_keys-user user_id name [] h = h
plan_keys-user user_id name (r ∷ rs) h =
    elim (Bool-cases (
      truthy r.lessonplan_filename
      && not (has_pair (r.user_id, r.lessonplan_filename) (plan_keys rs)))) [
        | inl y ↦ ground (
          arith,
          plan_keys-user user_id name rs,
          sym (
                has_pair-insert_key (user_id, name) (r.user_id, r.lessonplan_filename)
                  (plan_keys rs))
              ∙ (rw y at h),
        )
        | inr n ↦ ground (arith, plan_keys-user user_id name rs (rw n at h))
      ]

only_target :
    (user_id target : ℕ) (reports : List AnalysisReport)
    → any (λ r. r.user_id == user_id) (filter (λ r. r.user_id == target) reports) ≡ true
    → user_id ≡ target
only_target user_id target [] h = cc
only_target user_id target (r ∷ rs) h = ground (arith, only_target user_id target rs)

owned-unfit :
    (f : Folder) (v : ℕ) (x name : Text) (p : PlanPath) (target : ℕ)
    → (v == target) ≡ false
    → Fits p target name
    → path_eq (PlanPath.owned f v x) p ≡ true
    → ⊥
owned-unfit f v x name (PlanPath.owned g u y) target n w e = ground (arith, n, e, w.0)
owned-unfit f v x name (PlanPath.shared g y) target n w e = cc

-- The reports of a user never lead to another user's own files.
pub plans-others :
    (paths : Paths) (tables : Tables) (reports : List AnalysisReport) (disk : Disk) (target v : ℕ)
    (f : Folder) (x : Text)
    → (v == target) ≡ false
    → has_plan
        (PlanPath.owned f v x)
        (remove_unreferenced_lessonplans paths tables
          (filter (λ r. r.user_id == target) reports)
          disk).0.plan_files
      ≡ has_plan (PlanPath.owned f v x) disk.plan_files
unfolding remove_unreferenced_lessonplans
plans-others paths tables reports disk target v f x n =
    let snapshot = filter (λ (r : AnalysisReport). r.user_id == target) reports in
    remove_plans-spared paths tables (PlanPath.owned f v x) (plan_keys snapshot) disk
      (λ user_id filename d k e. absurd (
        owned-unfit f v x (paths.base_name filename)
          (resolve_lessonplan_path paths d filename user_id) target n
          (subst
            (λ u.
              Fits (resolve_lessonplan_path paths d filename user_id) u (paths.base_name filename))
            (only_target user_id target reports (plan_keys-user user_id filename snapshot k))
            (resolve-Fits paths d filename user_id))
          e))

pub dirs-others :
    (paths : Paths) (target v : ℕ) (f : Folder) (x : Text) (files : List PlanPath)
    → (v == target) ≡ false
    → has_plan
        (PlanPath.owned f v x)
        (filter (λ p. not (is_owned_by target p && paths.can_rmtree_plan p)) files)
      ≡ has_plan (PlanPath.owned f v x) files
dirs-others paths target v f x [] n = refl
dirs-others paths target v f x (PlanPath.owned g u y ∷ ps) n =
    ground (arith, dirs-others paths target v f x ps n, n)
dirs-others paths target v f x (PlanPath.shared g y ∷ ps) n =
    ground (arith, dirs-others paths target v f x ps n)
