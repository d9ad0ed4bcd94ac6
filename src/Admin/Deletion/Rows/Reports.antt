-- ===== src/Admin/Deletion/Rows/Reports.antt =====
-- The report files that the deletion of a user leaves.
use elp_gemini.Base.{
  Text, codes, text_eq, text_eq_iff, ℕ, ◌≡◌, refl, sym, ap, ◌∙◌, inl, inr, Bool, true, false, ◌&&◌,
  ◌||◌, not, Option, none, some, List, [], ◌∷◌, ◌++◌, map, arith, ◌==◌, if◌then◌else◌, Bool-cases,
  filter, any, ==_iff,
}
use elp_gemini.Base.Texts.{truthy, starts_with, show, show_inj, show-lacks, lacks}
use elp_gemini.Base.Dicts.{in_texts, opt_is}
use elp_gemini.Admin.Deletion.{
  plan_keys, resolve_lessonplan_path, AnalysisReport, SimulationRun, Tables, PlanPath, Disk, Paths,
  distinct_texts, unlink_report, remove_report_md_files, unlink_files, unlink_plan, remove_plan,
  remove_plans, remove_unreferenced_lessonplans,
}
use elp_gemini.Admin.Deletion.Files.{
  remove_paths-files, unlink_report-files, in_texts-distinct, referenced,
}
use elp_gemini.Admin.Deletion.Rows.{
  run_paths, path_of, reports_dir, remove_user_dirs, World, purge_user, delete_rows_of,
}

-- Two numbers before a slash, at the start of one text.
same_number :
    (s t p : Text)
    → lacks 47 s ≡ true
    → lacks 47 t ≡ true
    → starts_with p (s ++ codes "/") ≡ true
    → starts_with p (t ++ codes "/") ≡ true
    → s ≡ t
same_number [] [] p ls lt hs ht = refl
same_number [] (y ∷ ys) [] ls lt hs ht = cc
same_number [] (y ∷ ys) (c ∷ p) ls lt hs ht = absurd (ground arith)
same_number (x ∷ xs) [] [] ls lt hs ht = cc
same_number (x ∷ xs) [] (c ∷ p) ls lt hs ht = absurd (ground arith)
same_number (x ∷ xs) (y ∷ ys) [] ls lt hs ht = cc
same_number (x ∷ xs) (y ∷ ys) (c ∷ p) ls lt hs ht = ground (arith, same_number xs ys p)

behind :
    (a s t p : Text)
    → lacks 47 s ≡ true
    → lacks 47 t ≡ true
    → starts_with p (a ++ s ++ codes "/") ≡ true
    → starts_with p (a ++ t ++ codes "/") ≡ true
    → s ≡ t
behind [] s t p ls lt hs ht = same_number s t p ls lt hs ht
behind (x ∷ a) s t [] ls lt hs ht = cc
behind (x ∷ a) s t (c ∷ p) ls lt hs ht = behind a s t p ls lt (ground arith) (ground arith)

-- The directories of two users have no file in common.
pub dirs-apart :
    (v target : ℕ) (p : Text)
    → (v == target) ≡ false
    → starts_with p (reports_dir v) ≡ true
    → starts_with p (reports_dir target) ≡ false
unfolding reports_dir
dirs-apart v target p n h = elim (Bool-cases (starts_with p (reports_dir target))) [
  | inr o ↦ o
  | inl y ↦
      let same = show_inj v target (
        behind (codes "app/static/reports/") (show v) (show target) p (show-lacks v)
          (show-lacks target) h y) in
      absurd (clash ((==_iff v target).1 same))
]
  where
    clash : (v == target) ≡ true → ⊥
    clash y = cc (sym n ∙ y)

-- No text without characters is among those that have some.
truthy-not : (x : Text) → truthy x ≡ true → text_eq x [] ≡ false
truthy-not [] h = cc
truthy-not (c ∷ x) h = refl

report_paths-other :
    (p : Text) (reports : List AnalysisReport)
    → any (λ r. text_eq r.report_path p) reports ≡ false
    → in_texts p (map (λ r. r.report_path) (filter (λ r. truthy r.report_path) reports)) ≡ false
report_paths-other p [] h = refl
report_paths-other p (r ∷ rs) h = ground (arith, report_paths-other p rs)

-- A file that no deleted report names, or that a report still names, stays.
reports-kept :
    (paths : Paths) (tables : Tables) (reports : List AnalysisReport) (disk : Disk) (p : Text)
    → (any (λ r. text_eq r.report_path p) reports && not (referenced tables p)) ≡ false
    → in_texts p (remove_report_md_files paths tables reports disk).0.report_files
      ≡ in_texts p disk.report_files
unfolding remove_report_md_files
reports-kept paths tables reports disk p h =
    let named =
      map (λ (r : AnalysisReport). r.report_path)
        (filter (λ (r : AnalysisReport). truthy r.report_path) reports) in
    remove_paths-files paths tables (distinct_texts named) p disk
    ∙ elim (Bool-cases (referenced tables p)) [
      | inl y ↦ ground (arith, y)
      | inr o ↦ ground (arith, o, in_texts-distinct p named, report_paths-other p reports)
    ]

-- A user's simulation names the file.
abbrev pub run_names : ℕ → Text → SimulationRun → Bool
run_names target p s = s.user_id == target && opt_is s.feedback_report_path p

path_of-names :
    (b : Bool) (o : Option Text) (rest : List Text) (p : Text) (others : Bool)
    → in_texts p rest ≡ others
    → in_texts p (path_of b o rest) ≡ (b && opt_is o p || others)
unfolding path_of
path_of-names true (some q) rest p others h = ap (λ x. text_eq q p || x) h
path_of-names true none rest p others h = h
path_of-names false o rest p others h = h

run_paths-names :
    (target : ℕ) (p : Text) (runs : List SimulationRun)
    → in_texts p (run_paths target runs) ≡ any (run_names target p) runs
unfolding run_paths
run_paths-names target p [] = refl
run_paths-names target p (s ∷ ss) =
    path_of-names (s.user_id == target) s.feedback_report_path (run_paths target ss) p
      (any (run_names target p) ss) (run_paths-names target p ss)

unlink_files-kept :
    (paths : Paths) (ps : List Text) (p : Text) (disk : Disk)
    → in_texts p ps ≡ false
    → in_texts p (unlink_files paths ps disk).0.report_files ≡ in_texts p disk.report_files
unfolding unlink_files
unlink_files-kept paths [] p disk h = refl
unlink_files-kept paths (q ∷ qs) p disk h =
    unlink_files-kept paths qs p
      (if paths.in_reports_dir q then unlink_report paths q disk else (disk, 0)).0 (ground arith)
    ∙ ground (arith, unlink_report-files paths q p disk)

unlink_plan-report_files :
    (paths : Paths) (p : PlanPath) (disk : Disk)
    → (unlink_plan paths p disk).0.report_files ≡ disk.report_files
unfolding unlink_plan
unlink_plan-report_files paths p disk = ground arith

remove_plans-report_files :
    (paths : Paths) (tables : Tables) (ks : List (ℕ × Text)) (disk : Disk)
    → (remove_plans paths tables ks disk).0.report_files ≡ disk.report_files
unfolding remove_plans remove_plan
remove_plans-report_files paths tables [] disk = refl
remove_plans-report_files paths tables (k ∷ ks) disk =
    let path = resolve_lessonplan_path paths disk k.1 k.0 in
    remove_plans-report_files paths tables ks (remove_plan paths tables k.0 k.1 path disk).0
    ∙ ground (arith, unlink_plan-report_files paths path disk)

dir-kept :
    (paths : Paths) (p d : Text) (files : List Text)
    → starts_with p d ≡ false
    → in_texts p (filter (λ q. not (starts_with q d && paths.can_rmtree_report q)) files)
      ≡ in_texts p files
dir-kept paths p d [] h = refl
dir-kept paths p d (x ∷ xs) h = elim (Bool-cases (text_eq x p)) [
  | inl y ↦ let gone = ap (λ t. starts_with t d) ((text_eq_iff x p).0 y) ∙ h in rw gone (rw y refl)
  | inr o ↦ ground (arith, o, dir-kept paths p d xs h)
]

-- The report files behind a deletion. A file stays when it is not in the user's own directory, no
-- simulation of the user names it, and no report of the user names it, or a report that is left does.
pub purge_user-reports :
    (paths : Paths) (target : ℕ) (world : World) (p : Text)
    → starts_with p (reports_dir target) ≡ false
    → any (run_names target p) world.tables.runs ≡ false
    → (any (λ r. text_eq r.report_path p) (filter (λ r. r.user_id == target) world.tables.reports)
        && not (
            any
              (λ r. text_eq r.report_path p)
              (filter (λ r. not (r.user_id == target)) world.tables.reports)))
      ≡ false
    → in_texts p (purge_user paths target world).0.disk.report_files
      ≡ in_texts p world.disk.report_files
unfolding purge_user delete_rows_of remove_user_dirs remove_unreferenced_lessonplans
purge_user-reports paths target world p d r h =
    let tables = delete_rows_of target world.tables in
    let snapshot = filter (λ (r : AnalysisReport). r.user_id == target) world.tables.reports in
    let md = (remove_report_md_files paths tables snapshot world.disk).0 in
    let names = distinct_texts (run_paths target world.tables.runs) in
    let sim = (unlink_files paths names md).0 in
    dir-kept paths p (reports_dir target)
      (remove_plans paths tables (plan_keys snapshot) sim).0.report_files d
    ∙ ap (in_texts p) (remove_plans-report_files paths tables (plan_keys snapshot) sim)
    ∙ unlink_files-kept paths names p md (
        in_texts-distinct p (run_paths target world.tables.runs)
        ∙ run_paths-names target p world.tables.runs
        ∙ r)
    ∙ reports-kept paths tables snapshot world.disk p h
