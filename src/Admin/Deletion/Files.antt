-- ===== src/Admin/Deletion/Files.antt =====
-- Which files a deletion leaves.
use elp_gemini.Base.{
  Text, text_eq, text_eq_iff, ◌≡◌, refl, sym, ap, ◌∙◌, ◌⊎◌, inl, inr, Bool, true, false, ◌&&◌, ◌||◌,
  not, List, [], ◌∷◌, map, arith, if◌then◌else◌, Bool-cases, filter, any,
}
use elp_gemini.Base.Texts.{truthy}
use elp_gemini.Base.Dicts.{in_texts, text_eq_refl, text_eq_sym, text_eq_trans}
use elp_gemini.Admin.Deletion.{
  AnalysisReport, Tables, Disk, Paths, unlink_report, remove_paths, remove_report_md_files,
  distinct_texts,
}

in_texts-filter :
    (p q : Text) (files : List Text)
    → in_texts q (filter (λ x. not (text_eq x p)) files) ≡ (in_texts q files && not (text_eq p q))
in_texts-filter p q [] = refl
in_texts-filter p q (x ∷ xs) = elim (Bool-cases (text_eq x p)) [
  | inl y ↦ rw y (ground (arith, in_texts-filter p q xs, text_eq_trans x p q))
  | inr n ↦ rw n (
      ground (
        arith,
        in_texts-filter p q xs,
        text_eq_trans p q x,
        text_eq_sym p q,
        text_eq_sym p x,
        text_eq_sym q x,
        text_eq_trans x q p,
      ))
]

-- What stays of a report's file when its path is unlinked, if it can be.
pub unlink_report-files :
    (paths : Paths) (p q : Text) (disk : Disk)
    → in_texts q (unlink_report paths p disk).0.report_files
      ≡ (in_texts q disk.report_files && not (text_eq p q && paths.can_unlink_report p))
unfolding unlink_report
unlink_report-files paths p q disk =
    elim (Bool-cases (in_texts p disk.report_files && paths.can_unlink_report p)) [
      | inl y ↦ rw y (ground (arith, in_texts-filter p q disk.report_files, y))
      | inr n ↦ rw n (elim (Bool-cases (text_eq p q)) [
        | inl e ↦ same ((text_eq_iff p q).0 e) n
        | inr o ↦ rw o (ground arith)
      ])
    ]
  where
    same :
        p ≡ q
        → (in_texts p disk.report_files && paths.can_unlink_report p) ≡ false
        → in_texts q disk.report_files
          ≡ (in_texts q disk.report_files && not (text_eq p q && paths.can_unlink_report p))
    same e n = rw (sym e) (rw (text_eq_refl p) (ground (arith, n)))

abbrev pub referenced : Tables → Text → Bool
referenced tables q = any (λ (r : AnalysisReport). text_eq r.report_path q) tables.reports

pub remove_paths-files :
    (paths : Paths) (tables : Tables) (ps : List Text) (q : Text) (disk : Disk)
    → in_texts q (remove_paths paths tables ps disk).0.report_files ≡ (
        in_texts q disk.report_files
        && not (in_texts q ps && not (referenced tables q) && paths.can_unlink_report q))
unfolding remove_paths
remove_paths-files paths tables [] q disk = ground arith
remove_paths-files paths tables (p ∷ ps) q disk =
    remove_paths-files paths tables ps q
      (if referenced tables p then (disk, 0) else unlink_report paths p disk).0
    ∙ at (Bool-cases (referenced tables p)) (Bool-cases (text_eq p q))
  where
    at :
        (referenced tables p ≡ true) ⊎ (referenced tables p ≡ false)
        → (text_eq p q ≡ true) ⊎ (text_eq p q ≡ false)
        → (in_texts q
              (if referenced tables p then (disk, 0) else unlink_report paths p disk).0.report_files
            && not (in_texts q ps && not (referenced tables q) && paths.can_unlink_report q))
          ≡ (in_texts q disk.report_files
              && not (
                  (text_eq p q || in_texts q ps)
                  && not (referenced tables q)
                  && paths.can_unlink_report q))
    at (inl y) (inl e) = rw y (ground (arith, y, ap (referenced tables) ((text_eq_iff p q).0 e)))
    at (inl y) (inr o) = rw (y, o) refl
    at (inr n) (inl e) = rw n (
        ground (
          arith,
          n,
          e,
          unlink_report-files paths p q disk,
          ap (referenced tables) ((text_eq_iff p q).0 e),
          ap paths.can_unlink_report ((text_eq_iff p q).0 e),
        ))
    at (inr n) (inr o) = rw (n, o) (ground (arith, o, unlink_report-files paths p q disk))

pub in_texts-distinct : (q : Text) (xs : List Text) → in_texts q (distinct_texts xs) ≡ in_texts q xs
unfolding distinct_texts
in_texts-distinct q [] = refl
in_texts-distinct q (x ∷ xs) = elim (Bool-cases (in_texts x (distinct_texts xs))) [
  | inr n ↦ rw n (ground (arith, in_texts-distinct q xs))
  | inl y ↦ rw y (elim (Bool-cases (text_eq x q)) [
    | inl e ↦ same ((text_eq_iff x q).0 e) y (in_texts-distinct q xs)
    | inr o ↦ rw o (in_texts-distinct q xs)
  ])
]
  where
    same :
        x ≡ q
        → in_texts x (distinct_texts xs) ≡ true
        → in_texts q (distinct_texts xs) ≡ in_texts q xs
        → in_texts q (distinct_texts xs) ≡ (text_eq x q || in_texts q xs)
    same e y ih = ground (arith, ap (λ t. in_texts t (distinct_texts xs)) e, ih, y)

in_texts-paths :
    (q : Text) (reports : List AnalysisReport)
    → truthy q ≡ true
    → in_texts q (map (λ r. r.report_path) (filter (λ r. truthy r.report_path) reports))
      ≡ any (λ r. text_eq r.report_path q) reports
in_texts-paths q [] h = refl
in_texts-paths q (r ∷ rs) h = elim (Bool-cases (truthy r.report_path)) [
  | inl y ↦ rw y (ground (arith, in_texts-paths q rs h))
  | inr n ↦ rw n (
      ground (
        arith,
        in_texts-paths q rs h,
        n,
        h,
        λ (e : text_eq r.report_path q ≡ true). ap truthy ((text_eq_iff r.report_path q).0 e),
      ))
]

-- A report's file is removed exactly when a deleted report has its path, no report that is left has
-- it, and the file system lets it go.
pub remove_report_md_files-in :
    (paths : Paths) (tables : Tables) (reports : List AnalysisReport) (disk : Disk) (q : Text)
    → truthy q ≡ true
    → in_texts q (remove_report_md_files paths tables reports disk).0.report_files ≡ (
        in_texts q disk.report_files
        && not (
            any (λ r. text_eq r.report_path q) reports
            && not (any (λ r. text_eq r.report_path q) tables.reports)
            && paths.can_unlink_report q))
unfolding remove_report_md_files
remove_report_md_files-in paths tables reports disk q h =
    remove_paths-files paths tables
      (distinct_texts (map (λ r. r.report_path) (filter (λ r. truthy r.report_path) reports))) q
      disk
    ∙ rw
        (in_texts-distinct q
          (map (λ r. r.report_path) (filter (λ r. truthy r.report_path) reports)))
        (rw (in_texts-paths q reports h) refl)
