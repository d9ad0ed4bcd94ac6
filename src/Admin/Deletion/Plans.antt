-- ===== src/Admin/Deletion/Plans.antt =====
-- Which files of lesson plans a deletion leaves.
use elp_gemini.Base.{
  Text, text_eq_iff, ℕ, ◌≡◌, refl, sym, subst, ◌∙◌, ◌⊎◌, inl, inr, Bool, true, false, ◌&&◌, not,
  List, [], ◌∷◌, arith, ◌==◌, if◌then◌else◌, ==_iff, ==_refl, Bool-cases, filter,
}
use elp_gemini.Base.Dicts.{text_eq_refl, text_eq_trans}
use elp_gemini.Admin.Deletion.{
  has_pair, AnalysisReport, Tables, Folder, PlanPath, folder_eq, path_eq, Disk, Paths, has_plan,
  unlink_plan, resolve_lessonplan_path, lessonplan_used_by_simulation, is_free, plan_keys,
  remove_plan, remove_plans, remove_unreferenced_lessonplans,
}

folder_eq_trans : (a b c : Folder) → folder_eq a b ≡ true → folder_eq b c ≡ folder_eq a c
folder_eq_trans Folder.static_uploads Folder.static_uploads c h = refl
folder_eq_trans Folder.static_uploads Folder.lessonplans c h = cc
folder_eq_trans Folder.lessonplans Folder.static_uploads c h = cc
folder_eq_trans Folder.lessonplans Folder.lessonplans c h = refl

path_eq_trans : (a b c : PlanPath) → path_eq a b ≡ true → path_eq b c ≡ false → path_eq a c ≡ false
path_eq_trans (PlanPath.owned f u x) (PlanPath.owned g v y) (PlanPath.owned k w z) h n =
    ground (arith, folder_eq_trans f g k, text_eq_trans x y z)
path_eq_trans (PlanPath.owned f u x) (PlanPath.owned g v y) (PlanPath.shared k z) h n = refl
path_eq_trans (PlanPath.owned f u x) (PlanPath.shared g y) c h n = cc
path_eq_trans (PlanPath.shared f x) (PlanPath.owned g v y) c h n = cc
path_eq_trans (PlanPath.shared f x) (PlanPath.shared g y) (PlanPath.owned k w z) h n = refl
path_eq_trans (PlanPath.shared f x) (PlanPath.shared g y) (PlanPath.shared k z) h n =
    ground (arith, folder_eq_trans f g k, text_eq_trans x y z)

-- A path that is not unlinked stays.
filter-has_plan :
    (p q : PlanPath) (files : List PlanPath)
    → path_eq q p ≡ false
    → has_plan q (filter (λ x. not (path_eq x p)) files) ≡ has_plan q files
filter-has_plan p q [] h = refl
filter-has_plan p q (x ∷ xs) h = elim (Bool-cases (path_eq x p)) [
  | inr n ↦ rw n (ground (arith, filter-has_plan p q xs))
  | inl y ↦ rw y (elim (Bool-cases (path_eq x q)) [
    | inr o ↦ rw o (filter-has_plan p q xs h)
    | inl e ↦ absurd (clash (sym y ∙ path_eq_trans x q p e h))
  ])
]
  where
    clash : true ≡ false → ⊥
    clash e = cc

module _ (paths : Paths) (tables : Tables) (q : PlanPath) where
  remove_plan-spared :
      (user_id : ℕ) (filename : Text) (p : PlanPath) (disk : Disk)
      → (path_eq q p ≡ true → is_free paths tables p user_id filename ≡ false)
      → has_plan q (remove_plan paths tables user_id filename p disk).0.plan_files
        ≡ has_plan q disk.plan_files
  unfolding remove_plan unlink_plan
  remove_plan-spared user_id filename p disk h =
      elim (Bool-cases (is_free paths tables p user_id filename)) [
        | inr n ↦ rw n refl
        | inl y ↦ rw y (elim (Bool-cases (has_plan p disk.plan_files && paths.can_unlink_plan p)) [
          | inr k ↦ rw k refl
          | inl l ↦
              rw l (filter-has_plan p q disk.plan_files (differs (Bool-cases (path_eq q p)) y))
        ])
      ]
    where
      clash : false ≡ true → ⊥
      clash e = cc

      differs :
          (path_eq q p ≡ true) ⊎ (path_eq q p ≡ false)
          → is_free paths tables p user_id filename ≡ true
          → path_eq q p ≡ false
      differs (inr n) y = n
      differs (inl e) y = absurd (clash (sym (h e) ∙ y))

  -- The loop spares a path that each of its rounds spares.
  pub remove_plans-spared :
      (keys : List (ℕ × Text)) (disk : Disk)
      → ((user_id : ℕ) (filename : Text) (d : Disk)
          → has_pair (user_id, filename) keys ≡ true
          → path_eq q (resolve_lessonplan_path paths d filename user_id) ≡ true
          → is_free paths tables (resolve_lessonplan_path paths d filename user_id) user_id filename
            ≡ false)
      → has_plan q (remove_plans paths tables keys disk).0.plan_files ≡ has_plan q disk.plan_files
  unfolding remove_plans
  remove_plans-spared [] disk s = refl
  remove_plans-spared (k ∷ ks) disk s =
      remove_plans-spared ks
        (remove_plan paths tables k.0 k.1 (resolve_lessonplan_path paths disk k.1 k.0) disk).0
        (λ user_id filename d h. s user_id filename d (ground (arith, h)))
      ∙ remove_plan-spared k.0 k.1 (resolve_lessonplan_path paths disk k.1 k.0) disk
          (s k.0 k.1 disk (ground (arith, ==_refl k.0, text_eq_refl k.1)))

-- Where a path is looked for: below the user's directories or beside them, under the file's own name.
abbrev pub Fits : PlanPath → ℕ → Text → Type 0
Fits (PlanPath.owned f u x) user_id name = (u ≡ user_id) × (x ≡ name)
Fits (PlanPath.shared f x) user_id name = x ≡ name

pub resolve-Fits :
    (paths : Paths) (disk : Disk) (filename : Text) (user_id : ℕ)
    → Fits (resolve_lessonplan_path paths disk filename user_id) user_id (paths.base_name filename)
unfolding resolve_lessonplan_path
resolve-Fits paths disk filename user_id =
    at
      (has_plan (PlanPath.owned Folder.static_uploads user_id (paths.base_name filename))
        disk.plan_files)
      (has_plan (PlanPath.owned Folder.lessonplans user_id (paths.base_name filename))
        disk.plan_files)
      (has_plan (PlanPath.shared Folder.static_uploads (paths.base_name filename)) disk.plan_files)
      (has_plan (PlanPath.shared Folder.lessonplans (paths.base_name filename)) disk.plan_files)
  where
    at :
        (a b c d : Bool)
        → Fits
            (if a
              then PlanPath.owned Folder.static_uploads user_id (paths.base_name filename)
              else if b
              then PlanPath.owned Folder.lessonplans user_id (paths.base_name filename)
              else if c
              then PlanPath.shared Folder.static_uploads (paths.base_name filename)
              else if d
              then PlanPath.shared Folder.lessonplans (paths.base_name filename)
              else PlanPath.owned Folder.static_uploads user_id (paths.base_name filename))
            user_id
            (paths.base_name filename)
    at true b c d = (refl, refl)
    at false true c d = (refl, refl)
    at false false true d = refl
    at false false false true = refl
    at false false false false = (refl, refl)

-- A simulation's upload has the file: an upload of the directory's user, or of any user for a path
-- that users share.
abbrev pub used_path : Tables → PlanPath → Bool
used_path tables (PlanPath.owned f u x) = lessonplan_used_by_simulation tables true u x
used_path tables (PlanPath.shared f x) = lessonplan_used_by_simulation tables false 0 x

used-not_free :
    (paths : Paths) (tables : Tables) (q p : PlanPath) (user_id : ℕ) (filename : Text)
    → used_path tables q ≡ true
    → Fits p user_id (paths.base_name filename)
    → path_eq q p ≡ true
    → is_free paths tables p user_id filename ≡ false
unfolding lessonplan_used_by_simulation
used-not_free paths tables (PlanPath.owned f u x) (PlanPath.owned g v y) user_id filename h w e =
    let same_user : u ≡ user_id = ground (arith, e, w.0, ==_iff u v) in
    let same_name : x ≡ paths.base_name filename = ground (arith, e, w.1, text_eq_iff x y) in
    let used : lessonplan_used_by_simulation tables true user_id (paths.base_name filename) ≡ true =
      subst (λ n. lessonplan_used_by_simulation tables true n (paths.base_name filename) ≡ true)
        same_user (subst (λ t. lessonplan_used_by_simulation tables true u t ≡ true) same_name h) in
    let scoped : (v == user_id) ≡ true = (==_iff v user_id).1 (w.0) in
    rw scoped (ground (arith, used))
used-not_free paths tables (PlanPath.owned f u x) (PlanPath.shared g y) user_id filename h w e = cc
used-not_free paths tables (PlanPath.shared f x) (PlanPath.owned g v y) user_id filename h w e = cc
used-not_free paths tables (PlanPath.shared f x) (PlanPath.shared g y) user_id filename h w e =
    let same_name : x ≡ paths.base_name filename = ground (arith, e, w, text_eq_iff x y) in
    let used : lessonplan_used_by_simulation tables false 0 (paths.base_name filename) ≡ true =
      subst (λ t. lessonplan_used_by_simulation tables false 0 t ≡ true) same_name h in
    ground (arith, used)

-- The file of a lesson plan that a simulation still uses stays, whatever reports are deleted.
pub remove_unreferenced_lessonplans-used :
    (paths : Paths) (tables : Tables) (reports : List AnalysisReport) (disk : Disk) (q : PlanPath)
    → used_path tables q ≡ true
    → has_plan q (remove_unreferenced_lessonplans paths tables reports disk).0.plan_files
      ≡ has_plan q disk.plan_files
unfolding remove_unreferenced_lessonplans
remove_unreferenced_lessonplans-used paths tables reports disk q h =
    remove_plans-spared paths tables q (plan_keys reports) disk (λ user_id filename d k e.
      used-not_free paths tables q (resolve_lessonplan_path paths d filename user_id) user_id
        filename h (resolve-Fits paths d filename user_id) e)
