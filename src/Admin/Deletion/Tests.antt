-- ===== src/Admin/Deletion/Tests.antt =====
-- Deletions at concrete tables.
use elp_gemini.Base.{codes, ℕ, ◌≡◌, refl, true, false, none, [], ◌∷◌}
use elp_gemini.Base.Dicts.{in_texts}
use elp_gemini.Auth.Users.{User}
use elp_gemini.Admin.Deletion.{
  AnalysisReport, ChatSession, Tables, Folder, PlanPath, Disk, Paths, has_plan,
  remove_report_md_files, remove_unreferenced_lessonplans, lessonplan_used_by_simulation,
}
use elp_gemini.Admin.Deletion.Files.{remove_report_md_files-in}
use elp_gemini.Admin.Deletion.Plans.{remove_unreferenced_lessonplans-used}
use elp_gemini.Admin.Deletion.Rows.{World, delete_user}
use elp_gemini.Admin.Deletion.Rows.Users.{Untouched, delete_user-Untouched}

abbrev account : ℕ → User
account i = record {
  id = i;
  username = [];
  nickname = [];
  hashed_password = none;
  is_admin = false;
  failed_login_count = 0;
  locked_until = none;
  last_failed_login_at = none;
  session_version = 0;
  created_at = 0;
  updated_at = 0;
}

abbrev plan_report : ℕ → ℕ → AnalysisReport
plan_report i u = record {
  id = i;
  user_id = u;
  lessonplan_filename = codes "p";
  report_path = codes "r";
}

abbrev chat : ℕ → ℕ → ChatSession
chat i u = record { id = i; user_id = u }

abbrev tables : Tables
tables = record {
  users = account 1 ∷ account 2 ∷ [];
  reports = plan_report 1 1 ∷ plan_report 2 2 ∷ [];
  chats = chat 1 1 ∷ chat 2 2 ∷ [];
  runs = record { id = 1; user_id = 1; upload_id = 7; feedback_report_path = none } ∷ [];
  uploads =
      record { id = 7; user_id = 1; filename = codes "p"; original_filename = none; created_at = 0 }
      ∷ [];
}

abbrev disk : Disk
disk = record {
  report_files = codes "r" ∷ codes "app/static/reports/2/a" ∷ codes "app/static/reports/1/b" ∷ [];
  plan_files =
      PlanPath.owned Folder.static_uploads 1 (codes "p")
      ∷ PlanPath.owned Folder.lessonplans 2 (codes "p")
      ∷ [];
}

abbrev world : World
world = record { tables = tables; disk = disk }

abbrev paths : Paths
paths = record {
  can_unlink_report = λ p. true;
  can_unlink_plan = λ p. true;
  can_rmtree_report = λ p. true;
  can_rmtree_plan = λ p. true;
  in_reports_dir = λ p. true;
  base_name = λ t. t;
}

remove_report_md_files-in_example :
    in_texts
      (codes "r")
      (remove_report_md_files paths tables (plan_report 3 1 ∷ []) disk).0.report_files
    ≡ true
remove_report_md_files-in_example =
    remove_report_md_files-in paths tables (plan_report 3 1 ∷ []) disk (codes "r") refl

remove_unreferenced_lessonplans-used_example :
    has_plan
      (PlanPath.owned Folder.static_uploads 1 (codes "p"))
      (remove_unreferenced_lessonplans paths
        (record tables { reports = [] })
        (plan_report 1 1 ∷ [])
        disk).0.plan_files
    ≡ true
unfolding lessonplan_used_by_simulation
remove_unreferenced_lessonplans-used_example =
    remove_unreferenced_lessonplans-used paths (record tables { reports = [] })
      (plan_report 1 1 ∷ []) disk (PlanPath.owned Folder.static_uploads 1 (codes "p")) refl

delete_user-Untouched_example : Untouched 1 2 world (delete_user paths 1 9 world).0
delete_user-Untouched_example = delete_user-Untouched paths 1 9 2 world refl
