-- ===== src/Sim/Setup/Listing.antt =====
-- `list_sessions` of app/services/simulation/session_service.py, without `has_feedback`: the columns
-- of the feedback are not modelled.
pub mod Laws
use elp_gemini.Base.{
  Text, codes, text_eq, text_eq_iff, ℕ, zero, suc, ◌+◌, ◌-◌, ◌*◌, ◌/◌, ◌%◌, ◌≤◌, ◌<◌, min, max,
  String, ◌≡◌, refl, sym, ap, subst, ◌∙◌, ◌≢◌, ◌↔◌, ◌⊎◌, inl, inr, Bool, true, false, ◌&&◌, ◌||◌,
  not, Option, none, some, List, [], ◌∷◌, ◌++◌, map, append_assoc, append-nil, arith, ltb, leb,
  ◌==◌, if◌then◌else◌, leb→le, le→leb, ltb→lt, ==_iff, ==_refl, Bool-cases, Option-cases,
  &&-eq-true, is_some, opt_eq, length, get_elem?, filter, any, all, find, count, get_last?,
  order_by, any-append, count-append, filter-append, any-filter, any-order_by, length-order_by,
  length-append, length-filter_le, elem, zip, length-map, List-cases, get_elem?-lt,
}
use elp_gemini.Sim.Model.{Session, Status, Phase}
use elp_gemini.Sim.Store.{Db}

pub record SessionSummary : Type 0 where
  pub id : ℕ
  pub created_at : ℕ
  pub persona_count : ℕ
  pub status : Status
  pub upload_id : ℕ
  pub current_phase_idx : ℕ
  pub phase_count : ℕ

abbrev pub in_upload : Option ℕ → Session → Bool
in_upload none s = true
in_upload (some upload_id) s = s.upload_id == upload_id

-- Newest first: by `created_at`, then by `id`, both descending.
unfoldable pub newer : Session → Session → Bool
newer s t = ltb t.created_at s.created_at || s.created_at == t.created_at && leb t.id s.id

unfoldable pub insert_newest : Session → List Session → List Session
insert_newest s [] = s ∷ []
insert_newest s (t ∷ ts) =
    let rest = insert_newest s ts in if newer s t then s ∷ t ∷ ts else t ∷ rest

unfoldable pub newest_first : List Session → List Session
unfolding insert_newest
newest_first [] = []
newest_first (s ∷ ss) = insert_newest s (newest_first ss)

unfoldable pub summary : Db → Session → SessionSummary
summary db s = record {
  id = s.id;
  created_at = s.created_at;
  persona_count = s.persona_count;
  status = s.status;
  upload_id = s.upload_id;
  current_phase_idx = s.current_phase_idx;
  phase_count = count (λ p. p.session_id == s.id) db.phases;
}

unfoldable pub list_sessions : Db → ℕ → Option ℕ → List SessionSummary
unfolding summary newest_first
list_sessions db user_id upload_id =
    map (summary db)
      (newest_first (filter (λ s. s.user_id == user_id && in_upload upload_id s) db.sessions))
