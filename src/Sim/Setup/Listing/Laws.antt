-- ===== src/Sim/Setup/Listing/Laws.antt =====
-- The order of `list_sessions` of app/services/simulation/session_service.py.
use elp_gemini.Base.{
  ℕ, ◌≡◌, refl, ap, ◌∙◌, Bool, true, false, ◌&&◌, ◌||◌, Option, List, [], ◌∷◌, map, arith, ltb, leb,
  ◌==◌, filter,
}
use elp_gemini.Sim.Model.{Session}
use elp_gemini.Sim.Store.{Db}
use elp_gemini.Sim.Setup.Listing.{
  SessionSummary, newer, insert_newest, newest_first, summary, list_sessions, in_upload,
}

abbrev pub later_than : SessionSummary → SessionSummary → Bool
later_than s t = ltb t.created_at s.created_at || s.created_at == t.created_at && leb t.id s.id

abbrev pub is_newest_first : List SessionSummary → Bool
is_newest_first [] = true
is_newest_first (s ∷ []) = true
is_newest_first (s ∷ t ∷ ts) = later_than s t && is_newest_first (t ∷ ts)

abbrev descending : List Session → Bool
descending [] = true
descending (s ∷ []) = true
descending (s ∷ t ∷ ts) = newer s t && descending (t ∷ ts)

newer-total : (s t : Session) → newer s t ≡ false → newer t s ≡ true
unfolding newer
newer-total s t h = ground arith

insert-descending :
    (s : Session) (ts : List Session)
    → descending ts ≡ true
    → descending (insert_newest s ts) ≡ true
unfolding insert_newest
insert-descending s [] h = refl
insert-descending s (t ∷ []) h = ground (arith, newer-total s t)
insert-descending s (t ∷ u ∷ us) h =
    ground (arith, newer-total s t, newer-total s u, insert-descending s (u ∷ us))

newest_first-descending : (ss : List Session) → descending (newest_first ss) ≡ true
unfolding newest_first
newest_first-descending [] = refl
newest_first-descending (s ∷ ss) =
    insert-descending s (newest_first ss) (newest_first-descending ss)

summary-order :
    (db : Db) (ss : List Session) → is_newest_first (map (summary db) ss) ≡ descending ss
unfolding summary newer
summary-order db [] = refl
summary-order db (s ∷ []) = refl
summary-order db (s ∷ t ∷ ts) = ap (λ b. newer s t && b) (summary-order db (t ∷ ts))

-- The list of a user's sessions is newest first, by the time of creation and then by the id.
pub list_sessions-newest_first :
    (db : Db) (user_id : ℕ) (upload_id : Option ℕ)
    → is_newest_first (list_sessions db user_id upload_id) ≡ true
unfolding list_sessions
list_sessions-newest_first db user_id upload_id =
    let mine = filter (λ s. s.user_id == user_id && in_upload upload_id s) db.sessions in
    summary-order db (newest_first mine) ∙ newest_first-descending mine
