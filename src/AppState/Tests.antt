-- ===== src/AppState/Tests.antt =====
-- The key-value table at concrete rows.
use elp_gemini.Base.{Text, codes, ◌≡◌, Option, none, some, List, [], ◌∷◌}
use elp_gemini.AppState.{Rows, get, set}
use elp_gemini.AppState.Laws.{get-set}

abbrev rows : Rows
rows = (codes "a", codes "1") ∷ (codes "b", codes "2") ∷ []

get-set_example : get (set rows (codes "b") (some (codes "3"))) (codes "b") ≡ some (codes "3")
get-set_example = get-set rows (codes "b") (codes "b") (some (codes "3"))

abbrev items : List (Text × Option Text)
items = (codes "a", none) ∷ (codes "b", some (codes "4")) ∷ (codes "b", some (codes "5")) ∷ []
