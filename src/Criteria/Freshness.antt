-- ===== src/Criteria/Freshness.antt =====
-- The throttle of app/services/criteria_freshness.py. Times are of the monotonic clock, in any unit;
-- what the reconciliation raises is logged and dropped, so the answer does not depend on it.
use elp_gemini.Base.{
  ℕ, ◌+◌, ◌-◌, ◌≤◌, ◌<◌, inl, inr, Bool, true, false, ◌&&◌, Option, none, some, List, [], ◌∷◌,
  arith, ltb, if◌then◌else◌, Bool-cases,
}

-- `ensure_criteria_cache_fresh`: the time of the last check behind the call, and whether the
-- reconciliation is run.
unfoldable pub ensure_criteria_cache_fresh : Bool → ℕ → ℕ → Option ℕ → Option ℕ × Bool
ensure_criteria_cache_fresh false ttl now last_check = (last_check, false)
ensure_criteria_cache_fresh true ttl now none = (some now, true)
ensure_criteria_cache_fresh true ttl now (some last) =
    if ltb 0 ttl && ltb (now - last) ttl then (some last, false) else (some now, true)

abbrev pub if_run : Bool → ℕ → List ℕ → List ℕ
if_run true now rest = now ∷ rest
if_run false now rest = rest

-- The times of the runs that a sequence of calls makes.
unfoldable pub runs : Bool → ℕ → Option ℕ → List ℕ → List ℕ
unfolding ensure_criteria_cache_fresh
runs enabled ttl last_check [] = []
runs enabled ttl last_check (now ∷ times) =
    if_run (ensure_criteria_cache_fresh enabled ttl now last_check).1 now
      (runs enabled ttl (ensure_criteria_cache_fresh enabled ttl now last_check).0 times)

abbrev pub Spaced : ℕ → Option ℕ → List ℕ → Type 0
Spaced ttl last_check [] = Unit
Spaced ttl none (t ∷ ts) = Spaced ttl (some t) ts
Spaced ttl (some last) (t ∷ ts) = (last + ttl ≤ t) × Spaced ttl (some t) ts

-- With a throttle the runs that any sequence of calls makes are at least its time apart, whatever the
-- order in which the calls read the clock.
pub runs-Spaced :
    (enabled : Bool) (ttl : ℕ) (last_check : Option ℕ) (times : List ℕ)
    → 0 < ttl
    → Spaced ttl last_check (runs enabled ttl last_check times)
unfolding runs
runs-Spaced enabled ttl last_check [] h = tt
runs-Spaced false ttl last_check (now ∷ times) h = runs-Spaced false ttl last_check times h
runs-Spaced true ttl none (now ∷ times) h = runs-Spaced true ttl (some now) times h
runs-Spaced true ttl (some last) (now ∷ times) h =
    elim (Bool-cases (ltb 0 ttl && ltb (now - last) ttl)) [
      | inl y ↦ rw y (runs-Spaced true ttl (some last) times h)
      | inr n ↦ rw n (ground arith, runs-Spaced true ttl (some now) times h)
    ]
