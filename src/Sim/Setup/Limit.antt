-- ===== src/Sim/Setup/Limit.antt =====
-- `effective_max_personas` of app/services/simulation/persona_pool.py. Python's `int` is a parameter.
use elp_gemini.Base.{Text, codes, ℕ, ◌≤◌, min, ◌&&◌, Option, none, some, arith, leb, if◌then◌else◌}
use elp_gemini.AppState.{Rows, get}
use elp_gemini.Sim.Reaction.{RawInt}

abbrev pub min_personas : ℕ
min_personas = 2

abbrev pub default_max_personas : ℕ
default_max_personas = 4

-- `KEY_SIM_MAX_PERSONAS`
abbrev pub key_sim_max_personas : Text
key_sim_max_personas = codes "sim_max_personas"

unfoldable pub default_limit : ℕ → ℕ
default_limit sim_max_personas = min default_max_personas sim_max_personas

unfoldable pub limit_of : ℕ → Option RawInt → ℕ
unfolding default_limit
limit_of sim_max_personas none = default_limit sim_max_personas
limit_of sim_max_personas (some (RawInt.negsuc n)) = default_limit sim_max_personas
limit_of sim_max_personas (some (RawInt.pos n)) =
    if leb min_personas n && leb n sim_max_personas then n else default_limit sim_max_personas

-- `int(raw)` is none where Python raises; no value is a `TypeError`.
unfoldable pub parsed : (Text → Option RawInt) → Option Text → Option RawInt
parsed int none = none
parsed int (some raw) = int raw

unfoldable pub effective_max_personas : (Text → Option RawInt) → ℕ → Rows → ℕ
unfolding limit_of parsed
effective_max_personas int sim_max_personas rows =
    limit_of sim_max_personas (parsed int (get rows key_sim_max_personas))

limit_of-bounds :
    (m : ℕ) (o : Option RawInt)
    → min_personas ≤ m
    → (min_personas ≤ limit_of m o) × (limit_of m o ≤ m)
unfolding limit_of default_limit
limit_of-bounds m none h = (omega arith, omega arith)
limit_of-bounds m (some (RawInt.negsuc n)) h = (omega arith, omega arith)
limit_of-bounds m (some (RawInt.pos n)) h = ground arith

-- Whatever is stored, the limit on students is one that a session can have: at least the minimum,
-- at most the absolute maximum.
pub effective_max_personas-bounds :
    (int : Text → Option RawInt) (m : ℕ) (rows : Rows)
    → min_personas ≤ m
    → (min_personas ≤ effective_max_personas int m rows) × (effective_max_personas int m rows ≤ m)
unfolding effective_max_personas
effective_max_personas-bounds int m rows h =
    limit_of-bounds m (parsed int (get rows key_sim_max_personas)) h
