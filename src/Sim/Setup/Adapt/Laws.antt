-- ===== src/Sim/Setup/Adapt/Laws.antt =====
-- What `adapt_many` of app/services/simulation/adaptation.py returns.
use elp_gemini.Base.{
  some_inj, Text, codes, text_eq, ◌≡◌, refl, sym, subst, ◌∙◌, inl, inr, Bool, true, false, Option,
  none, some, List, [], ◌∷◌, map, arith, if◌then◌else◌, Bool-cases, length, any, all, length-map,
}
use elp_gemini.Base.Json.{Json, Fields}
use elp_gemini.Sim.Errors.{Result, ok, err, ok_inj}
use elp_gemini.Sim.Gemini.{LlmResult}
use elp_gemini.Sim.Gemini.Laws.{call_many-length}
use elp_gemini.Sim.Setup.Adapt

-- The labels of the four levels.
abbrev pub is_label : Text → Bool
is_label t =
    any (text_eq t) (codes "높은 도달" ∷ codes "안정적 도달" ∷ codes "부분 도달" ∷ codes "추가 지원 필요" ∷ [])

abbrev pub Labelled : List (Fields × Text) → Type 0
Labelled out = all (λ a. is_label a.1) out ≡ true

pick-is_label :
    (b : Bool) (t : Text) (rest : Option Text) (l : Text)
    → is_label t ≡ true
    → (rest ≡ some l → is_label l ≡ true)
    → (if b then some t else rest) ≡ some l
    → is_label l ≡ true
pick-is_label true t rest l good more h = subst (λ z. is_label z ≡ true) (some_inj h) good
pick-is_label false t rest l good more h = more h

level_label-is_label : (cat l : Text) → Adapt.level_label cat ≡ some l → is_label l ≡ true
unfolding Adapt.level_label
level_label-is_label cat l h =
    pick-is_label (text_eq cat (codes "High")) _ _ l refl
      (pick-is_label (text_eq cat (codes "Average")) _ _ l refl (
        pick-is_label (text_eq cat (codes "Low")) _ _ l refl
          (pick-is_label (text_eq cat (codes "Poor")) _ _ l refl (λ k. cc))))
      h

raw_label-is_label :
    (env : Adapt.AdaptEnv) (o : Option Json) (l : Text)
    → Adapt.raw_label env o ≡ some l
    → is_label l ≡ true
unfolding Adapt.raw_label Adapt.normalized_label
raw_label-is_label env (some (Json.str value)) l h = level_label-is_label _ l h
raw_label-is_label env none l h = cc
raw_label-is_label env (some Json.null) l h = cc
raw_label-is_label env (some (Json.bool b)) l h = cc
raw_label-is_label env (some (Json.num n)) l h = cc
raw_label-is_label env (some (Json.arr i)) l h = cc
raw_label-is_label env (some (Json.obj f)) l h = cc

with_adapted-ok :
    (a : Option Adapt.AdaptationResult) (level : Option Text) (rest : Result (List (Fields × Text)))
    (out : List (Fields × Text))
    → Adapt.with_adapted a level rest ≡ ok out
    → (x : Adapt.AdaptationResult) × (l : Text) × (more : List (Fields × Text)) × (level ≡ some l)
      × (rest ≡ ok more)
      × ((Adapt.adapted_fields x l, l) ∷ more ≡ out)
unfolding Adapt.with_adapted
with_adapted-ok (some x) (some l) (ok more) out h = (x, l, more, refl, refl, ok_inj h)
with_adapted-ok (some x) (some l) (err e) out h = cc
with_adapted-ok (some x) none rest out h = cc
with_adapted-ok none level rest out h = cc

adapt_zip-length :
    (env : Adapt.AdaptEnv) (items : List (Option Text × Fields))
    (results : List (LlmResult Adapt.AdaptationResult)) (out : List (Fields × Text))
    → length results ≡ length items
    → Adapt.adapt_zip env items results ≡ ok out
    → (length out ≡ length items) × Labelled out
unfolding Adapt.adapt_zip
adapt_zip-length env [] results out n h = rw (sym (ok_inj h)) (refl, refl)
adapt_zip-length env (item ∷ items) [] out n h = ground (arith, n)
adapt_zip-length env (item ∷ items) (r ∷ results) out n h =
    let w = with_adapted-ok r.parsed _ (Adapt.adapt_zip env items results) out h in
    let rest = adapt_zip-length env items results w.2 (omega (arith, n)) w.4 in
    rw (sym w.5) (omega (arith, rest.0), rw (raw_label-is_label env _ w.1 w.3) rest.1)

adapted-length :
    (env : Adapt.AdaptEnv) (items : List (Option Text × Fields))
    (r : Result (List (LlmResult Adapt.AdaptationResult))) (out : List (Fields × Text))
    → ((results : List (LlmResult Adapt.AdaptationResult))
        → r ≡ ok results
        → length results ≡ length items)
    → Adapt.adapted env items r ≡ ok out
    → (length out ≡ length items) × Labelled out
unfolding Adapt.adapted
adapted-length env items (err e) out n h = cc
adapted-length env items (ok results) out n h = elim (Bool-cases (any Adapt.unparsed results)) [
  | inl y ↦ ground (arith, y)
  | inr b ↦ adapt_zip-length env items results out (n results refl) (rw b at h)
]

-- Adapted profiles come one for each profile, and each has the label of one of the four levels.
pub adapt_many-length :
    (env : Adapt.AdaptEnv) (items : List (Option Text × Fields)) (out : List (Fields × Text))
    → Adapt.adapt_many env items ≡ ok out
    → (length out ≡ length items) × Labelled out
unfolding Adapt.adapt_many
adapt_many-length env items out h =
    adapted-length env items _ out
      (λ rs e.
        call_many-length env.call_structured (map (Adapt.adapt_call env) items) rs e
        ∙ length-map (Adapt.adapt_call env) items)
      h
