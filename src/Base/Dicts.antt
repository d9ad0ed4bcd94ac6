-- ===== src/Base/Dicts.antt =====
-- Python's dict with keys of type `str`, in the order of insertion, and `in` for lists of texts.
use mathlib.Core.Path.{◌≡◌, refl, sym, ◌∙◌}
use mathlib.Core.Logic.{inl, inr}
use mathlib.Core.Bool.{Bool, true, false, ◌||◌}
use mathlib.Core.Option.{Option, none, some}
use mathlib.Core.List.{List, [], ◌∷◌}
use native.Mathlib.Omega.{arith}
use elp_gemini.Base.Tests.{if◌then◌else◌, Bool-cases}
use elp_gemini.Base.Texts.{Text, text_eq, text_eq_iff}

-- `k in xs`
abbrev pub in_texts : Text → List Text → Bool
in_texts k [] = false
in_texts k (x ∷ xs) = text_eq x k || in_texts k xs

-- `x == k` where `x` may be `None`.
abbrev pub opt_is : Option Text → Text → Bool
opt_is none k = false
opt_is (some x) k = text_eq x k

pub text_eq_trans : (a b c : Text) → text_eq a b ≡ true → text_eq b c ≡ text_eq a c
text_eq_trans a b c h = rw (sym ((text_eq_iff a b).0 h)) refl

pub text_eq_refl : (a : Text) → text_eq a a ≡ true
text_eq_refl a = (text_eq_iff a a).1 refl

pub text_eq_sym : (a b : Text) → text_eq a b ≡ text_eq b a
text_eq_sym [] [] = refl
text_eq_sym [] (y ∷ ys) = refl
text_eq_sym (x ∷ xs) [] = refl
text_eq_sym (x ∷ xs) (y ∷ ys) = ground (arith, text_eq_sym xs ys)

-- `m.get(k)`
unfoldable pub lookup {ℓ} : {V : Type ℓ} → Text → List (Text × V) → Option V
lookup k [] = none
lookup k (e ∷ m) = if text_eq e.0 k then some e.1 else lookup k m

-- `k in m`
unfoldable pub has {ℓ} : {V : Type ℓ} → Text → List (Text × V) → Bool
has k [] = false
has k (e ∷ m) = text_eq e.0 k || has k m

-- `m[k] = v`: a key that is there keeps its place.
unfoldable pub insert {ℓ} : {V : Type ℓ} → Text → V → List (Text × V) → List (Text × V)
insert k v [] = (k, v) ∷ []
insert k v (e ∷ m) = if text_eq e.0 k then (e.0, v) ∷ m else e ∷ insert k v m

-- `m.values()`
unfoldable pub values {ℓ} : {V : Type ℓ} → List (Text × V) → List V
values [] = []
values (e ∷ m) = e.1 ∷ values m

module _ {ℓ} {V : Type ℓ} where
  pub lookup-insert :
      (k j : Text) (v : V) (m : List (Text × V))
      → lookup j (insert k v m) ≡ (if text_eq k j then some v else lookup j m)
  unfolding lookup insert
  lookup-insert k j v [] = refl
  lookup-insert k j v (e ∷ m) = elim (Bool-cases (text_eq e.0 k)) [
    | inl y ↦ rw y (ground (arith, text_eq_trans e.0 k j))
    | inr n ↦ rw n (
        ground (
          arith,
          lookup-insert k j v m,
          text_eq_trans e.0 k j,
          text_eq_sym k j,
          text_eq_trans k j e.0,
          text_eq_sym k e.0,
          text_eq_sym j e.0,
        ))
  ]

  pub has-insert :
      (k j : Text) (v : V) (m : List (Text × V)) → has j (insert k v m) ≡ (text_eq k j || has j m)
  unfolding has insert
  has-insert k j v [] = refl
  has-insert k j v (e ∷ m) = elim (Bool-cases (text_eq e.0 k)) [
    | inl y ↦ rw y (ground (arith, text_eq_trans e.0 k j))
    | inr n ↦ rw n (ground (arith, has-insert k j v m))
  ]

  -- No key stands twice.
  abbrev pub Distinct : List (Text × V) → Type 0
  Distinct [] = Unit
  Distinct (e ∷ m) = (has e.0 m ≡ false) × Distinct m

  pub insert-Distinct :
      (k : Text) (v : V) (m : List (Text × V)) → Distinct m → Distinct (insert k v m)
  unfolding insert has
  insert-Distinct k v [] d = (refl, tt)
  insert-Distinct k v (e ∷ m) d = elim (Bool-cases (text_eq e.0 k)) [
    | inl y ↦ rw y d
    | inr n ↦
        rw n (has-insert k e.0 v m ∙ rw (text_eq_sym k e.0) (rw n d.0), insert-Distinct k v m d.1)
  ]

  pub lookup-has : (k : Text) (m : List (Text × V)) → has k m ≡ false → lookup k m ≡ none
  unfolding lookup has
  lookup-has k [] h = refl
  lookup-has k (e ∷ m) h = ground (arith, lookup-has k m)

-- `m.keys()`
unfoldable pub keys {ℓ} : {V : Type ℓ} → List (Text × V) → List Text
keys [] = []
keys (e ∷ m) = e.0 ∷ keys m
