-- ===== src/Base/Texts.antt =====
-- Python's `str` as its list of code points, with the tests that the program makes on texts.
use Prim.Native.Nat.{◌≤◌, ◌-◌, ◌*◌, ◌<◌, ℕ, zero, suc, ◌+◌, ◌/◌, ◌%◌}
use Prim.Native.Char.{code}
use Prim.Native.String.{String}
use mathlib.Core.Path.{ap, ◌∙◌, sym, ◌≡◌, refl}
use mathlib.Core.Logic.{inr, inl, ◌↔◌}
use mathlib.Core.Bool.{not, Bool, true, false, ◌&&◌, ◌||◌}
use mathlib.Core.List.{List, [], ◌∷◌, ◌++◌}
use native.Mathlib.Omega.{arith}
use elp_gemini.Base.Tests.{Bool-cases, ◌==◌, ltb, if◌then◌else◌}

abbrev pub Text : Type 0
Text = List ℕ

-- The code points of a literal.
abbrev pub codes : String → Text
codes String.[] = []
codes (String.◌∷◌ c s) = code c ∷ codes s

abbrev pub text_eq : Text → Text → Bool
text_eq [] [] = true
text_eq [] (y ∷ ys) = false
text_eq (x ∷ xs) [] = false
text_eq (x ∷ xs) (y ∷ ys) = x == y && text_eq xs ys

pub text_eq_iff : (a b : Text) → (text_eq a b ≡ true) ↔ (a ≡ b)
text_eq_iff [] [] = ((λ _. refl), (λ _. refl))
text_eq_iff [] (y ∷ ys) = ((λ h. cc), (λ h. cc))
text_eq_iff (x ∷ xs) [] = ((λ h. cc), (λ h. cc))
text_eq_iff (x ∷ xs) (y ∷ ys) =
    ((λ h. ground (arith, (text_eq_iff xs ys).0)), (λ h. ground (arith, (text_eq_iff xs ys).1)))

-- `s.startswith(p)`
abbrev pub starts_with : Text → Text → Bool
starts_with s [] = true
starts_with [] (y ∷ ys) = false
starts_with (x ∷ xs) (y ∷ ys) = x == y && starts_with xs ys

-- `p in s`
abbrev pub contains : Text → Text → Bool
contains [] p = starts_with [] p
contains (x ∷ xs) p = starts_with (x ∷ xs) p || contains xs p

-- `s[:-1] if s.endswith(c) else s`, for one character `c`.
abbrev pub drop_last_if : ℕ → Text → Text
drop_last_if c [] = []
drop_last_if c (x ∷ []) = if x == c then [] else x ∷ []
drop_last_if c (x ∷ y ∷ ys) = x ∷ drop_last_if c (y ∷ ys)

-- `if s:` of a text
abbrev pub truthy : Text → Bool
truthy [] = false
truthy (x ∷ xs) = true

-- `", ".join(xs)` and the like.
abbrev pub join : Text → List Text → Text
join sep [] = []
join sep (x ∷ []) = x
join sep (x ∷ y ∷ ys) = x ++ sep ++ join sep (y ∷ ys)

show_fuel : ℕ → ℕ → Text → Text
show_fuel zero n acc = acc
show_fuel (suc f) n acc =
    let digit = 48 + n % 10 in
    let rest = show_fuel f (n / 10) (digit ∷ acc) in if ltb n 10 then digit ∷ acc else rest

-- `str(n)`: one digit a round, so n + 1 rounds are more than enough.
unfoldable pub show : ℕ → Text
unfolding show_fuel
show n = show_fuel (suc n) n []

-- The number that digits write behind those of `acc`.
digits : ℕ → Text → ℕ
digits acc [] = acc
digits acc (c ∷ cs) = digits (acc * 10 + (c - 48)) cs

one_digit : (n : ℕ) → ltb n 10 ≡ true → 0 * 10 + (48 + n % 10 - 48) ≡ n
one_digit n h = ground arith

many : (n : ℕ) → ltb n 10 ≡ false → 10 ≤ n
many n h = ground arith

last_digit : (n : ℕ) → n / 10 * 10 + (48 + n % 10 - 48) ≡ n
last_digit n = omega arith

digits-show_fuel : (f n : ℕ) (acc : Text) → n < f → digits 0 (show_fuel f n acc) ≡ digits n acc
unfolding show_fuel digits
digits-show_fuel zero n acc h = omega (arith, h)
digits-show_fuel (suc f) n acc h = elim (Bool-cases (ltb n 10)) [
  | inl y ↦ rw y (ap (λ k. digits k acc) (one_digit n y))
  | inr o ↦ rw o (
      digits-show_fuel f (n / 10) ((48 + n % 10) ∷ acc) (omega (arith, h, many n o))
      ∙ ap (λ k. digits k acc) (last_digit n))
]

-- A number is what its digits write.
digits-show : (n : ℕ) → digits 0 (show n) ≡ n
unfolding show digits
digits-show n = digits-show_fuel (suc n) n [] (omega arith)

pub show_inj : (m n : ℕ) → show m ≡ show n → m ≡ n
show_inj m n h = sym (digits-show m) ∙ ap (digits 0) h ∙ digits-show n

-- Without the character `c`.
abbrev pub lacks : ℕ → Text → Bool
lacks c [] = true
lacks c (d ∷ ds) = not (d == c) && lacks c ds

show_fuel-lacks : (f n : ℕ) (acc : Text) → lacks 47 acc ≡ true → lacks 47 (show_fuel f n acc) ≡ true
unfolding show_fuel
show_fuel-lacks zero n acc h = h
show_fuel-lacks (suc f) n acc h =
    let more : lacks 47 ((48 + n % 10) ∷ acc) ≡ true = ground (arith, h) in
    elim (Bool-cases (ltb n 10)) [
      | inl y ↦ rw y more
      | inr o ↦ rw o (show_fuel-lacks f (n / 10) ((48 + n % 10) ∷ acc) more)
    ]

-- A number is written without a slash.
pub show-lacks : (n : ℕ) → lacks 47 (show n) ≡ true
unfolding show
show-lacks n = show_fuel-lacks (suc n) n [] refl
