-- ===== src/Auth/Policy.antt =====
-- What an id and a password may be: app/schemas/users.py. A value that is no text does not occur.
use elp_gemini.Base.{
  Text, codes, text_eq, ℕ, ◌≤◌, ◌≡◌, refl, Bool, true, false, ◌&&◌, ◌||◌, not, Option, none, some,
  List, [], ◌∷◌, arith, ltb, leb, if◌then◌else◌, length, any, all,
}

-- The `ValueError`s of the schemas and of the service, by what their messages say; `unexpected` is
-- any other exception.
pub data Refusal : Type 0 where
  id_format id_reserved id_taken : Refusal
  password_short password_letter password_digit : Refusal
  user_not_found user_is_admin no_login wrong_password changed_elsewhere : Refusal
  unexpected : Refusal

pub data Reply {ℓ} (B : Type ℓ) : Type ℓ where
  refused : Refusal → Reply B
  returned : B → Reply B

-- Python's `str` methods and SQL's `lower`.
pub record StrTools : Type 0 where
  pub strip : Text → Text
  pub lower : Text → Text
  pub sql_lower : Text → Text
  pub isalpha : ℕ → Bool
  pub isdigit : ℕ → Bool

-- `[a-z0-9]`
abbrev pub is_id_char : ℕ → Bool
is_id_char c = leb 97 c && leb c 122 || leb 48 c && leb c 57

-- `USER_ID_PATTERN.fullmatch`
unfoldable pub matches_id : Text → Bool
matches_id s = all is_id_char s && leb 1 (length s) && leb (length s) 9

abbrev pub reserved_user_ids : List Text
reserved_user_ids =
    codes "admin"
    ∷ codes "administrator"
    ∷ codes "root"
    ∷ codes "system"
    ∷ codes "teacher"
    ∷ codes "preservice_teacher"
    ∷ []

-- `normalized in RESERVED_USER_IDS`
unfoldable pub is_reserved : Text → Bool
is_reserved n = any (text_eq n) reserved_user_ids

module _ (tools : StrTools) where
  unfoldable pub normalize_user_id : Option Text → Text
  normalize_user_id none = []
  normalize_user_id (some value) = tools.lower (tools.strip value)

  unfoldable pub validate_user_id : Option Text → Reply Text
  unfolding normalize_user_id
  validate_user_id value =
      let normalized = normalize_user_id value in
      if not (matches_id normalized)
      then refused id_format
      else if is_reserved normalized
      then refused id_reserved
      else returned normalized

  unfoldable pub validate_password_strength : Text → Reply Text
  validate_password_strength password =
      if ltb (length password) 8
      then refused password_short
      else if not (any tools.isalpha password)
      then refused password_letter
      else if not (any tools.isdigit password)
      then refused password_digit
      else returned password

  -- `strip` and `lower` leave a text of ASCII lower-case letters and digits alone, and so does
  -- SQL's `lower`.
  pub record KeepIds : Type 0 where
    pub strip : (s : Text) → all is_id_char s ≡ true → tools.strip s ≡ s
    pub lower : (s : Text) → all is_id_char s ≡ true → tools.lower s ≡ s
    pub sql_lower : (s : Text) → all is_id_char s ≡ true → tools.sql_lower s ≡ s

  pub validate_user_id-normalized :
      (value : Option Text) (n : Text)
      → validate_user_id value ≡ returned n
      → (normalize_user_id value ≡ n) × (matches_id n ≡ true) × (is_reserved n ≡ false)
  unfolding validate_user_id
  validate_user_id-normalized value n h = ground arith

  pub matches_id-chars :
      (n : Text) → matches_id n ≡ true → (all is_id_char n ≡ true) × (1 ≤ length n)
  unfolding matches_id
  matches_id-chars n h = ground arith

  pub normalize_user_id_again :
      KeepIds → (n : Text) → matches_id n ≡ true → normalize_user_id (some n) ≡ n
  unfolding normalize_user_id
  normalize_user_id_again keeps n h =
      let chars = (matches_id-chars n h).0 in
      rw (normalize_user_id, keeps.strip n chars, keeps.lower n chars) refl

  -- An id that was accepted is accepted again as it is stored.
  pub validate_user_id_again :
      KeepIds
      → (value : Option Text) (n : Text) → validate_user_id value ≡ returned n
      → validate_user_id (some n) ≡ returned n
  unfolding validate_user_id
  validate_user_id_again keeps value n h =
      let v = validate_user_id-normalized value n h in
      rw (normalize_user_id_again keeps n v.1) (rw v.1 (rw v.2 refl))
