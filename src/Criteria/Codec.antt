-- ===== src/Criteria/Codec.antt =====
-- The chunks of app/services/alias_map_codec.py. JSON, UTF-8 and base64 are parameters.
use elp_gemini.Base.{
  Text, ℕ, zero, suc, ◌≤◌, ◌<◌, ◌≡◌, refl, ap, ◌∙◌, List, [], ◌∷◌, ◌++◌, arith, length,
}

abbrev pub chunk_size : ℕ
chunk_size = 240

unfoldable pub take : ℕ → Text → Text
take zero t = []
take (suc n) [] = []
take (suc n) (c ∷ t) = c ∷ take n t

unfoldable pub drop : ℕ → Text → Text
drop zero t = t
drop (suc n) [] = []
drop (suc n) (c ∷ t) = drop n t

-- `[encoded[i : i + n] for i in range(0, len(encoded), n)]`, with a round for each chunk.
unfoldable pub chunks_from : ℕ → ℕ → Text → List Text
unfolding take drop
chunks_from zero n t = []
chunks_from (suc rounds) n [] = []
chunks_from (suc rounds) n (c ∷ t) = take n (c ∷ t) ∷ chunks_from rounds n (drop n (c ∷ t))

abbrev pub or_one_empty : List Text → List Text
or_one_empty [] = [] ∷ []
or_one_empty (c ∷ cs) = c ∷ cs

-- `encode_alias_map_payload`; an empty text is one empty chunk.
unfoldable pub encode_alias_map_payload {ℓ} : {A : Type ℓ} → (A → Text) → A → List Text
unfolding chunks_from
encode_alias_map_payload encode v =
    or_one_empty (chunks_from (length (encode v)) chunk_size (encode v))

unfoldable pub concat : List Text → Text
concat [] = []
concat (c ∷ cs) = c ++ concat cs

decode_joined {ℓ} : {A : Type ℓ} → A → (Text → A) → Text → A
decode_joined empty decode [] = empty
decode_joined empty decode (c ∷ t) = decode (c ∷ t)

-- `decode_alias_map_payload`: nothing joined is the empty dict.
unfoldable pub decode_alias_map_payload {ℓ} : {A : Type ℓ} → A → (Text → A) → List Text → A
unfolding concat decode_joined
decode_alias_map_payload empty decode chunks = decode_joined empty decode (concat chunks)

take-drop : (n : ℕ) (t : Text) → take n t ++ drop n t ≡ t
unfolding take drop
take-drop zero t = refl
take-drop (suc n) [] = refl
take-drop (suc n) (c ∷ t) = ap (λ x. c ∷ x) (take-drop n t)

length-drop : (n : ℕ) (t : Text) → length (drop n t) ≤ length t
unfolding drop
length-drop zero t = omega arith
length-drop (suc n) [] = omega arith
length-drop (suc n) (c ∷ t) = omega (arith, length-drop n t)

length-take : (n : ℕ) (t : Text) → length (take n t) ≤ n
unfolding take
length-take zero t = omega arith
length-take (suc n) [] = omega arith
length-take (suc n) (c ∷ t) = omega (arith, length-take n t)

concat-chunks_from :
    (rounds n : ℕ) (t : Text) → length t ≤ rounds → concat (chunks_from rounds (suc n) t) ≡ t
unfolding chunks_from concat
concat-chunks_from zero n [] h = refl
concat-chunks_from zero n (c ∷ t) h = absurd (omega arith)
concat-chunks_from (suc rounds) n [] h = refl
concat-chunks_from (suc rounds) n (c ∷ t) h =
    ap (λ x. c ∷ take n t ++ x)
      (concat-chunks_from rounds n (drop n t) (omega (arith, length-drop n t)))
    ∙ ap (λ x. c ∷ x) (take-drop n t)

abbrev pub AllShort : ℕ → List Text → Type 0
AllShort n [] = Unit
AllShort n (c ∷ cs) = (length c ≤ n) × AllShort n cs

chunks_from-AllShort : (rounds n : ℕ) (t : Text) → AllShort n (chunks_from rounds n t)
unfolding chunks_from
chunks_from-AllShort zero n t = tt
chunks_from-AllShort (suc rounds) n [] = tt
chunks_from-AllShort (suc rounds) n (c ∷ t) =
    (length-take n (c ∷ t), chunks_from-AllShort rounds n (drop n (c ∷ t)))

-- What is encoded is decoded, when the encoding of texts is undone and is never empty, and no chunk
-- is longer than the remote store allows.
pub decode-encode {ℓ} :
    {A : Type ℓ} (empty : A) (encode : A → Text) (decode : Text → A) (v : A)
    → decode (encode v) ≡ v
    → 0 < length (encode v)
    → (decode_alias_map_payload empty decode (encode_alias_map_payload encode v) ≡ v)
      × AllShort chunk_size (encode_alias_map_payload encode v)
unfolding decode_alias_map_payload encode_alias_map_payload
decode-encode empty encode decode v back full = at (encode v) (omega arith) full back
  where
    at :
        (t : Text)
        → length t ≤ length t
        → 0 < length t
        → decode t ≡ v
        → (decode_joined empty decode (concat (or_one_empty (chunks_from (length t) chunk_size t)))
            ≡ v)
          × AllShort chunk_size (or_one_empty (chunks_from (length t) chunk_size t))
    at [] l f b = absurd (omega arith)
    at (c ∷ t) l f b = (
      ap (decode_joined empty decode) (concat-chunks_from (length (c ∷ t)) 239 (c ∷ t) l) ∙ b,
      chunks_from-AllShort (length (c ∷ t)) chunk_size (c ∷ t),
    )
