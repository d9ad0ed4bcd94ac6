-- ===== src/Sim/Setup/Choose/Laws.antt =====
-- What a choice of students is.
use elp_gemini.Sim.Setup.Choose.{
  by_id_of, resolve_refs, snapshot_for_session, assign_pseudonyms, custom_ids, is_custom, has_grade,
  order_of, PersonaPick, Selection, RandomPick, requested, sample, choose_personas, choose_random,
  choose_students, level_at, Chosen, with_choice, bad_names, bucket_of, Draws, cons_ok, PoolRecord,
  sample_from,
}
use elp_gemini.Base.{
  ◌==◌, ◌∙◌, subst, order_by, filter, Text, ℕ, zero, suc, ◌+◌, ◌≡◌, refl, ap, sym, Bool, true,
  false, not, Option, none, some, List, [], ◌∷◌, map, arith, length, length-map, get_elem?,
}
use elp_gemini.Base.Texts.{show}
use elp_gemini.Sim.Model.{LibraryItem}
use elp_gemini.Base.Dicts.{text_eq_sym, in_texts}
use elp_gemini.Sim.Errors.{Code, Result, ok, err, ok_inj, ◌>>=◌, ◌>>◌, raise_if}
use elp_gemini.Sim.Setup.Names.Laws.{is_distinct, pseudonyms_differ}
use elp_gemini.Sim.Setup.Names.{is_used}

cons_ok-length :
    (r : PoolRecord) (x : Result (List PoolRecord)) (n : ℕ) (out : List PoolRecord)
    → ((rs : List PoolRecord) → x ≡ ok rs → length rs ≡ n)
    → cons_ok r x ≡ ok out
    → length out ≡ suc n
cons_ok-length r (err e) n out len h = cc
cons_ok-length r (ok rs) n out len h = rw (sym (ok_inj h)) (ap suc (len rs refl))

with_choice-length :
    (o : Option PoolRecord) (rows : List PoolRecord)
    (rest : List PoolRecord → Result (List PoolRecord)) (n : ℕ) (out : List PoolRecord)
    → ((left rs : List PoolRecord) → rest left ≡ ok rs → length rs ≡ n)
    → with_choice o rows rest ≡ ok out
    → length out ≡ suc n
with_choice-length none rows rest n out len h = cc
with_choice-length (some r) rows rest n out len h =
    let left = filter (λ q. not (q.id == r.id)) rows in
    cons_ok-length r (rest left) n out (len left) h

length-sample_from :
    (draws : Draws) (order : List Text) (n i : ℕ) (rows out : List PoolRecord)
    → sample_from draws order rows i n ≡ ok out
    → length out ≡ n
unfolding sample_from
length-sample_from draws order zero i rows out h = rw (sym (ok_inj h)) refl
length-sample_from draws order (suc n) i rows out h =
    let bucket = bucket_of (level_at order i) rows in
    with_choice-length (get_elem? bucket (draws.choice_at i (length bucket))) rows
      (λ left. sample_from draws order left (i + 1) n) n out
      (λ left rs e. length-sample_from draws order n (i + 1) left rs e) h

in_texts-used : (n : Text) (ns : List Text) → in_texts n ns ≡ is_used ns n
in_texts-used n [] = refl
in_texts-used n (x ∷ xs) = rw (text_eq_sym x n, in_texts-used n xs) refl

bad_names-distinct : (names : List Text) → bad_names names ≡ false → is_distinct names ≡ true
unfolding bad_names
bad_names-distinct [] h = refl
bad_names-distinct (n ∷ ns) h = ground (arith, in_texts-used n ns, bad_names-distinct ns)

pub after_bind {κ ℓ μ} :
    {A : Type κ} {B : Type ℓ} {P : Type μ} (m : Result A) (f : A → Result B) (b : B)
    → m >>= f ≡ ok b
    → ((a : A) → m ≡ ok a → f a ≡ ok b → P)
    → P
after_bind (err e) f b h k = cc
after_bind (ok a) f b h k = k a refl h

pub raise_if-ok {ℓ} :
    {A : Type ℓ} (t : Bool) (e : Code) (rest : Result A) (a : A)
    → raise_if t e >> rest ≡ ok a
    → (t ≡ false) × (rest ≡ ok a)
raise_if-ok true e rest a h = cc
raise_if-ok false e rest a h = (refl, h)

-- As many students as requested, each with a pseudonym that no other has.
abbrev pub IsChoice : ℕ → Chosen → Type 0
IsChoice n c = (length c.refs ≡ n) × (length c.names ≡ n) × (is_distinct c.names ≡ true)

pub choose_personas-IsChoice :
    (pool : List PoolRecord) (library : List LibraryItem) (user_id : ℕ) (picks : List PersonaPick)
    (c : Chosen)
    → choose_personas pool library user_id picks ≡ ok c
    → IsChoice (length picks) c
unfolding choose_personas
choose_personas-IsChoice pool library user_id picks c h =
    let names = map (λ p. p.pseudonym) picks in
    let custom_refs = filter is_custom (map (λ p. p.ref) picks) in
    let checks = raise_if (bad_names names) Code.duplicate_pseudonym >> custom_ids custom_refs in
    after_bind checks _ c h (λ ids checked h1.
      after_bind (snapshot_for_session library user_id ids) _ c h1 (λ items e1 h2.
        after_bind
          (resolve_refs (by_id_of pool) (filter (λ r. not (is_custom r)) (map (λ p. p.ref) picks)))
          _ c h2
          (λ raws e2 h3. subst (IsChoice (length picks)) (ok_inj h3) (
            length-map (λ p. p.ref) picks,
            length-map (λ p. p.pseudonym) picks,
            bad_names-distinct names
                (raise_if-ok (bad_names names) Code.duplicate_pseudonym (custom_ids custom_refs) ids
                  checked).0,
          ))))

choose_random-IsChoice :
    (draws : Draws) (pool : List PoolRecord) (pick : RandomPick) (c : Chosen)
    → choose_random draws pool pick ≡ ok c
    → IsChoice pick.n c
unfolding choose_random sample
choose_random-IsChoice draws pool pick c h =
    after_bind (sample draws pool pick) _ c h (λ raws e1 h1.
      after_bind (assign_pseudonyms draws.name_draw (map (λ r. r.gender) raws)) _ c h1
        (λ names e2 h2.
          let drawn =
            length-sample_from draws (order_of draws pick.level) pick.n 0
              (order_by (λ r. r.id) (filter (has_grade pick.grade) pool)) raws e1 in
          let given = pseudonyms_differ draws.name_draw (map (λ r. r.gender) raws) names e2 in
          subst (IsChoice pick.n) (ok_inj h2) (
            length-map (λ r. show r.id) raws ∙ drawn,
            given.1 ∙ length-map (λ r. r.gender) raws ∙ drawn,
            given.0,
          )))

-- A choice that succeeds has as many students as the request asks for, and no two of them share a
-- pseudonym.
pub choose_students-IsChoice :
    (draws : Draws) (pool : List PoolRecord) (library : List LibraryItem) (user_id : ℕ)
    (selection : Selection) (c : Chosen)
    → choose_students draws pool library user_id selection ≡ ok c
    → IsChoice (requested selection) c
unfolding choose_students requested
choose_students-IsChoice draws pool library user_id (Selection.personas picks) c h =
    choose_personas-IsChoice pool library user_id picks c h
choose_students-IsChoice draws pool library user_id (Selection.random pick) c h =
    choose_random-IsChoice draws pool pick c h
