-- ===== src/Criteria/Fetch/Upload.antt =====
-- `replace` of app/services/criteria_alias_map_service.py: a new document is uploaded, and then the old
-- one is deleted. The temporary file is left out; its removal raises nothing.
use elp_gemini.Base.{
  Text, ℕ, zero, suc, ◌+◌, ◌*◌, ◌≤◌, ◌<◌, ◌≡◌, refl, ap, subst, ◌∙◌, ◌⊎◌, inl, inr, Bool, true,
  false, ◌&&◌, not, Option, none, some, List, [], ◌∷◌, arith, ltb, Bool-cases, length,
}
use elp_gemini.Criteria.{Fault, Outcome, raised, done}

-- What the remote store answers: whether the store is there, the operation's first state, its state
-- at each later poll by the seconds that have passed, and the deletion; and the two exceptions that the
-- call raises itself.
pub record Store : Type 0 where
  pub lookup_store : Outcome Bool
  pub upload : Outcome Bool
  pub poll : ℕ → Outcome Bool
  pub new_doc_name : Text
  pub delete : Text → Outcome (Unit {0})
  pub no_store : Fault
  pub timeout : Fault

-- The loop of polls: every 2 seconds, until the operation is done or 60 seconds have passed; a poll
-- that raises ends it.
unfoldable pub wait_done : ℕ → (ℕ → Outcome Bool) → ℕ → Bool → Option Bool
wait_done zero poll elapsed is_done = none
wait_done (suc rounds) poll elapsed is_done = elim (not is_done && ltb elapsed 60) [
  | true ↦ elim (poll (elapsed + 2)) [
    | raised e ↦ some is_done
    | done state ↦ wait_done rounds poll (elapsed + 2) state
  ]
  | false ↦ some is_done
]

-- The rounds that 60 seconds allow, and the last test.
abbrev pub enough_rounds : ℕ
enough_rounds = 31

-- The result, and the documents of which the deletion was tried.
pub record Replaced : Type 0 where
  pub result : Outcome Text
  pub deleted : List Text

abbrev pub failed : Fault → Replaced
failed e = record { result = raised e; deleted = [] }

after_delete : Text → Text → Outcome (Unit {0}) → Replaced
after_delete new_name old_name (raised e) = record { result = raised e; deleted = old_name ∷ [] }
after_delete new_name old_name (done x) = record { result = done new_name; deleted = old_name ∷ [] }

-- `if old_doc_name:`
delete_old : Store → Option Text → Replaced
delete_old store none = record { result = done store.new_doc_name; deleted = [] }
delete_old store (some []) = record { result = done store.new_doc_name; deleted = [] }
delete_old store (some (c ∷ cs)) = after_delete store.new_doc_name (c ∷ cs) (store.delete (c ∷ cs))

after_wait : Store → Option Text → Option Bool → Replaced
after_wait store old_doc_name none = failed store.timeout
after_wait store old_doc_name (some false) = failed store.timeout
after_wait store old_doc_name (some true) = delete_old store old_doc_name

after_upload : Store → Option Text → Outcome Bool → Replaced
after_upload store old_doc_name (raised e) = failed e
after_upload store old_doc_name (done is_done) =
    after_wait store old_doc_name (wait_done enough_rounds store.poll 0 is_done)

after_lookup : Store → Option Text → Outcome Bool → Replaced
after_lookup store old_doc_name (raised e) = failed e
after_lookup store old_doc_name (done false) = failed store.no_store
after_lookup store old_doc_name (done true) = after_upload store old_doc_name store.upload

unfoldable pub replace : Store → Option Text → Replaced
unfolding after_lookup after_upload after_wait delete_old after_delete wait_done
replace store old_doc_name = after_lookup store old_doc_name store.lookup_store

-- What the loop may answer.
abbrev pub Reported : (ℕ → Outcome Bool) → Bool → Bool → Type 0
Reported poll is_done b = b ≡ true → (is_done ≡ true) ⊎ ((t : ℕ) × (t ≤ 61) × (poll t ≡ done true))

wait_end :
    (rounds elapsed : ℕ) (poll : ℕ → Outcome Bool) (is_done : Bool)
    → (not is_done && ltb elapsed 60) ≡ false
    → (b : Bool) × (wait_done (suc rounds) poll elapsed is_done ≡ some b) × Reported poll is_done b
unfolding wait_done
wait_end rounds elapsed poll is_done h = (is_done, rw (h, wait_done) refl, λ e. inl e)

-- Whatever the polls answer, the loop ends within the rounds that 60 seconds allow, and says that the
-- operation is done only if its first state or a poll of these seconds has said so.
pub wait_done_total :
    (rounds elapsed : ℕ) (poll : ℕ → Outcome Bool) (is_done : Bool)
    → 60 ≤ elapsed + 2 * rounds
    → (b : Bool) × (wait_done (suc rounds) poll elapsed is_done ≡ some b) × Reported poll is_done b
unfolding wait_done
wait_done_total zero elapsed poll is_done h = wait_end zero elapsed poll is_done (ground arith)
wait_done_total (suc rounds) elapsed poll is_done h =
    at (Bool-cases (not is_done && ltb elapsed 60))
      (λ state. wait_done_total rounds (elapsed + 2) poll state (omega arith))
  where
    polled :
        (not is_done && ltb elapsed 60) ≡ true
        → ((state : Bool)
            → (b : Bool) × (wait_done (suc rounds) poll (elapsed + 2) state ≡ some b)
              × Reported poll state b)
        → (o : Outcome Bool) → poll (elapsed + 2) ≡ o
        → (b : Bool) × (elim o [
          | raised e ↦ some is_done
          | done state ↦ wait_done (suc rounds) poll (elapsed + 2) state
        ]
            ≡ some b)
          × Reported poll is_done b
    polled y ih (raised e) p = (is_done, refl, λ e. inl e)
    polled y ih (done state) p =
        let r = ih state in
        (
          r.0,
          r.1,
          λ e. elim (r.2 e) [
            | inl s ↦ inr (elapsed + 2, ground arith, p ∙ ap done s)
            | inr w ↦ inr w
          ],
        )

    at :
        ((not is_done && ltb elapsed 60) ≡ true) ⊎ ((not is_done && ltb elapsed 60) ≡ false)
        → ((state : Bool)
            → (b : Bool) × (wait_done (suc rounds) poll (elapsed + 2) state ≡ some b)
              × Reported poll state b)
        → (b : Bool) × (wait_done (suc (suc rounds)) poll elapsed is_done ≡ some b)
          × Reported poll is_done b
    at (inl y) ih =
        let r = polled y ih (poll (elapsed + 2)) refl in (r.0, rw (y, wait_done) (r.1), r.2)
    at (inr n) ih = wait_end (suc rounds) elapsed poll is_done n

done_only_reported :
    (store : Store) (old_doc_name : Option Text) (is_done : Bool)
    → 0 < length (after_upload store old_doc_name (done is_done)).deleted
    → (is_done ≡ true) ⊎ ((t : ℕ) × (t ≤ 61) × (store.poll t ≡ done true))
unfolding after_upload after_wait
done_only_reported store old_doc_name is_done h =
    let w = wait_done_total 30 0 store.poll is_done (omega arith) in
    w.2 (at w.0 (subst (λ o. 0 < length (after_wait store old_doc_name o).deleted) w.1 h))
  where
    at : (b : Bool) → 0 < length (after_wait store old_doc_name (some b)).deleted → b ≡ true
    at true h = refl
    at false h = absurd (omega arith)

-- The deletion of an old document is tried only when the upload of the new one was reported to be
-- done, at once or by a poll of the first 61 seconds.
pub replace-deleted :
    (store : Store) (old_doc_name : Option Text)
    → 0 < length (replace store old_doc_name).deleted
    → (store.upload ≡ done true) ⊎ ((t : ℕ) × (t ≤ 61) × (store.poll t ≡ done true))
unfolding replace after_lookup
replace-deleted store old_doc_name h = lookup_at store.lookup_store h
  where
    upload_at :
        (o : Outcome Bool)
        → 0 < length (after_upload store old_doc_name o).deleted
        → (o ≡ done true) ⊎ ((t : ℕ) × (t ≤ 61) × (store.poll t ≡ done true))
    upload_at (raised e) h = absurd (omega arith)
    upload_at (done b) h = elim (done_only_reported store old_doc_name b h) [
      | inl e ↦ inl (ap done e)
      | inr w ↦ inr w
    ]

    lookup_at :
        (o : Outcome Bool)
        → 0 < length (after_lookup store old_doc_name o).deleted
        → (store.upload ≡ done true) ⊎ ((t : ℕ) × (t ≤ 61) × (store.poll t ≡ done true))
    lookup_at (raised e) h = absurd (omega arith)
    lookup_at (done false) h = absurd (omega arith)
    lookup_at (done true) h = upload_at store.upload h
