-- ===== src/Sim/Setup/Library/Laws.antt =====
-- Whose personas app/services/simulation/library.py reaches.
use elp_gemini.Base.{
  some_inj, ℕ, ◌≡◌, refl, sym, ap, subst, ◌≢◌, inl, inr, Bool, true, not, Option, none, some, List,
  [], ◌∷◌, map, arith, ◌==◌, ==_iff, Bool-cases, &&-eq-true, filter, any, all, find,
}
use elp_gemini.Sim.Errors.{Result, ok, err, ok_inj}
use elp_gemini.Sim.Model.{LibraryItem}
use elp_gemini.Sim.Setup.Library.{with_item, owned, is_item, delete, snapshot_for_session}

find-passes :
    (p : LibraryItem → Bool) (items : List LibraryItem) (item : LibraryItem)
    → find p items ≡ some item
    → p item ≡ true
find-passes p [] item h = cc
find-passes p (x ∷ items) item h = elim (Bool-cases (p x)) [
  | inl y ↦ subst (λ z. p z ≡ true) (some_inj (rw y at h)) y
  | inr n ↦ find-passes p items item (rw n at h)
]

with_item-ok :
    (o : Option LibraryItem) (r : Result (List LibraryItem)) (out : List LibraryItem)
    → with_item o r ≡ ok out
    → (item : LibraryItem) × (rest : List LibraryItem) × (o ≡ some item)
      × (r ≡ ok rest)
      × (item ∷ rest ≡ out)
unfolding with_item
with_item-ok none r out h = cc
with_item-ok (some item) (err e) out h = cc
with_item-ok (some item) (ok rest) out h = (item, rest, refl, refl, ok_inj h)

-- A snapshot has one item for each id, in the order of the ids, and every item is the user's.
pub snapshot-owned :
    (items : List LibraryItem) (user_id : ℕ) (ids : List ℕ) (out : List LibraryItem)
    → snapshot_for_session items user_id ids ≡ ok out
    → (map LibraryItem.id out ≡ ids) × (all (owned user_id) out ≡ true)
unfolding snapshot_for_session
snapshot-owned items user_id [] out h = rw (sym (ok_inj h)) (refl, refl)
snapshot-owned items user_id (i ∷ ids) out h =
    let w =
      with_item-ok (find (is_item user_id i) items) (snapshot_for_session items user_id ids) out
        h in
    let passes =
      &&-eq-true (w.0.id == i) (w.0.user_id == user_id)
        (find-passes (is_item user_id i) items w.0 w.2) in
    let rest = snapshot-owned items user_id ids w.1 w.3 in
    rw (sym w.4) (rw ((==_iff w.0.id i).0 passes.0) (ap (λ xs. i ∷ xs) rest.0), rw passes.1 rest.1)

delete-filter :
    (user_id item_id other : ℕ) (items : List LibraryItem)
    → other ≢ user_id
    → filter (owned other) (filter (λ item. not (is_item user_id item_id item)) items)
      ≡ filter (owned other) items
delete-filter user_id item_id other [] d = refl
delete-filter user_id item_id other (x ∷ items) d =
    ground (arith, delete-filter user_id item_id other items)

-- A deletion, of whatever id, leaves the personas of every other user as they were.
pub delete-others :
    (user_id item_id other : ℕ) (items : List LibraryItem)
    → other ≢ user_id
    → filter (owned other) (delete user_id item_id items).1 ≡ filter (owned other) items
unfolding delete
delete-others user_id item_id other items d =
    elim (Bool-cases (any (is_item user_id item_id) items)) [
      | inl y ↦ rw y (delete-filter user_id item_id other items d)
      | inr n ↦ rw n refl
    ]
