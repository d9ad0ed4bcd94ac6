-- ===== src/Sim/Store/Rows.antt =====
-- The sequence numbers of the utterances, and what an insert of consecutive rows does.
use elp_gemini.Base.{
  ℕ, ◌+◌, ◌<◌, ◌≡◌, refl, sym, ap, ◌∙◌, Bool, false, ◌&&◌, some, List, [], ◌∷◌, ◌++◌, append_assoc,
  append-nil, arith, ◌==◌, if◌then◌else◌, filter, any, find, count, count-append, any-filter,
  any-order_by,
}
use mathlib.Core.Path.{subst₂}
use mathlib.Core.Option
use elp_gemini.Sim.Model.{Utterance, Session}
use elp_gemini.Sim.Store.{
  update_session, in_scene, scene_of, Db, next_seq, max_seq, taken, next_id, insert_rows,
  is_user_turn,
}

-- Rows of one session with the sequence numbers n, n + 1, and so on.
abbrev pub Runs : ℕ → ℕ → List Utterance → Type 0
Runs sid n [] = Unit
Runs sid n (r ∷ rs) = (r.session_id ≡ sid) × (r.seq ≡ n) × Runs sid (n + 1) rs

-- The rows as the database stores them behind `us`.
abbrev stamped : ℕ → List Utterance → Utterance → Utterance
stamped now us r = record r { id = next_id us; created_at = now }

unfoldable pub stamp : ℕ → List Utterance → List Utterance → List Utterance
stamp now us [] = []
stamp now us (r ∷ rs) = stamped now us r ∷ stamp now (us ++ stamped now us r ∷ []) rs

not-taken :
    (us : List Utterance) (r : Utterance) → max_seq r.session_id us < r.seq → taken us r ≡ false
unfolding taken max_seq
not-taken [] r h = refl
not-taken (u ∷ us) r h = ground (arith, not-taken us r)

max_seq-snoc :
    (sid : ℕ) (us : List Utterance) (u : Utterance) (n : ℕ)
    → max_seq sid us < n
    → u.seq < n
    → max_seq sid (us ++ u ∷ []) < n
unfolding max_seq
max_seq-snoc sid [] u n h k = ground arith
max_seq-snoc sid (v ∷ us) u n h k = ground (arith, max_seq-snoc sid us u n)

-- Rows that run on from above the session's largest sequence number always go in, at the end.
pub insert-Runs :
    (now sid n : ℕ) (us rows : List Utterance)
    → Runs sid n rows
    → max_seq sid us < n
    → insert_rows now us rows ≡ some (us ++ stamp now us rows)
unfolding insert_rows stamp
insert-Runs now sid n us [] h k = rw append-nil
insert-Runs now sid n us (r ∷ rs) h k =
    let fits : max_seq r.session_id us < r.seq =
      subst₂ (λ s m. max_seq s us < m) (sym h.0) (sym h.1) k in
    let us' = us ++ stamped now us r ∷ [] in
    let above : max_seq sid us' < n + 1 =
      max_seq-snoc sid us (stamped now us r) (n + 1) (omega arith) (omega arith) in
    rw (not-taken us r fits) (
      insert-Runs now sid (n + 1) us' rs h.2 above
      ∙ ap some (append_assoc us (stamped now us r ∷ []) (stamp now us' rs)))

-- A test that does not read the id or the time sees the same rows.
pub any-stamp :
    (p : Utterance → Bool) (now : ℕ) (us rows : List Utterance)
    → ((u : Utterance) (i c : ℕ) → p (record u { id = i; created_at = c }) ≡ p u)
    → any p (stamp now us rows) ≡ any p rows
unfolding stamp
any-stamp p now us [] h = refl
any-stamp p now us (r ∷ rs) h =
    ground (arith, h r (next_id us) now, any-stamp p now (us ++ stamped now us r ∷ []) rs h)

count-stamp :
    (p : Utterance → Bool) (now : ℕ) (us rows : List Utterance)
    → ((u : Utterance) (i c : ℕ) → p (record u { id = i; created_at = c }) ≡ p u)
    → count p (stamp now us rows) ≡ count p rows
unfolding stamp
count-stamp p now us [] h = refl
count-stamp p now us (r ∷ rs) h =
    ground (arith, h r (next_id us) now, count-stamp p now (us ++ stamped now us r ∷ []) rs h)

-- An insert that goes through has put the rows at the end, and nothing else.
pub insert-eq :
    (now : ℕ) (us rows us' : List Utterance)
    → insert_rows now us rows ≡ some us'
    → us' ≡ us ++ stamp now us rows
unfolding insert_rows stamp
insert-eq now us [] us' h = rw append-nil (ground arith)
insert-eq now us (r ∷ rs) us' h =
    let next = us ++ stamped now us r ∷ [] in
    insert-eq now next rs us' (ground arith)
    ∙ append_assoc us (stamped now us r ∷ []) (stamp now next rs)

-- What an insert does to the number of the teacher's turns.
pub turns-insert :
    (now sid : ℕ) (us rows us' : List Utterance)
    → insert_rows now us rows ≡ some us'
    → count (is_user_turn sid) us' ≡ count (is_user_turn sid) us + count (is_user_turn sid) rows
turns-insert now sid us rows us' h = rw (insert-eq now us rows us' h) (
    count-append (is_user_turn sid) us (stamp now us rows)
    ∙ ap (λ (n : ℕ). count (is_user_turn sid) us + n)
        (count-stamp (is_user_turn sid) now us rows (λ u i c. refl)))

pub next_seq-above : (db : Db) (sid : ℕ) → max_seq sid db.utterances < next_seq db sid
unfolding next_seq
next_seq-above db sid = omega arith

-- A scene with no row has no row that passes a test.
pub any-scene-none :
    (db : Db) (sid idx : ℕ) (p : Utterance → Bool)
    → scene_of db sid idx ≡ []
    → any (λ u. in_scene sid idx u && p u) db.utterances ≡ false
unfolding scene_of
any-scene-none db sid idx p h =
    sym (any-filter p (in_scene sid idx) db.utterances)
    ∙ sym (any-order_by p (λ u. u.seq) (filter (in_scene sid idx) db.utterances))
    ∙ ap (any p) h

pub any-scene :
    (db : Db) (sid idx : ℕ) (p : Utterance → Bool)
    → any p (scene_of db sid idx) ≡ any (λ u. in_scene sid idx u && p u) db.utterances
unfolding scene_of
any-scene db sid idx p =
    any-order_by p (λ u. u.seq) (filter (in_scene sid idx) db.utterances)
    ∙ any-filter p (in_scene sid idx) db.utterances

-- One row with a sequence number from `next_seq` always goes in.
pub insert_one :
    (now : ℕ) (db : Db) (r : Utterance)
    → r.seq ≡ next_seq db r.session_id
    → insert_rows now db.utterances (r ∷ [])
      ≡ some (db.utterances ++ stamp now db.utterances (r ∷ []))
insert_one now db r e =
    insert-Runs now r.session_id (next_seq db r.session_id) db.utterances (r ∷ []) (refl, e, tt)
      (next_seq-above db r.session_id)

-- The session's row after an update of a session, by a change that keeps the key.
pub find-update_session :
    (f : Session → Session) (sid k : ℕ) (ss : List Session)
    → ((s : Session) → (f s).id ≡ s.id)
    → find (λ s. s.id == k) (update_session sid f ss)
      ≡ (if sid == k then Option.map f (find (λ s. s.id == k) ss) else find (λ s. s.id == k) ss)
unfolding update_session
find-update_session f sid k [] h = ground arith
find-update_session f sid k (s ∷ ss) h = ground (arith, h s, find-update_session f sid k ss h)
