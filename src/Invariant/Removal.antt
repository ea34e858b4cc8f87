-- ===== src/Invariant/Removal.antt =====
-- `DELETE … WHERE id = …` with the count of its rows: what it has removed, and that a count of none is
-- no change.
use waitinglist.Prelude.{
  ◌≡◌, refl, ap, ◌∙◌, ℕ, String, Bool, true, false, not, some, List, [], ◌∷◌, keep, length, ◌==◌,
  arith, Bool-cases, inl, inr, if◌then◌else◌,
}
use waitinglist.Model.{Result, ok, err, Error, waiting_list_entry_not_found, failed}
use waitinglist.Store.{Db, World, WaitingRow}
use waitinglist.Store.Keeps.{driver-db}
use waitinglist.Store.Monad.{M, ◌>>=◌, answer, driver, proceed, raise, pure}
use waitinglist.Sqlite.Waiting.{has_entry_id, delete_waiting}
use waitinglist.Repository.Keys.{KeyReader}
use waitinglist.Repository.Contract.{Removed, without_entry}

keep_all :
    (p : WaitingRow → Bool) (rows : List WaitingRow)
    → (length (keep p rows) == 0) ≡ true
    → keep (λ r. not (p r)) rows ≡ rows
keep_all p [] h = refl
keep_all p (r ∷ rows) h = elim (Bool-cases (p r)) [
  | inl t ↦ absurd (ground arith)
  | inr f ↦ rw f (ap (λ l. r ∷ l) (keep_all p rows (ground arith)))
]

-- A driver's error is no sentinel.
abbrev pub OnlyFails {ℓ} : {A : Type ℓ} → Result A → Type ℓ
OnlyFails r = (e : Error) → r ≡ err e → e ≡ failed

answer-OnlyFails : (fs : List Bool) (w : World) → OnlyFails (answer fs w).0
unfolding answer
answer-OnlyFails [] w e h = absurd (cc)
answer-OnlyFails (true ∷ fs) w e h = ground arith
answer-OnlyFails (false ∷ fs) w e h = absurd (cc)

pub driver-OnlyFails : (w : World) → OnlyFails (driver w).0
unfolding driver
driver-OnlyFails w = answer-OnlyFails w.faults w

unlike : (e : Error) → e ≡ failed → e ≡ waiting_list_entry_not_found → ⊥
unlike e f g = absurd (cc)

module _ (key : KeyReader) (before : Db) (id : String) where
  -- A step that fails without a sentinel has removed nothing of note.
  pub proceed-Removed :
      {A : Type 0} (r : Result A) (f : A → M (Unit {0})) (w : World)
      → OnlyFails r
      → ((a : A) → r ≡ ok a → Removed key before id (f a w))
      → Removed key before id (proceed r f w)
  proceed-Removed (ok a) f w fails h = h a refl
  proceed-Removed (err e) f w fails h = λ same. absurd (unlike e (fails e refl) same)

  module _ (k : String) (is_key : key id ≡ some k) where
    counted :
        (n : ℕ) (w : World)
        → w.db ≡ without_entry k before
        → ((n == 0) ≡ true → w.db ≡ before)
        → Removed key before id ((if n == 0 then raise waiting_list_entry_not_found else pure tt) w)
    unfolding raise pure
    counted n w gone none_ = elim (Bool-cases (n == 0)) [
      | inl t ↦ rw t (λ e. none_ t)
      | inr f ↦ rw f (k, is_key, gone)
    ]

    pub removal-Removed :
        (w : World)
        → w.db ≡ before
        → Removed key before id (
            (delete_waiting (has_entry_id k) >>= λ n.
            driver >>= λ _. if n == 0 then raise waiting_list_entry_not_found else pure tt)
              w)
    unfolding ◌>>=◌ delete_waiting
    removal-Removed w same =
        let rows = keep (λ (r : WaitingRow). not (has_entry_id k r)) w.waiting_list in
        let w' = record w { db = record w.db { waiting_list = rows } } in
        let n = length (keep (has_entry_id k) w.waiting_list) in
        let kept = driver-db w' in
        proceed-Removed (driver w').0 _ (driver w').1 (driver-OnlyFails w') λ _ answered.
          counted n (driver w').1 (kept ∙ ap (without_entry k) same) λ none_.
            kept
            ∙ ap (λ l. record w.db { waiting_list = l })
                (keep_all (has_entry_id k) w.waiting_list none_)
            ∙ same
