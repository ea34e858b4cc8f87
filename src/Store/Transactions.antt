-- ===== src/Store/Transactions.antt =====
-- What a transaction answers, by what its body answers: a rollback puts the tables back.
use waitinglist.Prelude.{◌≡◌, refl, sym, ◌∙◌, arith, subst, Bool, true, false, if◌then◌else◌}
use waitinglist.Model.{Result, ok, err}
use waitinglist.Store.{Db, World}
use waitinglist.Store.Monad.{driver}
use waitinglist.Store.Keeps.{driver-db}
use waitinglist.Store.Action.{
  Action, ◌>>=◌, Ending, committed, rolled_back, begin_tx, in_tx, settle,
}

pub if-both :
    {A : Type 0} (Q : A × World → Type 0) (b : Bool) (m n : Action A) (w : World)
    → Q (m w)
    → Q (n w)
    → Q ((if b then m else n) w)
if-both Q true m n w hm hn = hm
if-both Q false m n w hm hn = hn

begun :
    (r : Result (Unit {0})) (now db : Db)
    → ◌≡◌ {A = Result Db} (elim r [ ok _ ↦ ok now | err e ↦ err e ]) (ok db)
    → now ≡ db
begun (ok _) now db e = ground arith
begun (err _) now db e = absurd (cc)

-- What a body owes to a relation between its answer and the tables: with the tables as they are
-- where it committed, or as they were before where it did not.
abbrev pub Ends : {A : Type 0} → Db → (A → Db → Type 0) → Ending A × World → Type 0
Ends before R (committed a, w) = R a w.db
Ends before R (rolled_back a, w) = R a before

pub if-Ends :
    {A : Type 0} (before : Db) (R : A → Db → Type 0) (b : Bool) (m n : Action (Ending A))
    (w : World)
    → (b ≡ true → Ends before R (m w))
    → (b ≡ false → Ends before R (n w))
    → Ends before R ((if b then m else n) w)
if-Ends before R true m n w km kn = km refl
if-Ends before R false m n w km kn = kn refl

module _ {A : Type 0} (R : A → Db → Type 0) where
  settle-Ends :
      (before : Db) (e : Ending A × World)
      → Ends before R e
      → R (settle before e).0 (settle before e).1.db
  settle-Ends before (committed a, w) k = k
  settle-Ends before (rolled_back a, w) k = k

  started-Ends :
      (r : Result Db) (failure : A) (body : Action (Ending A)) (w : World)
      → R failure w.db
      → ((db : Db) → r ≡ ok db → w.db ≡ db)
      → Ends w.db R (body w)
      → R (in_tx r failure body w).0 (in_tx r failure body w).1.db
  started-Ends (ok before) failure body w h k c =
      settle-Ends before (body w) (subst (λ db. Ends db R (body w)) (k before refl) c)
  started-Ends (err _) failure body w h k c = h

  -- A transaction answers as its body does.
  pub transaction-Ends :
      (failure : A) (body : Action (Ending A)) (w : World)
      → R failure w.db
      → ((w' : World) → w'.db ≡ w.db → Ends w'.db R (body w'))
      → let t = (begin_tx >>= λ tx. in_tx tx failure body) w in R t.0 t.1.db
  unfolding begin_tx ◌>>=◌
  transaction-Ends failure body w h c =
      let w' = (driver w).1 in
      started-Ends (begin_tx w).0 failure body w' (subst (R failure) (sym (driver-db w)) h)
        (λ db e. driver-db w ∙ begun (driver w).0 w.db db e) (c w' (driver-db w))
