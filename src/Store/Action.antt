-- ===== src/Store/Action.antt =====
-- What a handler does to the world, and the transactions that it opens.
use waitinglist.Model.{Result, ok, err}
use waitinglist.Store.{Db, World}
use waitinglist.Store.Monad.{M, driver}

-- A handler always answers. A repository method is an action whose answer is a `Result`.
abbrev pub Action : Type 0 → Type 0
Action A = World → A × World

unfoldable pub reply : {A : Type 0} → A → Action A
reply a w = (a, w)

infixl 10 ◌>>=◌ ◌>>◌
-- opening this opens `reply` too
unfoldable pub ◌>>=◌ : {A B : Type 0} → Action A → (A → Action B) → Action B
unfolding reply
◌>>=◌ m f w = f (m w).0 (m w).1

abbrev pub ◌>>◌ : {A B : Type 0} → Action A → Action B → Action B
m >> n = m >>= λ _. n

-- How the body of a handler leaves its transaction: after `Commit` succeeded, or otherwise. In the
-- second case the deferred `Rollback` takes effect.
pub data Ending (A : Type 0) : Type 0 where
  committed : A → Ending A
  rolled_back : A → Ending A

-- `BeginTx` hands out the tables as they stand.
unfoldable pub begin_tx : M Db
unfolding driver
begin_tx w = ((elim (driver w).0 [ ok _ ↦ ok w.db | err e ↦ err e ]), (driver w).1)

-- `tx.Commit()`
unfoldable pub commit : M (Unit {0})
unfolding driver
commit = driver

abbrev pub settle : {A : Type 0} → Db → Ending A × World → A × World
settle before (committed a, w) = (a, w)
settle before (rolled_back a, w) = (a, record w { db = before })

-- `defer tx.Rollback()` around a body that ran in the transaction
abbrev pub in_tx : {A : Type 0} → Result Db → A → Action (Ending A) → Action A
in_tx (err _) failure body w = (failure, w)
in_tx (ok before) failure body w = settle before (body w)
