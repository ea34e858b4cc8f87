-- ===== src/Store/Monad.antt =====
-- Repository methods: they read and write the world, and return a value or an error.
use waitinglist.Prelude.{◌+◌, String, Bool, true, false, List, [], ◌∷◌}
use waitinglist.Model.{Time, Error, Result, ok, err, failed}
use waitinglist.Model.Clock.{whole_seconds}
use waitinglist.Store.{Db, World}

abbrev pub M : Type 0 → Type 0
M A = World → Result A × World

module _ {A : Type 0} where
  unfoldable pub pure : A → M A
  pure a w = (ok a, w)

  unfoldable pub raise : Error → M A
  raise e w = (err e, w)

unfoldable pub answer : List Bool → M (Unit {0})
answer [] w = (ok tt, w)
answer (true ∷ later) w = (err failed, record w { faults = later })
answer (false ∷ later) w = (ok tt, record w { faults = later })

-- One answer of the database driver, which may be an error.
unfoldable pub driver : M (Unit {0})
unfolding answer
driver w = answer w.faults w

unfoldable pub get_db : M Db
get_db w = (ok w.db, w)

unfoldable pub put_db : Db → M (Unit {0})
put_db db w = (ok tt, record w { db = db })

-- `time.Now()`
unfoldable pub time_now : M Time
time_now w = (ok (w.clock w.ticks), record w { ticks = w.ticks + 1 })

-- `strftime('%Y-%m-%dT%H:%M:%SZ', 'now')`
unfoldable pub sql_now : M Time
sql_now w = (ok (whole_seconds (w.clock w.ticks)), record w { ticks = w.ticks + 1 })

-- `uuid.New().String()`
unfoldable pub new_uuid : M String
new_uuid w = (ok (w.uuids w.drawn), record w { drawn = w.drawn + 1 })

module _ {A B : Type 0} where
  abbrev pub proceed : Result A → (A → M B) → M B
  proceed (ok a) f w = f a w
  proceed (err e) f w = (err e, w)

  infixl 10 ◌>>=◌ ◌>>◌
  -- opening this opens the actions of this file too
  unfoldable pub ◌>>=◌ : M A → (A → M B) → M B
  unfolding pure raise driver get_db put_db time_now sql_now new_uuid
  ◌>>=◌ m f w = proceed (m w).0 f (m w).1

  abbrev pub ◌>>◌ : M A → M B → M B
  m >> n = m >>= λ _. n
