-- ===== src/Waitlist/Scheduler/Age.antt =====
-- The window of the scheduler that an entry must have behind it: what `processProject` lets in has waited.
use waitinglist.Prelude.{◌≡◌, ◌⊎◌, ℕ, ◌+◌, ◌≤◌, ◌<◌, String, List, In}
use waitinglist.Model.{WaitingListEntry}
use waitinglist.Store.{Db, World}
use waitinglist.Waitlist.Scheduler.Batch.{Stamped}
use waitinglist.Repository.{Repository}
use waitinglist.Repository.Contract.{Contract}

-- The weighted time of an entry plus the window is not after one of the clock's next `rounds` readings.
record Elapsed (window : ℕ) (w : World) (rounds : ℕ) (e : WaitingListEntry) : Type 0 where
  reading : ℕ
  soon : reading < w.ticks + rounds
  elapsed : e.weighted_created_at + window ≤ w.clock reading

tick : World → World
tick w = record w { ticks = w.ticks + 1 }

-- An entry has waited for the window: its weighted time plus the window was not after a reading of the
-- clock that had been made by then.
pub record HasWaited (window : ℕ) (by_then : World) (e : WaitingListEntry) : Type 0 where
  pub reading : ℕ
  pub made : reading < by_then.ticks
  pub elapsed : e.weighted_created_at + window ≤ by_then.clock reading

abbrev pub HaveWaited : ℕ → List WaitingListEntry × World → Type 0
HaveWaited window (es, w) = (e : WaitingListEntry) → In e es → HasWaited window w e

module _ ⦃repo : Repository⦄ ⦃c : Contract repo⦄ where
  -- The tables after a round, by those before it and the world in which its transaction begins: no
  -- change, or a batch is let in whose entries have all waited by then.
  abbrev pub WaitedOutcome : ℕ → World → Db → String → Db → Type 0
  WaitedOutcome window begun before slug db =
      (db ≡ before)
      ⊎ ((batch : List WaitingListEntry) × HaveWaited window (batch, begun)
          × Stamped before slug batch db)
