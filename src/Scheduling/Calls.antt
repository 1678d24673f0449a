-- ===== src/Scheduling/Calls.antt =====
-- The state that admission and scheduling work on: the run store, the budget's reservations, and
-- the starts that were asked of the workflow service, in order.
use monidhackson.Base.{String, List, [], ◌∷◌, ◌++◌}
use monidhackson.Runs.Store.{InMemoryRunStore}
use monidhackson.Budget.{Reservations}

pub data Call : Type 0 where
  start_analysis start_cleanup : String → Call

pub record Service : Type 0 where
  pub store : InMemoryRunStore
  pub reservations : Reservations
  pub calls : List Call

abbrev pub with_store : Service → InMemoryRunStore → Service
with_store w s = record w { store = s }

abbrev pub called : Call → Service → Service
called c w = record w { calls = w.calls ++ c ∷ [] }
