-- ===== src/Parsing/Stops.antt =====
-- src/lib/pipeline.ts: what the loop over the batches gives, and that it stops after a failure.
use monidhackson.Base.{ℕ, ◌≤◌, ◌≡◌, ◌⊎◌, true, false, List, [], ◌++◌, map, any, length}
use monidhackson.Runs.Types.{Instant}
use monidhackson.Parsing.{ParseOutcome}
use monidhackson.Parsing.Batches.{IndexedSource, monid_parse_concurrency, has_failed, not_sent}

abbrev pub index_of : ParseOutcome → ℕ
index_of o = o.document_index

abbrev pub source_index : IndexedSource → ℕ
source_index d = d.document_index

-- One outcome for each document, in order; those before the last batch that was sent are without
-- a failure; if documents were not sent, that batch has one.
pub record IsStopped (now : Instant) (ds : List IndexedSource) (outcomes : List ParseOutcome)
    : Type 0 where
  pub indices : map index_of outcomes ≡ map source_index ds
  pub done : List ParseOutcome
  pub last : List ParseOutcome
  pub unsent : List IndexedSource
  pub parts : outcomes ≡ done ++ (last ++ map (not_sent now) unsent)
  pub clean : any has_failed done ≡ false
  pub bounded : length last ≤ monid_parse_concurrency
  pub stopped : (unsent ≡ []) ⊎ (any has_failed last ≡ true)
