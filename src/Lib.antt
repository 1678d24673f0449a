-- ===== src/Lib.antt =====
-- Verification of the run lifecycle of RFP X-Ray, the document-only tender analysis service.
--
-- The program takes a package of tender documents, has it parsed by a paid provider and extracted
-- by a language model, verifies the citations, and must delete every copy of the sources that it
-- made before it shows a result. What decides all of this is the lifecycle of a run: one record,
-- changed only by compare-and-set operations of the run store, under leases and a fence; a ledger
-- of paid attempts inside the record; a budget for all runs; and a cleanup that revokes the worker,
-- deletes the copies and closes the run on evidence. These parts are modelled here.
--
-- - Errors and Contracts: src/lib/errors.ts, src/contracts/analysis.ts, src/contracts/api.ts.
-- - Runs.Types: src/lib/runs/types.ts, the record of a run with all its fields.
-- - Runs.Transition: src/lib/runs/state-machine.ts; `transitions` is the table and
--   `transition_run` is transitionRun. Runs.Transition.Lives follows one run through everything
--   that rewrites it, its forced ends included.
-- - Runs.Store: src/lib/runs/store.ts, the class InMemoryRunStore. The store is the pair of its two
--   maps, each an association list in the order of insertion. `create`, `update`,
--   `update_if_processing_lease_expired`, `get`, `remove` and `clear` are the methods of these
--   names; the claims, heartbeats and settlements of Runs.Store.Claims are functions of the current
--   record that `try_claim` applies; Runs.Store.Listing has the three listings.
-- - Cleanup: src/lib/cleanup.ts; `execute_cleanup`, `cleanup_gate` and `cleanup_disclosure`.
-- - Ledger: src/lib/runs/paid-cost-ledger.ts; each operation is an update of the store under the
--   worker's claim.
-- - Budget: src/lib/security/budget.ts, the class InMemoryBudgetGuard.
-- - Expiry and Expiry.Runner: src/lib/runs/expiry.ts; `cleanup_run` is cleanupRun, `revoke` and
--   `finish` are the functions it hands to its two updates, `expire_due_runs` is expireDueRuns
--   with `sweep` for its loop.
-- - Watchdog, Watchdog.Calls and Watchdog.Runner: src/lib/runs/source-cleanup-watchdog.ts; the
--   operations that mark the progress of a paid parse are `arm_source_cleanup_watchdog`,
--   `record_source_cleanup_watchdog_scheduled`, `mark_source_provider_call_started`,
--   `mark_source_provider_result_captured` and `record_source_cleanup_attempt`;
--   `run_source_cleanup_watchdog` is one poll of the watchdog, which deletes the copies of a
--   source and ends in `cleanup_run` once the worker's lease is over. Watchdog.Receipts says
--   which cleanup receipts a merge keeps.
-- - Scheduling and Scheduling.Calls: src/lib/runs/scheduler.ts; every start that is asked of the
--   workflow service is kept in a list, in order.
-- - Admission: src/lib/runs/create.ts; Admission.Attempts has admitQueuedRun, Admission.Failure
--   failAdmission and failStrandedAnalysisDispatch, Admission.Recovery recoverUnscheduledRuns, and
--   Admission.Creating createRun from the call of the store on. `Outside` holds what the services
--   answer, and `meanwhile` what other tasks do while a call is awaited. The check of the deadline
--   is left out, and so are the readiness gates before the creation but that on the maintenance.
-- - Scheduling.Heartbeat: src/lib/runs/processing-heartbeat.ts, as a machine with a timer, a call in
--   flight and a failure.
-- - Maintenance: src/lib/health/maintenance.ts, and assertRecentMaintenanceHeartbeat of
--   src/lib/runs/create.ts.
-- - Publication: the end of processRun in src/lib/pipeline.ts, from the last deletions to the stored
--   result; `commit_result` is composed of the two updates, the settlement and the gates between.
--   Publication.Withdrawal is its catch block, `withdraw`, with mergeAttemptCosts.
-- - Uploads and its children: src/lib/storage/uploads.ts, the class LocalUploadStorage; a token leads
--   to the path of its grant, as both maps of the source hold the same grant objects.
--   Uploads.Bodies has acceptPut and readBoundedStream.
-- - Citations: src/lib/evidence/citations.ts; Citations.Repair has the match of a quote with a page
--   whose words the PDF has split, Citations.Pages findPage and verifyCitation, Citations.Expected
--   verifyCitationOnExpectedPage. Regular expressions over Unicode classes are arguments.
-- - Sources: src/lib/source-validation.ts; Sources.Reader and Sources.Loads are fetchCanadaBuysPdf and
--   loadSource of src/lib/storage/source-reader.ts, over the storage of Uploads. A URL is the record
--   of its parts; its parser and printer are arguments.
-- - Answers: src/lib/analysis/closed-world.ts; Answers.Ranking has its sort by score,
--   Answers.Supports which units support an answer, Answers.Grounded where an answer comes from.
-- - Sessions: src/lib/security/auth.ts and the comparison of digests of src/lib/crypto.ts; digests
--   and encodings are an argument. Sessions.Splitting has the split of a text, Sessions.Lawful what
--   the platform documents of them, Sessions.Issued the session that a later request carries,
--   Sessions.Trusted whom a request may come from, and Sessions.Challenge the Turnstile challenge.
-- - Costs: src/lib/cost-estimates.ts with assertPaidProviderPlan of src/lib/pipeline.ts, and
--   Costs.Policy src/lib/workflow-cost-policy.ts; the floating-point numbers are an argument.
-- - Parsing and Parsing.Batches: the paid parse of a document and the loop over the batches, in
--   processRun of src/lib/pipeline.ts; the watchdogs are those of Watchdog. The parses of a batch
--   follow one another, each under `meanwhile`.
-- - PageIndex: buildChunks of src/lib/pdf/page-index.ts. Its inner loop runs on fuel, the length of
--   the paragraph, which is enough since every round moves the offset on.
--
-- Conventions. A method takes the state and returns the next one with its answer; an exception is
-- an `err`, which leaves the state as the source leaves it. Instants are milliseconds since 1970,
-- as the ISO texts of the source stand for them. Records are values, so that structuredClone has no
-- counterpart. What the source takes from the platform is an argument: the clock, random ids,
-- SHA-256, the digest of a request, the collation of localeCompare, the outcome of a storage
-- deletion. `meanwhile` in `cleanup_run`, and `while_deleting` and `while_closing` in the run of a
-- watchdog, are whatever other tasks do to the store while deletions are awaited. Loops are
-- structural recursions over lists. Fuel is used for the printing of a decimal numeral,
-- where the number's successor bounds the count of its digits, and for the slices of a paragraph.
-- Amounts of money are natural numbers of micro-dollars; an input that the source rejects as not
-- finite or negative is `none`.
--
-- Not modelled: the SQL of src/db/neon-store.ts and of NeonBudgetGuard, which a database
-- executes; the rest of the pipeline (the staging loop, the extraction and the updates between
-- them), the providers and the remote storage adapters (src/lib/pipeline.ts, src/lib/providers,
-- the rest of src/lib/storage), which call outside services; the rest of src/lib/analysis,
-- which is text heuristics; the routes, the workflows and the user interface. In a cleanup, the deadline
-- callback and the sweep of incoming uploads at the end of expireDueRuns are left out. Payloads
-- that the lifecycle only stores or clears (results, manifests, citation receipts, audits) are
-- snapshot texts, and the texts that explain a cost estimate are left out.
mod Base
pub mod Errors
pub mod Contracts
pub mod Runs
pub mod Cleanup
pub mod Ledger
pub mod Budget
pub mod Expiry
pub mod Watchdog
pub mod Scheduling
pub mod Admission
pub mod Uploads
pub mod PageIndex
pub mod Citations
pub mod Sources
pub mod Parsing
pub mod Costs
pub mod Sessions
pub mod Answers
pub mod Maintenance
pub mod Publication
mod Tests
