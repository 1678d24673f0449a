-- ===== src/Costs/Policy.antt =====
-- src/lib/workflow-cost-policy.ts: how many events, step attempts and handler calls the workflows of
-- a run may make. The check at the end of the source is a theorem below.
use monidhackson.Base.{ℕ, ◌+◌, ◌-◌, ◌*◌, ◌/◌, ◌≤◌, arith}

abbrev pub workflow_sleep_event_envelope : ℕ
workflow_sleep_event_envelope = 2

abbrev pub workflow_run_event_envelope : ℕ
workflow_run_event_envelope = 3

abbrev pub workflow_step_attempt_event_envelope : ℕ
workflow_step_attempt_event_envelope = 3

abbrev pub workflow_generated_route_max_duration_seconds : ℕ
workflow_generated_route_max_duration_seconds = 300

abbrev pub cleanup_step_max_retries : ℕ
cleanup_step_max_retries = 0

abbrev pub cleanup_retry_max_attempts : ℕ
cleanup_retry_max_attempts = 1

abbrev pub source_cleanup_watchdog_registrations_per_batch : ℕ
source_cleanup_watchdog_registrations_per_batch = 4

abbrev pub source_cleanup_watchdog_max_package_workflows : ℕ
source_cleanup_watchdog_max_package_workflows = 2

abbrev pub source_cleanup_watchdog_max_polls : ℕ
source_cleanup_watchdog_max_polls = 3

abbrev pub source_cleanup_watchdog_step_max_retries : ℕ
source_cleanup_watchdog_step_max_retries = 0

abbrev pub step_attempt_event_envelope : ℕ → ℕ
step_attempt_event_envelope max_retries = (max_retries + 1) * workflow_step_attempt_event_envelope

abbrev pub step_attempts : ℕ → ℕ
step_attempts max_retries = max_retries + 1

abbrev pub source_cleanup_watchdog_max_step_attempts : ℕ
source_cleanup_watchdog_max_step_attempts =
    source_cleanup_watchdog_max_polls * step_attempts source_cleanup_watchdog_step_max_retries

abbrev pub analyze_run_max_step_attempts : ℕ
analyze_run_max_step_attempts = step_attempts 0

abbrev pub retry_cleanup_max_step_attempts : ℕ
retry_cleanup_max_step_attempts =
    cleanup_retry_max_attempts * step_attempts cleanup_step_max_retries

abbrev pub source_cleanup_watchdog_max_lifecycle_events : ℕ
source_cleanup_watchdog_max_lifecycle_events =
    source_cleanup_watchdog_max_polls
      * step_attempt_event_envelope source_cleanup_watchdog_step_max_retries
    + (source_cleanup_watchdog_max_polls - 1) * workflow_sleep_event_envelope
    + workflow_run_event_envelope

abbrev pub analyze_run_max_lifecycle_events : ℕ
analyze_run_max_lifecycle_events = workflow_run_event_envelope + step_attempt_event_envelope 0

abbrev pub retry_cleanup_max_lifecycle_events : ℕ
retry_cleanup_max_lifecycle_events =
    workflow_run_event_envelope
    + cleanup_retry_max_attempts * step_attempt_event_envelope cleanup_step_max_retries
    + (cleanup_retry_max_attempts - 1) * workflow_sleep_event_envelope

abbrev pub analyze_run_max_flow_handler_attempts : ℕ
analyze_run_max_flow_handler_attempts = 2

abbrev pub retry_cleanup_max_flow_handler_attempts : ℕ
retry_cleanup_max_flow_handler_attempts = 2

abbrev pub source_cleanup_watchdog_max_flow_handler_attempts : ℕ
source_cleanup_watchdog_max_flow_handler_attempts = 6

abbrev pub workflow_base_event_envelope : ℕ
workflow_base_event_envelope = 1000

abbrev pub workflow_events_per_document : ℕ
workflow_events_per_document = 0

abbrev pub workflow_base_step_attempt_envelope : ℕ
workflow_base_step_attempt_envelope =
    analyze_run_max_step_attempts
    + retry_cleanup_max_step_attempts
    + source_cleanup_watchdog_max_package_workflows * source_cleanup_watchdog_max_step_attempts

abbrev pub workflow_base_flow_handler_attempt_envelope : ℕ
workflow_base_flow_handler_attempt_envelope =
    analyze_run_max_flow_handler_attempts
    + retry_cleanup_max_flow_handler_attempts
    + source_cleanup_watchdog_max_package_workflows
      * source_cleanup_watchdog_max_flow_handler_attempts

abbrev pub workflow_base_function_attempt_envelope : ℕ
workflow_base_function_attempt_envelope =
    workflow_base_step_attempt_envelope + workflow_base_flow_handler_attempt_envelope

abbrev pub workflow_function_attempts_per_document : ℕ
workflow_function_attempts_per_document = 0

-- The watchdog workflows of a package of at most five documents, one for each started batch.
abbrev package_workflows : ℕ → ℕ
package_workflows documents =
    (documents + source_cleanup_watchdog_registrations_per_batch - 1)
    / source_cleanup_watchdog_registrations_per_batch

-- The event envelope covers what the workflows of a run make.
pub workflow_events_covered :
    (documents : ℕ)
    → documents ≤ 5
    → analyze_run_max_lifecycle_events
        + retry_cleanup_max_lifecycle_events
        + package_workflows documents * source_cleanup_watchdog_max_lifecycle_events
      ≤ workflow_base_event_envelope + workflow_events_per_document * documents
workflow_events_covered documents few = omega arith
