-- ===== src/Lib.antt =====
-- The sales journal: the rules by which clients are scored, found inactive and handed over to the
-- call tracking system, modelled from the Python code under backend/app.
--
-- The parts and how they interact:
--   * RFM (backend/app/services/rfm.py): Rfm holds the quintiles, the segments and the enrichment
--     of rows. Rfm/Order and Rfm/Laws describe the scores by the number of smaller values,
--     Rfm/Segments the clients of a segment.
--   * Evaluation (backend/app/services/inactivity.py, backend/app/services/churn_pilot.py):
--     Inactivity holds both `evaluate` functions, from the features of a client to its
--     eligibility, thresholds and signal.
--   * Episodes (backend/app/services/analytics_signal_store.py): Signals holds the rows and the
--     audit record, Signals/Steps the two passes of `reconcile_batch` for one client, which take
--     the evaluator's decision. Signals/Steps/Episodes is about one run, Fits and Repeat about a
--     repeated one.
--   * Schedule (backend/app/services/churn_schedule.py, backend/app/models/churn_schedule.py):
--     Schedule/Clock the wall clock, Schedule/Config the settings, Schedule/Control the control
--     row with `change` and its log, Schedule/Jobs `enqueue` and `guard_job`, Schedule/Receipts
--     `acknowledge`.
--   * Command line (backend/app/churn_automation.py): Schedule/Lifecycle has what each command
--     does to a job; its steps use `guard_job` and `acknowledge`.
--   * Source (backend/app/services/analytics_source.py): Source decides up to which day a
--     calculation may look at the imports or at the stored sales; Source/Bounds is about the
--     declared periods.
--   * Worker (backend/app/services/analytics_signal_worker.py): Worker holds the run, its reuse
--     and the checks of a checkpoint, Worker/Batch `run_batch` and `record_failure`, which take
--     Source's decision. Worker/Batch/Moves is the abstract machine that the batches implement.
--   * Catalog (backend/app/services/catalog_sync_control.py,
--     backend/app/services/catalog_sync_worker.py): Catalog holds the control row and its
--     commands, Catalog/Refresh one page of the reconciliation, Catalog/Run the worker's run,
--     Catalog/Run/Ends how it ends, Catalog/Run/Machine the row over time, one transaction after
--     the other, with Writes and Settled about it. In Run a run is given as the list of its
--     rounds.
--   * Season (backend/app/seasonality.py): Season holds the commands and the loop over batches.
--   * Admission (backend/app/services/product_analytics_runtime.py): Admission holds the steps of
--     a task of `heavy_operation`.
--   * Scenario (backend/app/services/scenarios.py, backend/app/services/scenario_retry.py,
--     backend/app/services/scenario_periods.py): Scenario holds the plan of a scheduled run and
--     the runs of one scenario.
--   * Synchronisation (backend/app/services/catalog_sync.py,
--     backend/app/services/catalog_lookup_client.py): Catalog/Client holds the client,
--     Catalog/Sync the walk over a page and the storage of its answers, Catalog/Sync/Page one
--     page, Catalog/Sync/Loop `synchronize`. Catalog/Sync/Laws, Marks and Saved are about one
--     page, Runs, Bounds, Covers and Complete about a whole run.
--   * Release automation (backend/app/services/analytics_automation.py,
--     backend/app/services/analytics_release_guard.py): Automation has the commands on the policy
--     and the identities, Automation/Release the reasons against a release,
--     Automation/Release/Issue its candidates and the release itself, Automation/Guard the check
--     of a release before its delivery, which reads the policy and the identities again.
--     Automation/Laws and Automation/Reviews are about the commands, Automation/Release/Current
--     about a release and its check.
--   * Delivery (backend/app/services/analytics_delivery.py): Delivery numbers the publications.
--   * Import (backend/app/importer/parser.py): Markup/Stream and Markup/Tables are the two readers
--     of HTML tables, Import the search for the header in any table and the rows below it.
--   * Prelude: tests on numbers and texts, lists, integers, results and options.
--
-- The model: a database session is passed on as a value. A call that raises returns an error beside
-- the state that the session leaves, or, where the caller's transaction is rolled back, the error
-- alone. Rows are records, tables lists in the order of insertion.
--
-- Bounds and units: numbers are unbounded, as in Python. Days are day numbers, and instants counts of
-- microseconds, or of seconds in Catalog and Scenario. A median, a deviation or a quartile of whole
-- days is a multiple of a quarter day and is kept in quarters; money is in kopecks, a confidence in
-- millionths. Only the loop of `synchronize` has fuel: a round for each row that it may scan and one
-- more, which Catalog/Sync/Bounds shows to be enough. Each other loop runs over a list.
--
-- Parameters stand for code outside the repository: the clock of a time zone, digests and signatures,
-- the transformation of texts, the reading of a single cell, and the network. For the churn commands,
-- what a batch of the analytical worker and a release return is an argument of the step.
--
-- Not modelled: floating point scores and confidences, SQL beyond the rows that a query selects,
-- locks, the network, files, routes and the frontend. The digits of a time are ASCII digits, and the
-- columns of a signal that no branch reads are kept together, those of the client as one text and those
-- of the run as another.
pub mod Prelude
pub mod Rfm
pub mod Scenario
pub mod Schedule
pub mod Source
pub mod Worker
pub mod Admission
pub mod Automation
pub mod Catalog
pub mod Delivery
pub mod Import
pub mod Inactivity
pub mod Markup
pub mod Season
pub mod Signals
