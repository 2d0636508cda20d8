-- ===== src/Lib.antt =====
-- geo-hazard: the natural-hazard API of the Iberian Peninsula.
--
-- The program syncs three sources into one table by scheduled jobs, publishes each changed batch
-- to a transactional outbox, and turns batches into notifications of subscriptions.
--
-- * Jobs (app/core/jobs): a worker recovers stale rows, selects due jobs, and claims, runs and
--   reschedules each (`JobWorker._recover_stale_jobs`, `_process_due_jobs`, `_execute_job`).
--   Workers interleave at their transactions in Jobs/Workers.antt.
-- * Outbox (app/core/events): the dispatcher (`EventDispatcher.dispatch`) in Outbox/Dispatch.antt,
--   and the worker's `_process_batch`, `_handle_event` and the delays of `_run` in Outbox.antt.
-- * Hazards (app/hazards): the table of events in Hazards/Model.antt; `upsert_batch` and
--   `close_events` of the repository in Hazards/Upsert.antt and Hazards/Close.antt, its
--   `_apply_filters` and `list_page` in Hazards/Pages.antt. A statement of
--   the upsert fails when it would write a row for the second time; the check constraints of the
--   columns (the range of `severity`, the length of the texts) and what JSONB refuses (an infinite
--   number) are not modelled: of rows that the columns do not take, the upsert raises. The loop over the
--   chunks has the length of the batch as its fuel; a client that walks through the pages has as
--   fuel the pages that it asks for, of which one more than the rows is enough.
--   The queries that the API serves are in Hazards/Queries.antt: the list with its cursor as a text
--   (Hazards/Queries/Pagination.antt), the rows around a point (Near.antt), the clusters
--   (Clusters.antt) and the routes with the ranges of their parameters (Routes.antt). PostGIS,
--   Shapely, Base64, JSON, ISO times and UUIDs are arguments; a geometry without coordinates makes
--   a reply fail.
-- * Sources (app/hazards): the state of each source's sync (`record_success`, `record_failure`) and
--   its health in Sources.antt, and the report on all of them (`assess_sources`) in
--   Sources/Status.antt.
-- * Parsers (app/core/effis, app/core/ign, app/core/aemet): `parser.py` of each source in
--   Parsers/Effis.antt, Parsers/Ign.antt and Parsers/Aemet.antt, over JSON values (Base/Json.antt)
--   and XML elements (Parsers/Xml.antt). The libraries that read JSON, XML, dates and URLs are
--   arguments, and so is the search with the regular expression of the IGN.
-- * Clients (app/core/http.py, app/core/*/drivers/http.py): `get_capped` in Clients.antt, the
--   clients in Clients/Effis.antt, Clients/Ign.antt and Clients/Aemet.antt, the archive of AEMET in
--   Clients/Archive.antt, and the jobs with their clients in Clients/Jobs.antt. A network is a
--   function from requests to responses, whose stream may break off; the tar library is an
--   argument. The client of AEMET keeps the requests that it makes beside its result.
-- * Severity (app/hazards/services/severity.py): Hazards/Severity.antt, over a type of floats that
--   is an argument (Base/Floats.antt).
-- * Sync (app/hazards/use_cases, app/core/jobs/handlers): `SyncEffisUseCase`, `SyncIgnUseCase` and
--   `SyncAemetUseCase` in Sync/Effis.antt, Sync/Ign.antt and Sync/Aemet.antt over what they share
--   in Sync.antt, and the jobs that run them in Sync/Jobs.antt. `execute` starts after the
--   download; it has no value where it raises a ValueError. Shapely, `json.dumps` and SHA-256 are
--   arguments, and the payload of an event is a record in place of a dictionary.
-- * Notifications (app/notifications): the tables in Notifications/Model.antt, the repository of
--   the deliveries in Notifications/Deliveries.antt, and the delivery job with its three
--   transactions in Notifications/Deliveries/Run.antt; the rule of the episodes (`decide`) with its
--   repository in Notifications/Episodes.antt, their keys in Notifications/Episodes/Keys.antt, and the matching of a batch in
--   Notifications/Episodes/Batch.antt. A difference of times is written as a sum on
--   the other side of its comparison.
--   The orders of the administrator (`SubscriptionAdmin`) are in Notifications/Manage.antt and
--   below it, the areas that the command line accepts in Notifications/Areas.antt. The query of the
--   matches and the handler of a batch are in Notifications/Matching.antt, the texts and the message
--   for ntfy in Notifications/Texts.antt and Notifications/Messages.antt. Those take the stored
--   features in the form in which the matching writes them; what they raise on others is left out.
-- * Channels (app/core/channels): the guard of the endpoints, the signature and the sending in
--   Channels.antt, which keeps the URLs that are posted to beside the outcome.
-- * Analytics (app/analytics/concurrency.py): the limiter of `run_analytics` in Analytics.antt, as
--   steps of requests that interleave at the acquisition of a slot, the timeout and the end.
-- * Settings (app/core/config.py): the validators in Settings.antt.
--
-- Conventions: a table is the list of its rows, and a query or an update is an operation of
-- Base/Query.antt; what ORDER BY leaves tied stays in the order of the table. Times and spans are
-- natural numbers of microseconds, UUIDs are natural numbers. Readings of the clock, random
-- numbers, what other workers lock and what handlers of other modules do are arguments.
-- A user of a `float` takes its operations as an argument (Base/Floats.antt).
--
-- Not modelled: the JSON text of the envelope of a webhook and the making of credentials, the
-- command line and the limits on the rate of requests, which are input and output; the clients and
-- the sender without a network, and the registries that choose them (app/core/*/registry.py); the
-- export to GeoParquet and the queries of the analytics (app/analytics), which are DuckDB's; the set-up
-- of the database, the migrations and the scripts; the sleep of the loops and logging.
pub mod Base
pub mod Jobs
pub mod Outbox
pub mod Hazards
pub mod Notifications
pub mod Sources
pub mod Sync
pub mod Parsers
pub mod Clients
pub mod Channels
pub mod Settings
pub mod Analytics
