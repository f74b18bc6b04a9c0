-- ===== src/Lib.antt =====
-- Process metrics platform: Jira data is loaded, cleaned and turned into flow metrics by a Dagster
-- pipeline; an API serves them, and Metabase shows them. This library models the parts whose logic
-- is the program's own, and states what makes each of them correct.
--
-- Registry: pipelines/utils/metric_registry.py. The calculations ask it for the ids of metrics,
--   projects and units. State: the process-wide cache (a dictionary by key, each entry with its
--   expiry), the tables that the SQL statements read, and counters for time.time() and for the
--   statements sent. Every function is an action on that state; a SQL statement is a function of
--   the tables; ValueError is a result. Database, Cache, Ids, Batch and Units hold the functions,
--   under their Python names without the leading underscore; Coherence, Refinement, Projects,
--   Batch.Collect, Batch.Resolve, Units.Lookup and Ttl the proofs.
-- Slicer: pipelines/utils/smart_slicer.py. Graph builds the graph of tables from the foreign keys
--   that the database inspector reports; Search is the breadth-first search of `_find_path`, on
--   fuel: two rounds more than the graph has edges, as every queued path marks a new table. Mapping is
--   `get_slice_mapping`, with the caches of the object as its state and the text of its query; an
--   exception, which it logs, is None.
-- Commitment: pipelines/calculations/commitment_resolver.py. Rules is the choice of a rule in
--   Python, Queries the two SQL statements; the flow metrics take the start and end columns of a
--   board from them.
-- Schedules: pipelines/jobs/schedules.py. Clock prints the buckets, Runs asks for the active runs,
--   Sensors evaluates a sensor at a time, over the runs of the instance, from a cursor. Dagster's
--   run storage is the parameter `get_run_records`; `IsRunStorage` is what Dagster documents of it.
--   Jobs has the jobs, each with its name and the assets that it selects.
-- Partitions: pipelines/partitions.py. Keys has the configured project keys and the two functions
--   that turn them into partitions, Credentials is pipelines/utils/db_config.py; the partitions of Dagster's instance are the state, and
--   `IsInstance` is what Dagster documents of it.
-- Transform: pipelines/utils/transformations.py. Deduplicate keeps one issue of every key,
--   Validate checks the fields of a clean issue.
-- Auth: app/services/admin_auth.py. Base64 has Python's codec, Strings what is used of `str`,
--   Environment the settings, Sessions the tokens, Passwords the passwords and the Authorization
--   header. Python's errors are values. The operations of hmac, json, datetime.fromisoformat, of
--   int and str, and bcrypt are parameters; `IsRuntime` and `ReadsBack` are what they promise.
-- Urls: app/services/url_safety.py. Validate has the checks of an instance URL and the settings that
--   steer them; the functions of urllib.parse, ipaddress and fnmatch are parameters.
-- Strings has the operations of `str` that Partitions, Auth and Urls share, Common what all
--   parts share.
--
-- Jira: pipelines/utils/__init__.py, with what pipelines/utils/transformations.py makes of its results.
--   Datetime reads the datetimes, Issue the issues, Sprint the sprints, Changelog the histories; Shape says
--   what an issue of Jira looks like.
-- Metrics: pipelines/utils/metrics.py. Times has the lead and cycle times, Velocity the velocity of a sprint,
--   Percentiles those of lead times, WorkStart the start of work and Throughput what is completed on a day. Floats
--   are exact fractions before they are rounded.
-- Metabase: bi/providers/metabase. Client has the requests, the headers and the log of what happened, of
--   which the server and the clock are functions; Pack the validation of the pack; Tags the tags of a
--   query and their definitions; Filters, Layout and Dashboards the dashboards; Collections and
--   Cards what they show; Metadata and Database the target database; Polling the two loops that wait, on fuel of a
--   round for each second and one more; Provision the whole of it.
-- Documents has the values of the json module with Python's operations on them, which Auth, Jira and
--   Metabase share.
--
-- Numbers are natural numbers, instants numbers of seconds or microseconds. A text that is only
-- compared and joined is a String; a text that is taken apart is the list of its code points.
-- A UUID is its text, so it counts as true in a condition.
--
-- Not modelled: the calculations on polars data frames, the assets and their SQL, the clients
-- of Jira, the handlers of the API, the entry point bi/main.py, the administration pages, scripts and
-- configuration. Threads are left out:
-- the lock of the cache makes each access one step, and the model has one thread.
pub mod Common
pub mod Documents
pub mod Strings
pub mod Auth
pub mod Commitment
pub mod Jira
pub mod Metabase
pub mod Metrics
pub mod Partitions
pub mod Registry
pub mod Schedules
pub mod Slicer
pub mod Transform
pub mod Urls
