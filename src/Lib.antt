-- ===== src/Lib.antt =====
-- The web console of Elastic-Job-Lite, the scripts of
-- elastic-job-lite-console/src/main/resources/console/js, called js/ below; what its requests do, from
-- elastic-job-lite-console/src/main/java/io/elasticjob/lite/console, called console/, and from
-- elastic-job-lite-lifecycle/src/main/java/io/elasticjob/lite/lifecycle, called lifecycle/; and the
-- sharding of the jobs that it shows, from elastic-job-lite-core/src/main/java/io/elasticjob/lite, called
-- lite/.
--
-- The console is one page, index.html, into which the scripts load the others. A script runs a
-- function when its page is ready: it renders a table, and binds the buttons of the rows by
-- `$(document).on("click", selector, handler)`. A handler reads attributes of the button that was
-- clicked, opens dialogs and sends requests to the REST server; the answer refreshes tables and
-- counters. An operation that shuts down or removes something binds the confirm button of a dialog to
-- the function that sends the request.
--
-- Browser models what the scripts take from the browser, from jQuery and from its plugins, which
-- are third-party code (console/lib). A call is a value of `Call`; a function that is handed over is
-- a value of `Handler` or `Success`, with the variables that it closes over. The record `Browser`
-- is a parameter of every page: a state, what a call does to it, what the scripts read from it,
-- and four laws: calls are recorded in order; `.on` adds a handler and `.off` takes all of the
-- selector away, and no other call touches what is bound to the document; `.text(v)` alone sets the
-- text of a counter of the sidebar; the classes of the body and of the content are those added and
-- not removed since. Browser/Form has what fills a form that the user has not touched. Browser/Simple
-- is a browser that meets all of it. An element is named by its selector, and what the form
-- validators answer is an input.
--
-- A script that changes state is a function on the state of the browser, one definition for each
-- function of the source and one for each function that it hands over, named like its effect
-- (bindRemoveServerButton is bind_remove_server_button, its handler remove_server, the handler of
-- the confirm button confirm_remove_server, the answer server_removed). A request with
-- `async: false` is the call get_sync, whose answer is read from the state; those with which the rule
-- of a new name reads the list of centers, on behalf of the validator, are read without a call.
--
-- The REST server, Jersey in Jetty, gives a request to a method of one of six classes by its request
-- method and its path. Rest has the annotations of the classes as data; the record Server, a parameter,
-- is what reads them, with what JAX-RS documents of it as its laws. Operations is what the methods then
-- do to the registry center, Statistics what the tables are told of it, and Registry/Below the registry
-- center as the scheduler of one job sees it, so that a button can be followed to the instances that
-- get items. The registry center is the one that is connected; that choice is in Centers.
--
-- The instances of a job share its items by nodes of the registry center, ZooKeeper. The record
-- Registry is a parameter: the nodes, of one job or of all, what the client's calls do to a
-- state, and the documented laws of them; Registry/Memory is a registry that meets it. When the
-- flag leader/sharding/necessary stands, the leader resets the nodes of the items, asks a strategy
-- to share the items among the available instances, and writes their owners in one transaction,
-- which also deletes the flag. Then each instance reads its items, marks them as running while it
-- works on them, and takes over items of instances that have crashed. The record Peers has what
-- happens while the code waits, and what it reads of the job's configuration.
--
--   Prelude            shared names, tests, lists, programs as functions on a state
--   Browser            the interface, its calls, and the small browser of the tests
--   Index              js/index.js
--   Util/Common        js/util/common.js; Language is the switch between the languages
--   Util/Dashboard     js/util/dashboard.js; Tags are its counters, Look its marks and skins
--   Util/Formatter     js/util/formatter.js: dates; Clock reads them back. Pickers has the rest
--   Util/Idioms        call sequences that stand in many of the scripts
--   Status/Servers     js/status/server/servers_status_overview.js
--   Status/Server      js/status/server/server_status_detail.js
--   Status/Jobs        js/status/job/jobs_status_overview.js
--   Status/Job         js/status/job/job_status_detail.js
--   Status/Config      js/status/job/job_config.js; Port is the rule of the monitor port
--   Global/RegCenter   js/global/registry_center.js; Names is the rule of a new name
--   Global/DataSource  js/global/event_trace_data_source.js
--   History/Trace      js/history/job_event_trace_history.js; Markup and Link are its long messages
--   History/Status     js/history/job_status_history.js
--   Console            all scripts together: which function runs for which event, answer and
--                      page; Steps are the runs of the console in any order of events, Bindings,
--                      Answers and Scripts what each of them binds, Requests which requests each sends,
--                      Filled the form of a job, Links what piles up
--   Centers            RegistryCenterConfigurationServiceImpl, in
--                      elastic-job-lite-console/src/main/java/io/elasticjob/lite/console; Session
--                      is RegistryCenterRestfulApi, Activated the places of the configurations,
--                      Shown what the dashboard makes of it
--   Registry           the interface of the registry center, and one in memory; Below is the part of it
--                      below a job
--   Rest               console/restful and lifecycle/restful/RestfulServer.java; JaxRs is the interface
--                      of the server, Url has the paths, Served the addresses of the methods,
--                      Addresses how the scripts write them, Buttons the requests of the operations
--   Operations         lifecycle/internal/operate, and the removal of lifecycle/internal/settings;
--                      Servers and Instances are what is left of their nodes, Seen what the scheduler
--                      makes of it, Misrouted a job with an unlucky name
--   Statistics         lifecycle/internal/statistics: Jobs and Items the status of a job and of an item,
--                      Shown, OnServer and Items/Disabled the status after an operation
--   Sharding/Average   lite/api/strategy/impl/AverageAllocationJobShardingStrategy.java; Exactly has
--                      the items, Balance the sizes of the shares
--   Sharding/Odevity   lite/api/strategy/impl/OdevitySortByNameJobShardingStrategy.java
--   Sharding/Rotate    lite/api/strategy/impl/RotateServerByNameJobShardingStrategy.java; Int32 is
--                      its arithmetic
--   Sharding/Service   lite/internal/sharding/ShardingService.java and what it calls of
--                      JobNodeStorage, InstanceService and ServerService; Run is the whole
--                      operation, Reset, Persist and Flags its steps, Exactly, Owners, Found and
--                      Once its outcome, Failed a strategy that fails, Offline ReconcileService,
--                      Available the instances that get items
--   Sharding/Election  lite/internal/election/LeaderService.java; Leader is the election, Block the
--                      wait for it
--   Sharding/Items     lite/internal/sharding/ExecutionService.java and
--                      lite/internal/failover/FailoverService.java
--   Sharding/Facade    the items of a run, from lite/internal/schedule/LiteJobFacade.java; Listed,
--                      Named and Returns are its steps, Apart what two instances run, Cleared
--                      what is left when failover is switched off
--   Sharding/Crash     lite/internal/failover/FailoverListenerManager.java; Unnoticed is a server whose
--                      last instance has gone
--   Tests              runs at concrete inputs
--
-- Texts that are taken apart are lists of code units, other texts are strings. Numbers are natural
-- numbers; parseInt reads exact integers; a hash is its 32 bits, and the rotation adds and takes
-- remainders of 32-bit integers. Loops are recursion over lists or over the rounds that are left. The
-- fuel of the decimal numeral of n is n + 1: more than the digits of n. The fuel of the search for a text
-- of separators alone is its length, three times what it takes. The wait for a leader has any
-- fuel; two rounds are enough where this instance may stand for election.
-- Reads of the registry center see the writes before them: its cache is taken to be up to date.
--
-- Not modelled: the libraries, the html pages and the translations; what bootstrap-table and
-- bootstrapValidator do with the columns and rules that they are handed; of the
-- REST server its filters, its exceptions, the search of the event trace and the data sources; of
-- lifecycle/ reading and changing the settings of a job, and the lists and counts of the statistics; of
-- the scheduler the two waiting loops of the sharding, the
-- other listeners of the registry center, scheduling, configuration and event trace, which surround what
-- is modelled; and the Spring integration and the examples.
pub mod Prelude
pub mod Browser
pub mod Util
pub mod Status
pub mod Global
pub mod History
pub mod Index
pub mod Console
pub mod Centers
pub mod Registry
pub mod Rest
pub mod Operations
pub mod Statistics
pub mod Sharding
pub mod Tests
