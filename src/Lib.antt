-- ===== src/Lib.antt =====
-- Warpbox: a WebDAV proxy in front of the TorBox API, modelled from its Go source.
--
-- A worker copies the listings of the account into a table of files every few minutes; requests for
-- directories are answered from the table, and a request for a file is answered with the bytes of
-- a CDN URL, which the API gives. Every call of the API goes through one queue that spaces the
-- calls. The parts, and the files that model them:
--
-- Prelude holds what the parts share: tests and conditionals, lists over the native numbers, Go
-- strings as lists of code points with the functions of `strings`, signed integers, results,
-- decimal numbers, and Go maps as association lists.
--
-- Throttle is internal/throttle/queue.go. A `Queue` is the record of its fields and of the requests
-- that wait; `enqueue`, `process` (a round of processLoop) and `record_429` are its steps, `Reach`
-- the states and histories that they lead to, `stats` its statistics. The times are arguments.
-- Throttle/Invariant is about the steps, Throttle/Rate about the spacing.
--
-- Torbox is internal/torbox/client.go: `do_request` is Client.do from the reply on, `list_generic`
-- the paging of listGeneric, `get_download_url` both functions of that name, `is_retryable` the test
-- IsRetryable. What the server replies and how JSON is decoded are arguments. The paging runs on
-- fuel, one unit for a page; Torbox/Pages says how many pages there are.
--
-- Metadata is internal/metadata. Metadata/Store is store.go: the rows of the table `files` and the
-- counter of tags are a `Store`, a statement is the change that it makes, and what the database
-- answers to each attempt is an argument. PruneBySyncTag runs on fuel, one unit for a batch: more than the number
-- of rows is enough, since every batch but the last deletes one at least. Metadata/Sync is sync.go:
-- `list_with_retry` is what a listing request executes, `build_file_record` makes a row and
-- `sync_once` is syncOnce from the two listings on. Its child modules are Paths (virtual paths),
-- Written and View (the rows after a cycle), Consistency, Hooks (what
-- fireChangeHooks calls the hooks with, for any order of the maps), Changes (a whole cycle with its
-- hooks) and Lifecycle: the sections of Start, Stop and Restart that hold the mutex, as steps on the
-- loops that are not cancelled. Metadata/Store/Items has the queries over the items.
--
-- Library is internal/library/filter.go: the filter of a virtual path. A regular expression is the
-- test that it makes. Library/Matching is about Apply, Library/Outputs about KeepLargest.
--
-- Settings is internal/config/config.go: setDefaults, and in Settings/Validate the function validate,
-- as the first error of its checks in their order. Settings/Bounds is about what passes.
-- Settings/LogLevel is UpdateLogLevel, on the tree that the YAML library makes of the file.
--
-- Server is internal/server. Server/Config has the settings, Server/Range the range requests of
-- get.go in 64-bit arithmetic, Server/Breaker the circuit breaker, and Server/Fetch the fetch of a
-- CDN URL with its retries and the negative cache; a clock is an argument at each place it is read.
-- The loop of the retries recurs on the number of attempts that are configured. Server/Logs is the
-- ring buffer of logs.go. Server/Stream is the rest of get.go: `stream` is streamFileContent, `hang`
-- handleGetCDNHang, and Server/Stream/Proxy has the loop over the attempts and the handlers of GET
-- and HEAD. What the world does is a `World`, indexed by the number of the fetch, of the write, of
-- the request or of the poll; the state is a `Session`. The polls run on fuel, one unit for a poll:
-- more than the number of polls that the client waits for is enough. Serving, Success, Polling,
-- Hanging and Work are about what is served, errors, polls, recovery and the number of requests.
-- Server/Listing is propfind.go and serveDirListing of get.go, its handlers in Server/Listing/Handlers:
-- Server/Listing/Directory is about what a directory shows, Follow about where the hrefs lead.
-- Server/Browser is http_browser.go: its items here, and in Server/Browser/Page the trail of links,
-- the sort and the rows; Sizes is about their sizes, Resolve and Trail about the links, Order and
-- Lost about the rows.
-- Server/Links is about the hrefs: they are written without percent-encoding, and what a client makes
-- of one is an argument, which leaves a text as it is that means nothing else in a URL.
-- Server/Sweep is the periodic cleanup of the two caches, of server.go; Server/Sweep/Evicted is about
-- what it leaves. Server/Setup builds the filters of the virtual paths from the settings.
-- Server/Routing is handleWebDAV of server.go, up to the call of a handler, and the path of the store
-- that the handlers take from a request.
--
-- Server/Actions is actions.go and healthz.go, Server/Access the routes of server.go with requireAuth
-- and csrfMiddleware. Metadata/Stats is stats.go, and Server/Recording what server.go records in it
-- and shows of it.
--
-- Program is cmd/warpbox/main.go: what the settings of a file make of the server, of the queue and of
-- the hooks; Program/Loaded is about settings that pass the validation.
--
-- How the parts meet: the sync lists the items with Torbox, through the queue, builds rows and
-- writes them to the store; a request finds its row there by path, asks the fetch for a URL, which
-- asks the breaker and the API, and stores it in the row. The listings read the rows below a path
-- and apply the filter of the view; validated settings give the views. The cleanup bounds the caches
-- that the fetch fills.
--
-- Not modelled: SQLite, the HTTP transport, JSON and regular expressions, which are libraries; log
-- output; the text of the HTML, JSON and XML replies; the landing page, the OpenAPI description and
-- the tool dbinspect, which only show values; the command line. Letters outside ASCII
-- have no other case. Numbers of the API and of the database are natural numbers, sizes are integers, and bytes of strings are code points. Of the
-- order in which SQLite deletes rows under a limit, the model takes the table's.
pub mod Prelude
pub mod Throttle
pub mod Torbox
pub mod Metadata
pub mod Library
pub mod Settings
pub mod Server
pub mod Program
