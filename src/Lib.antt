-- ===== src/Lib.antt =====
-- A model of pvetui, a terminal interface for Proxmox VE clusters: the parts of it that decide what
-- runs when, what is kept, what is shown and what may be executed. Paths are from the repository's
-- root.
--
-- Parts, and the files that model them:
--
-- TaskManager (internal/taskmanager/manager.go). Guest operations are queued in one lane for each node
-- and guest, and at most `maxRunning` of them run. A lock section is a function on the record
-- TaskManager, which holds the queue and the active tasks as the source's two maps; what a method
-- starts with `go` is in the list of Spawn that it returns. Enqueue is `enqueue`, completeTask
-- `complete_task`, dequeueNextStartableLocked `dequeue_next_startable`. TaskManager/Runner.antt has
-- runTask, cut at its lock sections, and the transition system of the manager with its runner
-- goroutines, of which several may have one key: an Event is one lock section, CancelTask included, and a
-- list of events is an interleaving. TaskManager/Cancel has CancelTask and the read methods. Dequeue, Lanes, Invariant, Enqueueing, Runner/Matching,
-- Runner/Sound, Runner/Reachable, Runner/Progress, Cancel/Laws and Cancel/Active hold the proofs.
--
-- FileCache (internal/cache/cache.go). The record FileCache has the key map, whose values are pointers
-- into the recency list, the list with its front first, and the directory. A clock value and the
-- answers of the file system are arguments. FileCache.antt has Get, Set, Delete and the eviction,
-- FileCache/Loading.antt the constructors that read the directory, and Clear. Elements and Consistent
-- relate the map to the list; Eviction, Lookups and History state what the operations do.
--
-- CommandRunner (internal/plugins/command-runner). Template.antt is config.go's ParseTemplate and
-- FillTemplate, Validator.antt is validator.go and os_detection.go, and Executor.antt is executor.go,
-- which asks the validator before it calls the SSH client or the guest agent; those calls are in the
-- list that each method returns, and their answers are a function of the call. The methods with Custom in
-- their names send what they are given without asking the validator, as in the source. Template/Filling,
-- Validator/Structure, Validator/Whitelist and Executor/Gate hold the proofs.
--
-- UiState (internal/ui/models/state.go). The record State is GlobalState: the lists that the interface
-- shows, the search states and the operations that are pending. Filters, Narrowing and Pending hold the
-- proofs, over the description of substring search in Base/Occurrence and Matching.
--
-- GroupClients (pkg/api/group-client-manager.go). The clients of a group's profiles: Initialize with
-- the order in which the goroutines report as an argument, the reads, Close and the summary.
-- GroupClients/Guests.antt (pkg/api/grouped-cluster.go) joins the guests that the profiles answer with
-- and finds one by its ID; Deduplicated, Ordered and Ambiguous hold its proofs.
-- Initialized and Summary hold the proofs.
--
-- TaskPoller (internal/taskpoller/poller.go). The tasks that are watched until they stop, one monitor
-- for each, and the callbacks that are told. A monitor's tick is a function of what the network answers.
-- Watching holds the proofs.
--
-- Config (internal/config/profiles.go, the getters and Validate of internal/config/config.go, and
-- internal/profile/profile.go). The record Config has the profiles, the group settings and the deprecated
-- connection fields. Config.antt applies and checks profiles, Getters.antt has the getters and
-- internal/profile, Groups.antt is the groups, and Validation.antt is Validate, with the answer of
-- ValidateKeyBindings as an argument, or with the model of it in Keys. Selection, Membership, Fitting,
-- Verdicts, Whole and Normalized hold the proofs.
--
-- VncSessions (internal/vnc/session_manager.go). The record SessionManager has the sessions by their IDs.
-- VncSessions.antt has the state of a session, Opening.antt creates and finds sessions, and Closing.antt
-- has what ends them, by closing a session where the map holds it and deleting it then, and the step of a session's monitor after its grace period; what a call does
-- beyond the state is a list of Effect.
-- Running.antt is the calls of the interface, the clients, the monitors and the ticker, one at a time.
-- Finding, Live, Sound, Creating and Cleaning hold the proofs.
--
-- HttpClient (pkg/api/http.go and auth.go). HttpClient.antt has the data and the errors, Exchange.antt
-- the login, the headers of a request and what is made of an answer, Requests.antt executeRequest and
-- doRequestWithRetry. Traffic is the client with the requests that it has sent; the server, the clock and
-- the decoders are the record Environment, and answer by the number of requests sent: the clock goes on
-- with a request and stands still between two, so also between the check of a ticket and the send. Tickets,
-- Authorized, Headers, Sending and Retrying hold the proofs.
--
-- ApiClient (NewClient of pkg/api/client.go). It makes an HttpClient of a Config and authenticates it.
-- Profiled.antt composes it with ApplyProfile.
--
-- Keys (internal/keys/parse.go, and ValidateKeyBindings of internal/config/config.go). Parsing.antt parses
-- key specifications, Keys.antt names combinations and says which are reserved, Events.antt brings the
-- events of a terminal into the same form, Bindings.antt is ValidateKeyBindings. The record Tcell has the
-- numbers of the terminal library. Verdict, Canonical, Accepting, Typed and Controls hold the proofs.
--
-- Ansible (BuildInventory of internal/plugins/ansible/inventory.go). Ansible.antt has the text helpers,
-- uniqueAlias and the variables and groups of one node or guest, Inventory.antt the list of hosts, the
-- groups and the variables that all hosts share, Rendering.antt both texts, with yaml.Marshal as an
-- argument. Fresh, Bytes, Aliases, Shared, Variables and Groups hold the proofs.
--
-- The parts meet in the interface, which enqueues operations on the manager, marks guests as pending in
-- the state, filters the guests that the group clients deliver, and runs commands on them through the
-- executor. That code is widgets and event handlers and is not modelled.
--
-- Conventions. A Go string is a list of bytes, and lower case and blanks are those of ASCII. A Go map is
-- an association list with distinct keys whose order stands for the order of a `range` loop. An `int`
-- that may be negative is ℤ of Base/Int.antt; no modelled code overflows it. All loops are structural
-- recursion, but for two with fuel: printing a number, where the number itself bounds its digits, and
-- the search for an unused alias, where one try more than there are hosts is enough, as no two tries are
-- the same alias. Logging, mutexes and durations are left out; a panic of the template matcher is a value.
--
-- Not modelled: Badger and the global cache, which wrap a third-party database; the requests of the
-- resources and the decoding of their answers; the defaults of a configuration, its files and their
-- encryption; start-up and onboarding; SSH sessions and the servers of VNC sessions; the forms and
-- processes of the Ansible plugin; widgets, themes and plugins; the mock API server.
pub mod Ansible
pub mod ApiClient
pub mod Base
pub mod CommandRunner
pub mod Config
pub mod FileCache
pub mod GroupClients
pub mod HttpClient
pub mod Keys
pub mod TaskManager
pub mod TaskPoller
pub mod UiState
pub mod VncSessions
