-- ===== src/Lib.antt =====
-- linyaps-store, the graphical store for Linyaps packages: a model of its C code in antt.
--
-- The program has a library (lib/) that talks to the package manager over D-Bus and to the web
-- catalogue over HTTP, and a user interface (ui/) that keeps what the library answers. What the
-- user interface looks up on every frame it keeps in two hash tables: the ids of the installed
-- packages and the version of each. What the library answers to a search is filtered first, so
-- that one package is shown for each slot. A request to install a package waits in a queue until
-- the package manager signals its task, which then stands in a table until it ends. The user
-- interface fetches one page of the catalogue at a time, as many packages as its grid has room
-- for, and takes an answer only if it is for the page on show.
--
-- How C is read. A structure is a record, an enumeration a data type, an array a list. A pointer
-- that may be NULL is an `Option`; a string is the list of its bytes. `size_t` wraps at 2 ^ 64. A
-- piece of code that may go wrong is a `Run`: a value, or a fault where C has no defined behaviour
-- (a NULL pointer, an index out of bounds, a division by zero) or where a loop has used up the
-- rounds that the model gives it. What `calloc` and `strdup` do is an argument, so that theorems
-- speak of the runs with memory and of those without. But for the nodes of Pending, freeing is not
-- modelled beyond the reads that it makes: a pointer that is freed is dropped.
--
-- The files:
-- - Base: shared types, lists, strings, faults, the allocator. Types: lib/linyaps_types.h.
-- - Slots: the open addressing of ui/id_set.c and ui/id_map.c, which write it out twice; its child
--   modules prove it. A probing loop `for (;;)` is run for as many rounds as the table has slots.
--   That is enough, since the load factor keeps a slot free and no probe looks at a slot twice.
-- - IdSet: ui/id_set.c; `id_set_insert` is `insert`, and so on. IdMap: ui/id_map.c.
-- - Version: `compare_versions` of lib/linyaps_dbus_msg.c. Its loop shortens both strings in each
--   round, so the length of the first is rounds enough.
-- - Filter: `filter_store_search_results` of lib/linyaps_dbus_msg.c.
-- - Pending: the queue of pending operations of lib/linyaps_task.c, a linked list on an explicit heap.
--   The loop of `pending_pop_tail` visits no node twice, so the nodes in use are rounds enough.
-- - Context: `LinyapsContext` and the helpers on its task table. Its children are the code:
--   Context.Calls the requests of lib/linyaps_context.c, Context.Signals the signal handlers of
--   lib/linyaps_task.c, Context.Searches the searches of both; and the proofs: Context.Invariant,
--   Context.Requests, Context.Lifecycle, Context.Delivery, Context.Changed; Context.Prune is
--   linyaps_prune. What sd-bus reads from a message and what it answers to a call are arguments. A
--   callback is recorded as an event and not run: it is taken not to call the library, as those of
--   ui/main.c, which post messages, do not.
-- - Store: the enumerations of ui/store_state.h. Grid: `app_grid_spec` of ui/store_ui.c and
--   `current_items_per_page` of ui/main.c, whose loops run once for each number of columns.
-- - App: the pages of the store. App is `StoreState` (ui/store_state.h) as far as they use it;
--   App.Fetch the triggers of ui/main.c that start a thread, App.Events the handlers of what the
--   threads post, of keys and of the size of the window; App.Answered, App.Opened and App.Buffer
--   the proofs. A thread is the fetch that it makes; a state and an answer to a fetch are put
--   together by the handler of the event.
-- - Updates: the check for updates and the end of an update in ui/main.c.
-- - Json: cJSON as the readers use it, a parameter of the model.
-- - Remote: lib/linyaps_remote.c. Remote.Handles is the pool of libcurl handles and Remote.Handles.Steps
--   the requests of several threads on it, as a list of their critical sections in any order;
--   Remote.Buffer is `curl_write_cb`, whose capacity can be doubled 64 times before it is 0;
--   Remote.Http is `http_post_json`; Remote.Records reads the records of an answer; Remote.Pages asks
--   for pages of the catalogue and Remote.Checks for updates. Remote.Pages and Remote.Checks take what
--   `http_post_json` returns as a function of the address and the body.
-- - Local: lib/linyaps_local.c. Local.Packages reads the state file (and is `package_list_append` of
--   lib/linyaps_util.c), Local.Capture the output of a command, and Local.Installed is the two
--   queries. A loop that reads a pipe runs once for each reading, which are an argument.
-- - Launch: the check of an id before it reaches a command line, in ui/store_ui.c and in
--   lib/linyaps_local.c.
-- - Repos: the list of repositories as a string, `csv_append` and the loop of `append_repos` of
--   lib/linyaps_dbus_msg.c; Repos.Pieces describes the names that it holds.
-- - Messages: the functions of lib/linyaps_dbus_msg.c that write a message (`append_package`,
--   `append_options` and so on), and what lib/linyaps_context.c writes with them. A message is the
--   list of the calls of sd-bus made for it, and sd-bus answers each call in view of those before.
-- - Replies: the functions of the same file that read a reply. Replies is what they share and the two
--   short replies, Replies.Packages the reply of a search, Replies.Configured the configured
--   repositories; Replies.Read, Replies.Results and the children of Replies.Configured the proofs.
--   A container is a list of its elements with what sd-bus answers for each, so the loops
--   over a message end; a key or a signature that sd-bus does not give is `none`.
--
-- Not modelled: 3rdparty/cjson, a copy of another project; the drawing of the views under ui/views
-- and ui/store_ui.c, which fills the structures of Clay and SDL; logging. Adding a field to a JSON
-- value is taken to succeed.
pub mod Base
pub mod Types
pub mod Slots
pub mod IdSet
pub mod IdMap
pub mod Version
pub mod Filter
pub mod Pending
pub mod Context
pub mod Store
pub mod Grid
pub mod App
pub mod Updates
pub mod Repos
pub mod Json
pub mod Remote
pub mod Launch
pub mod Local
pub mod Messages
pub mod Replies
