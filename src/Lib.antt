-- ===== src/Lib.antt =====
-- The C ABI of loro (loro-c-api): a layer of `extern "C"` functions over the Rust crate `loro`.
--
-- Each entry point is a body under `ffi_guard!`: it reads handles through `deref_or!`, checks its
-- out-parameters, calls the crate, and hands the result over as a boxed handle, a byte buffer or a
-- status. What makes the layer correct is what it does at this boundary: no panic and no null
-- pointer gets through, every failure is recorded, boxes and buffers are given out and taken back
-- once, and a callback's data has one owner. The crate `loro` and `serde_json` are not part of the
-- repository: they are the record `Loro` of World/Library, an argument of every definition that
-- calls them. A method of the crate may answer anything and may panic, and one that mutates its
-- object gives the object back, changed, also when it panics.
--
-- The parts and their files (paths from the repository's root):
--   World, World/Types, World/Library, World/Crate: the heap of boxes and buffers, the caller's
--     memory, the last error, the trace of calls of C function pointers; the crate's data and the record `Loro`.
--   Error, Error/Laws: loro-c-api/src/error.rs.
--   Abi: loro-c-api/src/macros.rs and the pointer operations that all bodies use. A body runs from
--     a world to a step: a value, an early return, a panic, or undefined behaviour (a read of an
--     address where no live box of that type stands, a slice past what the caller has, a write
--     through null).
--     Abi/Laws has the notion of a call that is defined and returns, Abi/Steps a rule for each
--     operation, Abi/Contract the contract of status functions, Abi/Memory updates of the heap,
--     Abi/Replaced what a method of the crate leaves behind, Abi/WellFormed the invariant of the state.
--   Value: loro-c-api/src/value.rs, with Value/Utf8 (the check of std::str::from_utf8), Value/Args
--     (string arguments), Value/Buffers (the life of a LoroBytes), and Value/Json (values as JSON
--     text, and the idioms in which the other files read arguments and write results), with
--     Value/Json/Steps, a rule for each idiom.
--   ValueTyped: loro-c-api/src/value_typed.rs and callbacks.rs: Items (lists and maps inside a
--     value), Construct, Access, Compound and Visit, each with its laws below it.
--   ImportStatus: loro-c-api/src/import_status.rs.
--   Version: loro-c-api/src/version.rs: Ids, Vector, Algebra, Spans (the JSON of differences),
--     Frontiers, and Travel (the versions of a document, checkout and the export of updates).
--   Subscribe: the functions of loro-c-api/src/event.rs, commit.rs and jsonpath.rs that subscribe a
--     callback to a document.
--   Commit: the rest of loro-c-api/src/commit.rs.
--   Awareness: loro-c-api/src/awareness.rs, with Typed (values as handles), Ephemeral (the keyed
--     store), Events (what a subscriber reads), PeerIds (the byte form of peer ids), and for the
--     theorems Laws, Subscribers and Agreement.
--   Undo: loro-c-api/src/undo.rs, with Meta (the metadata of an item) and Listeners (the closures
--     that call C).
--   Event, Event/Json: the rest of loro-c-api/src/event.rs: what a callback reads of an event, and
--     diffs as JSON. Difference: loro-c-api/src/diff.rs. JsonPath: the rest of
--     loro-c-api/src/jsonpath.rs.
--   Document: loro-c-api/src/doc.rs, with Import, Export, Query (containers by id, history and modes)
--     and Query/Sorted (the lists that are sorted before they are written).
--   Cursor, Container, ValueOrContainer, Style, FractionalIndex: loro-c-api/src/cursor.rs,
--     container/any.rs, value_or_container.rs, style.rs and fractional_index.rs.
--   Container/Common, Container/Attach: what the files under loro-c-api/src/container/ share, and
--     `attach_container!` of loro-c-api/src/macros.rs; Container/Counter, Container/Map,
--     Container/Sequence and Container/MovableList: loro-c-api/src/container/counter.rs,
--     container/map.rs, container/list.rs and container/movable_list.rs.
--   Each of these components has a record beside it with the methods of the crate that it calls
--     (Presence, History, Cursors, Containers, Paths, Styles, Indices, Commits, Diffs, Differences,
--     Queries, Documents, Histories, Counters, Maps, Sequences,
--     MovableLists).
--   Handles: the destructors of values, import statuses, versions and subscriptions.
--   Examples, Examples/Runs, Examples/Busy, Examples/Busy/Runs: stand-ins for the crate, two worlds,
--     and the theorems applied to them.
--
-- Conventions. Addresses are natural numbers and 0 is null. A boxed handle is one entry of the heap;
-- the allocator gives out ascending addresses. Strings are their UTF-8 bytes; an f64 is its bit
-- pattern; i32 and i64 are integers, and u64 and usize natural numbers, which the layer only passes
-- on: it does no arithmetic on them. A hash map is the list of its entries in the order in which it
-- is iterated. A pointer to write to that is not null is a variable of the caller. A method that takes
-- a closure tells whether it still has it when it ends; a closure that it has dropped has released
-- its callback. Every definition is total: the loops are over lists; the one that
-- takes fuel prints a u64 in decimal, for which twenty digits are enough.
--
-- Objects of the crate that share their state (a document and its containers, an undo manager and its
-- document) are boxes of their own here; what one does to another stays inside the crate.
--
-- A JSON object is the list of its fields in the order in which the code inserts them; the order in
-- which serde_json writes them is part of its parameter.
--
-- Not modelled: texts and trees; the configuration handle of a document, which shares
-- its state with the document; the change metadata and the traversal of ancestors; threads (the slot
-- of the last error is one thread's); what a C function does to the library's own state while it is
-- called, but for the listeners of an undo manager, whose C function is any transformation of the
-- world.
pub mod Base
pub mod World
pub mod Error
pub mod Abi
pub mod Value
pub mod ValueTyped
pub mod Version
pub mod ImportStatus
pub mod Subscribe
pub mod Awareness
pub mod Cursor
pub mod Undo
pub mod Container
pub mod ValueOrContainer
pub mod Style
pub mod Commit
pub mod Event
pub mod JsonPath
pub mod Difference
pub mod Document
pub mod FractionalIndex
pub mod Handles
pub mod Examples
