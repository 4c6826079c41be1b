-- ===== src/Lib.antt =====
-- The guests of crabcraft in C and C++: WebAssembly modules that answer the calls of a host in the wire
-- format of docs/WIRE.md.
--
-- guest/sqlite-c is in C and runs SQL statements on a database file. The program is main.c, with the
-- bytes of schema_json.h. The host calls `crab_alloc` for memory, `crab_schema` for the interface
-- description and `crab_invoke` for a function; `crab_invoke` reads its arguments with `uleb_get32`,
-- runs the statement with `run_sql` into the static buffer `out`, and packs the result with
-- `reply_result` or `reply_abi_err` into the static buffer `REPLY`, which the host reads. All bytes are
-- written by `bput`.
--
-- tools/crabgen/templates/cpp is the runtime of the C++ guests: crab.hpp and crab.cpp hold the codec, the
-- registry of handlers and the three exports, mesh.hpp and mesh.cpp the calls of other guests. A guest
-- adds bindings that crabgen generates and its own functions; guest/hello-cpp is one, with impl.cpp,
-- gen/bindings.cpp, gen/schema_json.h and its copy of the runtime. `crab_invoke` finds the handler of a
-- function, which decodes the parameters with a `Decoder`, calls the function and encodes its result.
--
-- Prelude         Boolean tests, byte lists, results with faults, one-byte bit masks.
-- Buffer          `buf`, `breset`, `bput`, `bputc`, `bputs`, `bputf`.
-- Uleb            `uleb_put`, `uleb_get32`.
-- Format          the integer formats of `vsnprintf`.
-- Json            `json_string`, and the hex digits of a blob.
-- Reply           `lenbuf`, `reply_abi_err`, `reply_result`, and the host's view of a reply.
-- Sqlite          what the program calls of SQLite: a record that everything after it takes.
-- Query           `db_open` and `run_sql`. Query/Replies is the specification of `run_sql`, with Query/Opening
--                 for the opening and Query/Tail for what may stand behind the statement.
-- Schema          the bytes that `crab_schema` serves.
-- Guest           `crab_alloc`, `crab_schema`, `crab_invoke`. Guest/Session is the specification of
--                 a call, and sequences of calls; Guest/Handle follows `DB` through a call.
-- Cpp             the C++ runtime and hello-cpp:
--   Res, Encode, Utf8, Decoder   the codec; Primitive puts its operations into one table by kind, and Wire
--                 builds options, lists, tuples and results on it.
--   Runtime       `Handlers`, `Allocs`, `Reply` and the exports; `GuestModule` is what bindings give them.
--   Mesh          the mesh client; Mesh/Typed is its interface, and the typed wrappers of bindings.
--   Linear        the exports with pointers into linear memory: a record `Instance` that shows a `Runtime`.
--   Cursor        `Decoder` with loads through its pointer, against one that has just the buffer's bytes.
--   Hello         the bindings and functions of hello-cpp; Hello/Calls is the specification of a call.
-- Host            `w:invoke` and the import `crabcraft.call` of host/runtime.lua, with what they need of
--                 host/cmval.lua, for a C++ guest in linear memory. Host/Hello composes all parts of a call of
--                 hello-cpp, Host/Mesh those of a call over the mesh.
-- Tests           concrete runs.
--
-- State is passed on: a C function that changes a buffer takes it and returns the new one; the
-- static variables `REPLY`, `out` and `DB` are the record `Guest`, together with the state `World`
-- of the library. A pointer to bytes is the block behind it, `none` for NULL. Access through NULL,
-- beyond a block, and a loop that is not over within its rounds are faults, values of `Outcome`.
--
-- A `size_t`, an `unsigned` and an `int` have 32 bits, as on wasm32, and the wrap-around of buffer
-- lengths, capacities, positions and the row counter is written out; an argument of type `int` is
-- its bit pattern. Fuel: the doubling loop of `bput` has 32 rounds, since from any capacity that
-- occurs it is over, or the capacity is 0, after 24; `uleb_put` has ten, since ten groups of seven bits
-- hold 64 bits; the loop over the rows has as many as its argument says, and the theorems ask for
-- more than the statement has rows. Loops over names, columns, blobs and texts are structural.
--
-- In C++, a vector that is appended to is passed on, and the static variables behind `Handlers()`,
-- `Allocs()` and `Reply()` are the record `Runtime`. `Res` is a sum: its value counts where the message
-- is empty. A `Decoder` is the memory from its pointer on, with length and position; its methods are
-- described by parsers of lists (`Reads`, for any bytes, and `Takes`, for bytes that were encoded). An
-- `int64_t` is an integer, shifted and masked as two's complement, and a `float` or `double` is its
-- IEEE-754 bits. Fuel: `EncodeUleb` and `EncodeSleb` have ten rounds, enough for 64 bits; `Utf8Valid` has a
-- round more than it has bytes. The loops of `Uleb` and `Sleb` have the bounds of the
-- source. `uleb_enc` of the host has ten rounds, more than a length can take.
--
-- Linear memory is the list of its bytes; a load or a store beyond its end is a fault. An `Instance` keeps the
-- pinned vectors and the reply by address and size. The heap is not laid out otherwise: the addresses
-- that the allocator gives are arguments, and theorems on calls of the host ask that they lie inside
-- memory, apart from the buffers in use.
--
-- Parameters: the address that a new vector gets is an argument of `crab_alloc`, and the import
-- `crabcraft.call` is an argument of `mesh_call`; Host/Import has the import of the Lua host, whose
-- `opts.call` is an argument, as is the engine's text for a trap. The allocator of the C guest decides
-- which requests it serves and what fresh memory holds (`Plentiful`: it serves requests up to 2 ^ 31
-- bytes). SQLite is the record `Sqlite`. The format %.17g of a double is part of it (`ShortDoubles`: at
-- most 24 characters), and two of its fields are laws: `sqlite3_column_bytes` is no more than what the
-- pointers of a column point at. Nothing is assumed of all statements: a theorem on a call asks for an
-- answer of the one text that the call is to run (`IsServed`), and one on a session for that of each text
-- in the state that it meets (`AreServed`).
--
-- Not modelled: what a call that trapped left in memory, and growth of linear memory; failures of C++
-- allocation, which abort; `free`, which only gives memory back; the text of a C string behind its NUL,
-- so that messages of SQLite are the bytes before it. A negative `name_len` or `arg_len` of the C guest is
-- excluded by the theorems, and so is a statement of 2 ^ 31 bytes or more, whose length the cast to `int`
-- would change. `Wire` has no variants with a payload. What the C library prints for the integer formats
-- is written out in Format, and no result is about it.
pub mod Prelude
pub mod Buffer
pub mod Uleb
pub mod Format
pub mod Json
pub mod Reply
pub mod Sqlite
pub mod Query
pub mod Schema
pub mod Guest
pub mod Cpp
pub mod Host
pub mod Tests
