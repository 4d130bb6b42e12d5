-- ===== src/Lib.antt =====
-- The native host of CFB27 Lua Hook: guarded memory transactions, table fields and board mutations.
--
-- The host runs inside the game's process and serves requests that read and change the game's
-- memory. The parts that search, read and change it are modelled here with the checks around them.
--
-- Memory: native/host/memory_transaction.h and memory_transaction.cpp. `RunTransaction` parses the
--   request's addresses, refuses bad sizes and overlapping ranges, reads and compares the bytes
--   expected, writes operation by operation with a readback after each, and restores the originals
--   in reverse order when a write or a readback fails.
--   Memory/Address is the parser of addresses, Memory/Backend the interface `MemoryBackend` and what
--   is documented of it, Memory/Transaction the request, its checks and the overlap scan,
--   Memory/Transaction/Run the run itself (`run_transaction`). The backend's state is passed and
--   returned by every call, so a write that fails may still have changed memory. The other files
--   under Memory/Transaction carry the proofs: Checks, Disjoint and Reject the part before the first
--   write, Step one write, Rollback and Atomic the way back, Pending, Applied and Success the way on.
-- Frtk: `ValidateDefinition`, `DecodeField`, `EncodeField` and the packed references of
--   native/host/frtk_field_schema.cpp. Frtk/Field has the definitions of the fields and their
--   bounds, Frtk/Field/Storage the words in the record's bytes, Valid, Legal, Raw and RoundTrip the proofs.
--   Frtk/Schema has the schema and the profile as data, Frtk/Catalog the session of
--   native/host/frtk_catalog.cpp: which tables are installed, which handles resolve, and what ends a
--   generation (Frtk/Catalog/Lifecycle). Frtk/Access is native/host/frtk_record_access.cpp:
--   `ReadFields` and `PlanFieldWrites` over the catalog and a `MemoryBackend`, Access/Plan the runs of
--   changed bytes, Access/Finalize `FinalizeFieldTransaction`, which merges plans and their evidence
--   into one request for Memory. Access/Correct and Access/Planned carry the
--   proofs of the plans, Access/Ordered, Access/Accepted and Access/Guarded those of the request.
-- Reader: native/host/memory_reader.cpp. Reader/Text parses and prints addresses and hexadecimal
--   patterns, Reader/Pattern is the masked search, Reader/Region the tests of regions, Reader/Batch
--   `ReadMemoryBatch`, Reader/Scan `ScanPrivateMemory` with Scan/Allocation and Scan/Matches for its
--   inner loops. Scan/Total, Scan/Occurrence, Scan/Fair and Scan/Bounds carry the proofs.
-- NativeCall: native/host/native_call.cpp, the guard around a call of a game's function;
--   NativeCall/Protection and NativeCall/Calls carry the proofs.
-- Board: native/host/board_mutation.cpp, which adds a recruit to the recruiting board and removes
--   one. Board/Memory is `ReadableRange` and `ReadValue`, Board/Tables the scoring and validation of
--   the game's tables and objects, Board/Tables/Select `SelectTable`, Board/Snapshot `ReadBoard` and
--   `Matching`, Board/Invoke the operation `Invoke`, which goes through NativeCall. Board/Effects and
--   Board/Applied carry the proofs. The global cache of runtime objects is an argument of `invoke`
--   and a part of its result.
-- BuildPolicy: native/host/game_builds.cpp and build_policy.cpp, the lookup of the running build and
--   what is allowed under it. The generated table of builds is an argument.
-- Protocol: native/host/protocol.cpp, the frames of JSON over a pipe and one client of `Serve`;
--   Protocol/RoundTrip carries the proof.
-- Telemetry: native/host/telemetry.cpp, the validation of payloads, whose JSON values carry the size of
--   the text that the JSON library prints for them; Telemetry/Legal describes the legal ones, Sound,
--   Complete and Payload carry the proofs. Telemetry/Types is the registration of types of events.
-- Prelude has the shared names, lists, integers and bit operations. Files named Tests, and
-- Board/Scenario, run the definitions on small inputs.
--
-- Integers are natural numbers with the width written out (`% 2 ^ w`) where a word may wrap; a
-- signed field value is an integer over them. A word of the game's memory is read little-endian from
-- its bytes. The walk of `ReadableRange` is recursion on as many rounds as the range has bytes, since
-- each round moves its cursor by one byte at least. The loops of the scan over regions get a round for
-- each address from the cursor to the last, and the search in a chunk one for each candidate; a scan
-- that ran out of them would be `none`. The loops of the protocol over a pipe get one for each byte. All other loops recurse on their lists or counts. The map of
-- byte constraints of `FinalizeFieldTransaction` is a function from the address.
--
-- Parameters: `MemoryBackend` stands for the operating system's memory calls in a transaction, with
-- `IsCoherent` for what a read, a write and a validation may do, and `IsReliable` for calls that do
-- not fail. `Process` stands for the page query, the guarded copy and the guarded call. `Host` stands
-- for the calls of the memory reader: the page query, the copy of bytes, the allocation of a page
-- mapping and the cancellation. `Pipe` stands for `ReadFile` and `WriteFile`, with `IsOrdered` for a
-- pipe that keeps its bytes in order, and `Json` for the JSON library of the protocol. The search for
-- byte patterns over the private regions, `PrivateReadableRegions` and `FindPatterns`, is an argument
-- of `invoke`: its hits. What `SessionCatalog::Revalidate` answers and leaves is an argument of the
-- record access.
--
-- Not modelled: the JSON schema loader of frtk_field_schema.cpp, `ProcessMemoryBackend`, the body of
-- `SessionCatalog::Revalidate` but for the tables that it drops, discovery, the validation of profiles
-- and the research watch, whose models are to follow; the loop of `Serve` that makes pipes and waits
-- for clients; the statistics of the pattern search, which the host never asks for; the bindings to Lua
-- and the host's threads and pipes, the DLL proxy, the JavaScript packages and the archive, which are
-- glue, clients or unused by the host.
pub mod Prelude
pub mod Memory
pub mod Frtk
pub mod NativeCall
pub mod Board
pub mod BuildPolicy
pub mod Reader
pub mod Protocol
pub mod Telemetry
