-- ===== src/Lib.antt =====
-- dalgo2http: a read-only dalgo adapter that answers queries by one HTTP GET.
--
-- A collection (descriptor.go) describes a URL with parameters and how its response becomes rows.
-- A query is planned (query.go): equalities of declared parameters go into the URL, and anything
-- else is refused, or evaluated on the rows (filter.go) where the collection allows it. A read
-- (database.go) takes its rows from the network (request.go, through the dialer of security.go), or
-- from a recorded snapshot (snapshot.go), as the mode says, and tells an observer in the context
-- where they come from (provenance.go). A body is decoded as JSON (jsonpath.go), as strict CSV
-- (strict_csv.go), or as the daily rates of the ECB (ecb_xml.go).
--
-- The files follow the source's:
--   Errors       errors.go, and Go's results: a value, an error or a panic
--   Value        the values of `any`, and rows
--   Runtime      what is taken from Go's standard library and from dalgo and record
--   Dal          the conditions and queries of dalgo that the code tells apart
--   Context      what the package reads from a context.Context
--   Descriptor   descriptor.go and the names of the decoders; Template: the placeholders
--   Filter       filter.go; Meaning: what a condition means, Rows: which rows are kept
--   Query        the planning half of query.go; Pushdown, Walks and Collected: what is pushed, Plan,
--                Columns, Plannable and Single: what is planned, Selection and Matching: which rows a
--                condition and the parameters select, Shape: the records
--   Security     security.go; Blocked: the address classes, Dialer: what is asked of the network
--   JsonPath     jsonpath.go; Rows: the rows, Paths: how a path leads to them, Total: panics
--   StrictCsv    strict_csv.go; Rows, Lines and Failures: what a decoded body is, which bodies are
--                decoded, and how decoding fails
--   EcbXml       ecb_xml.go; Lexical: its regular expressions and trims, Rows and Quotes: the
--                decoded rows, Stack and Dates: the open elements, and the date of the rows,
--                Document and Rates: the daily document as it is read, Failures: how decoding fails
--   Decoder      decoder.go; Total: panics, Replay: what a decoder sees of a body, Dates: the date
--                of the ECB's rates
--   Provenance   provenance.go
--   Request      request.go; Build: buildURL, Loops and Urls: what a URL consists of, Missing:
--                parameters without a value, Parameters: the order of parameters, Issued: the
--                requests, Classes: the errors, Clients: which client issues a request, Total:
--                panics
--   Snapshot     snapshot.go; Order: the order of texts, Names and Collisions: what the name of a
--                snapshot tells apart, Recorded: what is written
--   Database     database.go, fetchRows; Fetch, Sources, Completed and Origins: where rows come
--                from, Online: behind the URL, Observed, Served and Fallback: after a good and
--                after a failing status, Guarded: above the guarded client, Recorded: a recorder,
--                Replay: a recorded snapshot, Dates: the date of the ECB's rates, Maps, Params and
--                Collisions: which requests are told apart, Total: panics
--   Reads        the operations of database.go and query.go on top of fetchRows; Shapes and
--                Queries: what a query answers, Tables and Answers: a query over a table, First,
--                Gets and Multi: records by their keys, Keys: a key by Exists and by a query,
--                Worlds: how they change the world, Total: panics
--   Transaction  transaction.go; Laws: the writes, Total: panics, Session: calls in any number and
--                order
--   Config       the validation half of config.go, the decoders' validation and NewDB; Profiles,
--                Valid and Accepts: what a valid collection is, Databases: which configurations
--                are accepted, Index: the index of collections, LiveOnly: the decoders that
--                need the network, Loading: the files' shape, Decoders: what each decoder wants,
--                Failures: how a configuration is refused
--   Capabilities capabilities.go; Queries: which comparisons are planned
--   Examples     examples/countries/countries.go and examples/frankfurter/frankfurter.go; Accepted:
--                how NewDB takes them
--   Samples      concrete surroundings and runs in them
--
-- State is passed explicitly. A `World` holds the requests issued and which observer was told what, in
-- order, and each operation that can add to them takes one and returns the one behind it. The HTTP
-- client, the clock and the resolver answer as functions of what was asked of them before, so they
-- may answer the same question differently each time. All loops are structural, on lists or on
-- texts, so no fuel is needed. A Go map is an association list, and its order is the order in which
-- the runtime happens to iterate. The modules about panics have a record `IsSound`, which says what
-- the libraries promise: that they return, that a CSV record has the number of fields asked for,
-- and that an XML element only ends where it is open. A value's method String may panic, which `fmt`
-- recovers and stringifyParam does not. An observer is a number in the context, as its address is, and
-- a recorder is looked up by it.
--
-- Not modelled: the parsers of configuration files, the constants that ID, Adapter and Schema answer,
-- and the arguments of an error's format text other than the errors it wraps. Of an HTTP client the
-- model has what the program sets: how it dials, and what it does about redirects; a caller's own
-- functions for these are numbers, and what `Do` does with them is net/http's. The record `Go` of Runtime stands for the libraries;
-- what a theorem needs of one of them is a hypothesis of that theorem.
mod Prelude
pub mod Errors
pub mod Examples
pub mod Value
pub mod Runtime
pub mod Dal
pub mod Context
pub mod Descriptor
pub mod Filter
pub mod Query
pub mod Security
pub mod JsonPath
pub mod StrictCsv
pub mod EcbXml
pub mod Decoder
pub mod Provenance
pub mod Request
pub mod Snapshot
pub mod Database
pub mod Reads
pub mod Transaction
pub mod Config
pub mod Capabilities
pub mod Samples
