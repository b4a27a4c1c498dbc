-- ===== src/Lib.antt =====
-- A model of the DuckDB extension for Salesforce Data 360: the login of a user and the retrieval
-- of a query's result.
--
-- A login starts with the pieces that src/oauth_pkce.cpp makes: random identifiers, the PKCE
-- verifier and its challenge, the checked login origin and the URL for the browser (Pkce). The
-- session of the login is kept by src/auth_session_registry.cpp (Registry), where the callback,
-- the completion, the expiry, cancellation and the eviction compete for it. The browser comes back
-- to src/loopback_listener.cpp (Callback), whose parser hands state and code to the registry. Its
-- faults are those of src/error_codes.cpp (Faults). With the credentials that the registry then
-- stores, src/query_api.cpp (Query) submits SQL, polls, and reads the chunks, whose columns
-- src/type_mapping.cpp gives DuckDB's types (TypeMapping). Its requests are sent by
-- src/libcurl_transport.cpp and its responses decoded by src/native_runtime.cpp (Native). The rows
-- reach DuckDB's data chunks through src/scan_runtime.cpp (Scan). The code of a callback becomes a
-- credential by src/salesforce_oauth_provider.cpp (Salesforce), which src/auth_functions.cpp calls
-- on behalf of the SQL functions, and src/session_credentials.cpp makes a temporary secret of it
-- (Auth).
--
-- Files. Base and its children hold the shared names: Boolean tests, lists, byte strings, results
-- and lemmas on bits. Faults is the table of public faults, and Faults/Table its lookup.
-- Pkce/Base64, Pkce/Challenge, Pkce/Origin and Pkce/Url follow src/oauth_pkce.cpp function by
-- function, and their children hold what is proved of them. Registry/State has the records,
-- Registry/Sessions and Registry/Credentials one function for each member function, Registry/Calls
-- the histories of calls; Registry/Map is std::map as a list. The other files of Registry hold
-- proofs: the invariant in Valid and Limits, the state machine in Sessions/Transitions, Touch,
-- Sweep, Eviction and Machine, the hand-over in Ownership, the entry points in Gate, refused
-- callbacks in Refused, the credentials in Vault. Callback/Decode, Callback/Request and
-- Callback/Listener follow src/loopback_listener.cpp, Callback/Types its results. Query/Types has
-- the records and the monad of a session's calls, Query/Checks the tests on URLs and identifiers,
-- Query/Session, Query/Cursor and Query/Client the member functions of the three classes;
-- Query/Frame, Query/Reading, Query/Stop and Query/Counts hold proofs. Query/Schema compares
-- schemas, as src/scan_runtime.cpp does too, and Query/Sound follows a session through all calls.
-- Json is what the parsers ask of a JSON library, and Pkce/Token the parser of a token response.
-- Salesforce/Form, Origin, Token and Exchange follow src/salesforce_oauth_provider.cpp, with the
-- requests sent as a trace. Auth/World joins the registry with the other parts that a SQL function
-- changes; Auth/Names, Callback, Secret, Complete and Start follow the two files of the functions.
-- Scan follows FillDataChunk, and Scan/Stream is the stream of rows that it reads. Native/Values,
-- Columns and Codec follow the decoder, Native/Transport the transport. Extension has the fields
-- that src/data360_extension.cpp expects of an Arrow result. TypeMapping follows
-- src/type_mapping.cpp, and TypeMapping/Stable holds what is proved of it. The Examples files
-- apply the theorems to concrete inputs.
--
-- State. A byte string is a list of bytes as numbers. A registry is its two maps; a call gives the
-- new registry, the callback owners that it stopped, and its value or exception. The mutex is held
-- by each call while it touches the maps, so a history is a list of calls. A session of a query is
-- a record of all its members, less the pointers to transport, codec and runtime: these are an
-- Environment, whose answers may differ at each turn. A run also keeps the requests sent, the last
-- one first, and the world of a SQL function the turns at which the query was asked whether it is
-- interrupted. Numbers of 64 bits wrap around where the code adds, subtracts or multiplies them
-- without a test before.
--
-- Loops. A loop over a list is structural. The attempts at a fresh identifier are the 16 of the
-- code. Eviction has as many rounds as there are sessions, and a round takes one session out. The
-- loops of the parsers take one more round than there are bytes, and each round takes a byte at
-- least. Polling takes one round more than poll intervals fit into the overall timeout, since a
-- clock that counts the sleeps has then passed the timeout, and reading takes two more than the
-- limit on chunks; filling a data chunk takes a round for each row of room and each chunk of the
-- source, and one more. Where the rounds of a query end the model gives `out_of_rounds`, no
-- exception of the code.
--
-- Not modelled. The sockets of the native acceptor, threads, libcurl, nanoarrow, mbed TLS, yyjson
-- and DuckDB's own interfaces: where the modelled code calls them they are parameters. The wiping
-- of secrets from memory, the Arrow reader, and the table functions of src/data360_extension.cpp
-- with their source of Arrow chunks.
pub mod Auth
pub mod Base
pub mod Callback
pub mod Extension
pub mod Faults
pub mod Json
pub mod Native
pub mod Pkce
pub mod Query
pub mod Registry
pub mod Salesforce
pub mod Scan
pub mod TypeMapping
