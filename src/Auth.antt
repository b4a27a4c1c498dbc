-- ===== src/Auth.antt =====
-- src/auth_functions.cpp and src/session_credentials.cpp: the functions that log in, over the registry,
-- the callback listener, the exchange and DuckDB's secrets. `Names` has the tests of arguments and the
-- rows shown, `World` how the functions call the registry while other threads do, `Callback` the
-- listener's thread, `Secret` the secret that a login installs, `Complete` the end of a login, and
-- `Start` its beginning.
pub mod Names
pub mod World
pub mod Callback
pub mod Secret
pub mod Complete
pub mod Start
mod Examples
