-- ===== src/Salesforce.antt =====
-- src/salesforce_oauth_provider.cpp. `Types` has what the exchange works on, `Form` its encoding of
-- forms, `Origin` the origins that it takes from a tenant, `Token` the tenant's token response, and
-- `Exchange` the exchange itself. That buffers are wiped (SecureClear, WipeOnExit, the destructor
-- and the moves of Data360Capability) is not modelled: the buffers are local to the exchange.
pub mod Types
pub mod Form
pub mod Origin
pub mod Token
pub mod Exchange
mod Examples
