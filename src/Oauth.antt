-- ===== src/Oauth.antt =====
-- internal/oauth/token_store.go: the OAuth tokens, in PostgreSQL with a cache in Valkey. `Expiry` has
-- the times, `Store` the operations.
pub mod Expiry
pub mod Store
pub mod Lifetime
pub mod Session
pub mod Login
pub mod Client
pub mod Secret
pub mod Signin
pub mod Signout
pub mod Lookup
pub mod Leftover
pub mod Removal
pub mod Tests
pub mod SessionTests
