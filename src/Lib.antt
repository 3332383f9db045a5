-- ===== src/Lib.antt =====
-- MinnalLabs: a server that manages users, homes and their devices, talks to the devices over MQTT,
-- and keeps its state in PostgreSQL and Valkey.
--
-- How the parts work together. A handler changes rows in a transaction and puts a job for a home into
-- the table `home_mqtt_jobs` (internal/homejobs, internal/deletion). The worker of internal/homejobs
-- takes jobs in batches: a provisioning job creates the home's account and role at the broker
-- (internal/mqtt), a cleanup job removes them, and deletes the home and its devices for good. The job
-- survives failures of the broker and of the database, and the loss of a worker. A rollout of firmware
-- (internal/ota) sends the devices of a product the new version in batches, as retained messages. The
-- tokens of the OAuth server (internal/oauth) are rows too, and are cached in Valkey until they
-- expire. A browser is known by the cookie of its session in Valkey, which a user gets with a password
-- or through Google (internal/googleauth); the handlers of internal/enrollment take the user of the
-- session.
--
-- Which module models what:
--  - Base: tests, tables as lists with SELECT, UPDATE and DELETE (Base/Rows), maps, the functions of
--    Go's `strings`, `strconv` and `fmt` (Base/Text), code with a state and an error (Base/Exec).
--  - World: the tables, the cache, the requests to the broker, and the calls: `execute`, `query`,
--    `query_first`, `transaction`, `send`. World/Maintains, World/Commits and World/Query have the
--    rules by which invariants of the tables are proved of code, World/Runs the rules for what code
--    returns while the services answer, World/Atomic says what a failure restores, World/Caches has the
--    rules for predicates on the cache, World/Yields what code returns that only reads the cache.
--  - Http: the answers of the handlers. Http/Refusals and Http/Clean have rules for handlers that
--    refuse, and for handlers whose errors change nothing.
--  - Http/Middleware: internal/middleware/security.go.
--  - Crypto: internal/crypto/provisioning.go; Crypto/Envelope has proofs, Crypto/Tests runs.
--  - Db: the migrations of internal/db/db.go; Db/Migrations has proofs, Db/Tests a run.
--  - Config: the settings of internal/config/config.go; Config/Origins and Config/Broker have proofs.
--  - Models: internal/models/models.go.
--  - State: the device cache of internal/state/state.go that the other parts use; State/Session
--    internal/state/session.go, the sessions of users, with proofs in State/Logout; State/Presence
--    `SetDevicePresence`; State/Sync the lists of devices, `SyncDevices` and `SyncProductCaps`;
--    State/Removal has proofs on `RemoveDevice`, State/Tests runs.
--  - Mqtt, Mqtt/Dynsec, Mqtt/Messages: internal/mqtt/mqtt.go, ota.go and dynsec.go; Messages has the
--    handlers of messages and of the connection, Mqtt/Routing proofs on topics, Mqtt/Tests a run.
--  - HomeJobs: internal/homejobs/homejobs.go. Queue has the constants, `InitHomeJobs`, `retryDelay`,
--    `EnqueueProvision` and `ReplaceWithCleanupJob`; Claim `requeueStaleClaims` and `claimJobs`;
--    Worker `processJob` and what it calls; Fair, Exclusive, Delay, Restart and Finish have proofs.
--  - Deletion: internal/deletion/deletion.go. Intent states what a deletion promises; Copies, Worker,
--    Queue, Provision, Cleanup, Load and Process show that the code keeps it; Schedule that the two
--    entry points establish it; Steps has the workers and handlers as a step relation; Lasting the
--    result.
--  - Ota: internal/ota/rollout.go. Batches has the order and the size of batches, Rollout
--    `CreateRollout` and the cancellation, Dispatch `processDueRollouts`, Reports
--    `HandleDeviceStatusUpdate` and the queries by device, Listing `ListRolloutsForProduct`; Sizes,
--    Order, Stall, Cancel and Single have proofs, Ota/Tests runs.
--  - Oauth: internal/oauth/token_store.go. Expiry has the lifetimes, Store the operations; Lifetime,
--    Lookup and Removal have proofs, Oauth/Tests runs. Session is internal/oauth/session.go, Login the
--    handlers of internal/oauth/oauth.go and token_middleware.go, Client `ensureOAuthClient`; Signin,
--    Signout and Secret have proofs, SessionTests runs.
--  - Enrollment: internal/enrollment/enrollment.go, `enrollUser` itself, Homes and Devices what is
--    created and deleted, Listing what a user is told, Firmware the update on demand; Owner, Atomic
--    and Creation have proofs, Enrollment/Tests runs.
--  - Googleauth: the states of internal/googleauth/googleauth.go; Usernames has the accounts and their
--    names, Signin the handlers; Once, Accepted and Blocked have proofs, Googleauth/Tests runs.
--  - Google: internal/google/google.go, the intents QUERY and EXECUTE, Google/Sync the intent SYNC and
--    the handler; Google/Owner, Google/Compound and Google/Disclosure have proofs, Google/Tests runs.
--  - Admin: internal/admin/admin.go, what its handlers check, Products, Upload and Users the handlers;
--    Admin/Names and Admin/Interval have proofs, Admin/Tests runs.
--  - Validation: internal/validation/input.go; Validation/Trim has proofs, Validation/Tests runs.
--  - Tests: the theorems at concrete inputs.
--
-- How the model represents things. A time is a number of nanoseconds, 0 for the zero time, and each
-- reading of the clock is an argument. A text is one of ASCII characters. A nullable column is an
-- Option. A deleted row has its `deleted_at` set and stays in the table, as with GORM; the code's
-- queries say whether they see it. Calls of the database, of Valkey and of the broker may fail: the
-- list `faults` of the World says which of the coming calls do, and theorems hold for every such list.
-- A transaction that fails restores the tables, but not the sequences. The Dynamic Security plugin's
-- answers come from the list `replies`. The rows that `FOR UPDATE SKIP LOCKED` passes over are a
-- predicate. A setting that is not positive is 0. The delay of a retry wraps around in 64 bits, as the
-- product in the code does; sums of a time and a duration do not wrap around. SHA-256 is a parameter, and a session stands under the digest
-- of its token. What is kept as JSON stands for itself. There is no fuel but in `decimal`, where one
-- round for each unit is enough.
--
-- A handler takes the user of the session, the parameters of the path as texts and the body if it
-- binds. Its answer is a status with a message or with a body, which stands for its JSON. Parameters
-- besides SHA-256 are: whether a password fits a hash and the hash of a password (bcrypt), random
-- bytes as the text that encodes them, the functions of Go's cryptographic packages (Crypto.Library),
-- and, for the handlers, the keys and bundles of internal/crypto, the OAuth client of Google with the
-- account that it answers, the manager of the OAuth server library, and the file system. A Go `int`
-- that a body brings is a ℤ of Base/Int with its wrap-around.
--
-- What is not modelled: gin's routing, decoding and encoding, static pages, the process's start, the
-- migrations, goroutines and tickers as such (the step relation lets several workers take turns at
-- every call that touches the tables), logging, and the contents of the drivers for PostgreSQL, Valkey
-- and MQTT.
pub mod Base
pub mod Models
pub mod World
pub mod State
pub mod Mqtt
pub mod HomeJobs
pub mod Deletion
pub mod Admin
pub mod Config
pub mod Crypto
pub mod Db
pub mod Enrollment
pub mod Google
pub mod Googleauth
pub mod Http
pub mod Oauth
pub mod Ota
pub mod Validation
pub mod Tests
