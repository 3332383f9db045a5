-- ===== src/HomeJobs.antt =====
-- internal/homejobs/homejobs.go: the queue of MQTT provisioning and cleanup jobs in the table
-- `home_mqtt_jobs`, and the worker that runs them. Each reading of the clock is an argument, and so
-- are the job rows that other sessions hold locked when the worker claims.
pub mod Queue
pub mod Claim
pub mod Worker
pub mod Fair
pub mod Exclusive
pub mod Delay
pub mod Restart
pub mod Finish
