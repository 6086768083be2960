-- ===== src/AbTest.antt =====
-- internal/abtest, internal/gateway/middleware/abtest.go, internal/store/postgres/abtest_store.go and
-- internal/gateway/handler/admin_abtests.go: experiments that send a part of the traffic to another
-- model.
pub mod Experiment
pub mod Store
pub mod Middleware
pub mod Admin
pub mod Assignment
pub mod Sync
pub mod Rerouting
pub mod Stopping
pub mod Analysis
pub mod Winner
mod Tests
