-- ===== src/MlRouter.antt =====
-- internal/mlrouter: the complexity of a request (classifier.go), the ranking of a tier's models
-- (scorer.go) and the resolver (router.go). The feedback collector, which the resolver does not
-- call, and log lines are left out.
pub mod Classifier
pub mod Scorer
pub mod Ranking
pub mod CamelCase
mod Tests
