-- ===== src/Resolver.antt =====
-- The mutation resolvers of src/item, src/payment and src/tag: what they infer, whom their
-- decorator lets pass, and the service that they call.
mod Pipes
mod Mutations
mod Request
mod Pairs
mod PairRules
mod PairRequest
pub mod PairGuarded
mod Inference
pub mod Guarded
mod Tests
