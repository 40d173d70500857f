-- ===== src/Tests.antt =====
-- Runs of the model on concrete inputs, with the laws of each parameter shown to hold of a function.
pub mod Instances
pub mod Features
pub mod Model
mod Redis
mod Gateway
mod Scored
mod Counters
mod Pipeline
mod Consumer
mod Indexer
mod Training
mod Services
