-- ===== src/Tests.antt =====
-- Runs of the model at concrete inputs.
mod Sellers
mod Limits
mod Stack
mod Service
mod Consumers
mod Clients
mod Sites
mod Summaries
mod Endpoints
mod Mixes
