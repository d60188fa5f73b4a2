-- ===== src/Tests.antt =====
-- Runs of the model at concrete inputs: tables with one model, version, artifact, task and
-- registration of the code under internal/.
mod Data
mod Tasks
mod Versions
mod Registrations
mod Scans
mod Deletions
mod Imports
mod Models
mod Listings
mod Uploads
mod Rpc
mod Clusters
mod Bundles
