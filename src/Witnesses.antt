-- ===== src/Witnesses.antt =====
-- Runs of the models at concrete inputs.
mod Merging
mod Units
mod Driver
mod Graph
mod Intake
mod Validation
mod Policies
mod Agents
mod Registries
mod Retries
