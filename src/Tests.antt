-- ===== src/Tests.antt =====
-- Runs of the model on small worlds, and the theorems at concrete inputs.
mod Worlds
mod Agents
mod PoliciesAt
mod RegistryAt
mod SessionsAt
mod ThrottleAt
mod SchedulingAt
mod RunsAt
mod DeliveriesAt
mod TurnsAt
