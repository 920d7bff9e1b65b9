-- ===== src/Tests.antt =====
-- Runs of the models and the theorems at concrete inputs.
mod Perception
mod Greeter
mod Consumers
mod Activity
mod Voice
mod Calendar
mod Realtime
mod Household
mod Security
mod Dreams
mod Hearing
