-- ===== src/Examples.antt =====
-- Runs of the definitions at concrete inputs, and the theorems at inputs that meet their premises.
mod RetryAfter
mod SafeDial
mod HttpSend
mod Settings
mod Queues
mod Delivery
mod Responses
mod Commands
mod Services
mod Loads
mod Asking
mod Network
