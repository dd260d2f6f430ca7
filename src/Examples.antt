-- ===== src/Examples.antt =====
-- The definitions run on concrete inputs, and each theorem at an input that exercises the code.
mod Github
mod Events
mod Labels
mod Admission
mod Daemon
mod Master
mod Ledger
mod Review
mod Usage
mod Providers
mod Hosted
mod Loop
mod Drive
mod Notify
mod Guardrails
