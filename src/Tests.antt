-- ===== src/Tests.antt =====
-- Runs of the definitions on concrete inputs, and the theorems at such inputs.
mod Values
mod Http
mod Triggers
mod Devices
mod Requests
mod Start
mod Store
mod Daemon
mod Threads
mod Memory
mod Answers
