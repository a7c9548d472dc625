-- ===== src/Tests.antt =====
-- The theorems at concrete inputs: one received Asset, its operations, its captured changes, a stored
-- object, a received line and an exception.
mod Samples
mod Assets
mod Corrected
mod Captured
mod Records
mod Batched
mod Audited
mod Located
mod Procured
mod Printed
mod Received
