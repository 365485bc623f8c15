-- ===== src/Tests.antt =====
-- Runs of the modelled code on concrete inputs, and each theorem at an input that meets it.
mod Intervals
mod Covers
mod Histories
mod Relations
mod Queues
mod Segments
mod Terms
mod Generators
mod Trees
