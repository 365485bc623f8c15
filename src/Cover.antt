-- ===== src/Cover.antt =====
-- include/coverhistory.h, events/src/coverhistory.cpp, monitor/src/coverlin.cpp and
-- monitor/src/covermonitor.cpp: the linearizability check for stacks by the cover of its values.
pub mod History
pub mod Events
pub mod Lin
pub mod Durable
pub mod Handlers
pub mod Values
pub mod Calls
pub mod Reading
pub mod Read
pub mod Run
pub mod Linearize
pub mod Guess
pub mod Agree
pub mod Spec
pub mod Compose
pub mod Overlapped
pub mod Whole
pub mod Held
pub mod Ending
pub mod Ended
pub mod Complete
pub mod Prune
pub mod Split
pub mod Sound
pub mod Drain
