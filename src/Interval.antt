-- ===== src/Interval.antt =====
-- include/interval.h and events/src/interval.cpp: intervals of timestamps and their unions.
pub mod Atomic
pub mod Points
pub mod Range
pub mod Merge
pub mod Apart
pub mod Gap
