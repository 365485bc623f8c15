-- ===== src/Queue.antt =====
-- include/intervaltree.hpp and monitor/src/queuemonitor.cpp: the interval tree of a queue's values and
-- the check of the queue monitor.
pub mod Tree
pub mod Insert
pub mod Search
pub mod Root
pub mod Cover
pub mod Monitor
pub mod Check
