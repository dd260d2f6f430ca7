-- ===== src/Master.antt =====
-- Master escalation: the fold of what was tried, the loop budget, the queue and the lease.
pub mod History
pub mod Budget
pub mod Queue
pub mod Lease
