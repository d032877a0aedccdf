-- ===== src/Stats.antt =====
-- bin/src/stats.rs: the statistics of a generator, their intervals, the totals of a run, and what is
-- printed of them. The order in which the maps of counts are walked is not modelled.
pub mod Tracker
pub mod Interval
pub mod Totals
pub mod Runner
pub mod Conservation
pub mod Totality
pub mod Race
pub mod Update
pub mod Elapsed
pub mod Printed
pub mod Bag
