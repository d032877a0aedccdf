-- ===== src/Tests.antt =====
-- The theorems at concrete inputs, and runs of the definitions.
mod Store
mod Msg
mod Sender
mod Stats
mod Gen
mod Acts
mod Totals
mod Printed
mod Pace
mod Bag
mod Exit
mod Select
mod Main
mod Build
mod Args
