-- ===== src/Gen/Acts/Refines.antt =====
-- bin/src/gen.rs: the turns of a generator as runs of its smaller steps.
