-- ===== src/Tests/Exit.antt =====
-- The program with one generator, ended by the signal: bin/src/main.rs.
