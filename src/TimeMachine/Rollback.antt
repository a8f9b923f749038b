-- ===== src/TimeMachine/Rollback.antt =====
-- What is left of a configuration that could not be activated.
