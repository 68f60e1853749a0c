-- ===== src/Addr/Tests.antt =====
-- Concrete addresses.
