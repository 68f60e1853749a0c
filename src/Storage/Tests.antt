-- ===== src/Storage/Tests.antt =====
-- Concrete tables.
