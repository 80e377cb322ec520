-- ===== src/Defaults/Tests.antt =====
-- A run on the default values.
