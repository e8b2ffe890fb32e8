-- ===== src/Examples/Progressing.antt =====
-- A new order that is approved, at a concrete input.
