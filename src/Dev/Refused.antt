-- ===== src/Dev/Refused.antt =====
-- A restoration of a git key whose plan the backup does not take (internal/manager/dev.go).
