-- ===== src/Recovery/System/Signals.antt =====
-- Recovery signals only the process that the state file names.
