-- ===== src/Routing/Engine/Returns.antt =====
-- When `plan` of sidecar/ibreeze/routing/engine.py returns.
