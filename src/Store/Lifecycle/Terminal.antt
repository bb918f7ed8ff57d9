-- ===== src/Store/Lifecycle/Terminal.antt =====
-- internal/state/store.go: what can happen to a record with a terminal status.
use github_runners_infra.Record.{Record}
