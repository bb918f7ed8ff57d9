-- ===== src/Store/Lifecycle/Counters.antt =====
-- internal/state/store.go: the counters of the retry budgets and of the missed checks.
use github_runners_infra.Record.{Record}
