-- ===== src/Webhook/Program.antt =====
-- Programs over the calls of internal/webhook/handler.go.
use github_runners_infra.Program
use github_runners_infra.Webhook.Calls.{Call, Answer, StoreCall, StoreValue, store}
use github_runners_infra.Webhook.Failure.{Outcome}

abbrev pub Prog : Type 0 → Type 0
Prog A = Program.Prog Answer A

abbrev pub Event : Type 0
Event = Program.Event Answer

abbrev pub History : Type 0
History = Program.History Answer

abbrev pub Environment : Type 0
Environment = Program.Environment Answer

abbrev pub call : (c : Call) → Prog (Answer c)
call c = Program.ask c Program.done

abbrev pub store_call : (c : StoreCall) → Prog (Outcome (StoreValue c))
store_call c = Program.ask (store c) Program.done

abbrev pub event : (c : Call) → Answer c → Event
event c r = record { asked = c; answered = r }
