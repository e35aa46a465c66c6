-- ===== src/Scheduler/Requests/Examples.antt =====
-- A cancel request that is sent twice with one id.
use swale.Base.{
  ◌≡◌, refl, ◌∙◌, ap, Option, some, List, [], ◌∷◌, Text, codes, get, get-insert, insert, text_eq,
  text_eq_refl, arith,
}
use swale.Records.Keys.{request_key}
use swale.Request.{RequestId, Request}
use swale.Scheduler.Services.{Action, Effect, ok, read_with, graph_run}
use swale.Scheduler.Steps.{cancel_run}
use swale.Scheduler.Steps.Advance.Examples.{Store, day, apply_all, demo_services}
use swale.Scheduler.Requests.{
  RequestRecord, RequestOutcome, handle_request, apply_request, commit_record, request_effects,
  not_active,
}
use swale.Scheduler.Requests.Again.{IsStable, IsDurable, handle_request_idempotent}

abbrev commit : List Effect → Action Store Unit
commit es s = (ok tt, apply_all es s)

abbrev id : RequestId
id = record { text = codes "req-1" }

abbrev request : Request
request = Request.cancel (codes "demo") day

abbrev refused_record : RequestRecord
refused_record = record {
  request = request;
  handled_at_ms = 7;
  outcome =
      RequestOutcome.refused
        (codes "graph `demo` does not have an active run for partition `20260915`");
}

abbrev encode : RequestRecord → Text
encode _ = codes "r"

abbrev decode : Text → Option RequestRecord
decode _ = some refused_record

abbrev after : Store
after = (request_key id, codes "r") ∷ []

handled :
    handle_request demo_services commit encode decode id request [] ≡ (ok refused_record, after)
unfolding handle_request apply_request commit_record request_effects not_active read_with graph_run
    cancel_run get insert text_eq
handled = refl

demo-IsStable : IsStable demo_services commit encode decode
demo-IsStable k v s t h =
    let same : (get k s ≡ v) × (s ≡ t) = ground arith in rw (← same.0, ← same.1) refl

demo-IsDurable : IsDurable demo_services commit encode decode
demo-IsDurable k v ms entry s t h =
    let same : insert k v s ≡ t = ground arith in
    let found : get k (insert k v s) ≡ some v = get-insert k k v s ∙ rw (text_eq_refl k) refl in
    rw (← same) (ap (λ (o : Option Text). (ok o, insert k v s)) found)

handle_request_idempotent_example :
    handle_request demo_services commit encode decode id (Request.start (codes "demo") []) after
    ≡ (ok refused_record, after)
handle_request_idempotent_example =
    handle_request_idempotent demo_services commit encode decode id request
      (Request.start (codes "demo") []) refused_record [] after demo-IsStable demo-IsDurable refl tt
      handled
