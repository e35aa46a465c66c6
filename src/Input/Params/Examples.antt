-- ===== src/Input/Params/Examples.antt =====
-- A member of a mapped node that refers to one of two upstreams.
use swale.Base.{◌≡◌, none, some, [], ◌∷◌, Text, codes}
use swale.Data.{Json}
use swale.Input.{TaskInput}
use swale.Input.Params.{member, rendered_params}
use swale.Input.Params.Member.{rendered_params-member}
use swale.Task.Examples.{identity}

abbrev input : TaskInput
input = record {
  operator = codes "shell";
  params = Json.text (codes "{{ upstream.extract }} {{ item }}");
  inputs = (codes "extract", Json.text (codes "rows")) ∷ (codes "other", Json.null) ∷ [];
  upstreams = [];
  state = none;
  each = some (codes "[1]");
  item = none;
}

abbrev item : Json
item = Json.number (codes "1")

abbrev no_text : Json → Text
no_text _ = []

rendered_params-member_example :
    rendered_params no_text some (member input item) identity []
    ≡ rendered_params no_text some (record input { item = some item }) identity []
rendered_params-member_example = rendered_params-member no_text some input item identity []
