-- ===== src/Tests/Nodes.antt =====
-- A tenant with a local and two remote nodes, and the theorems of engine/llm_nodes.py at it.
use resu_align_lite.Prelude.{
  String, ◌≡◌, refl, true, false, ◌&&◌, Option, none, some, List, [], ◌∷◌, map, if◌then◌else◌,
  String_discrete,
}
use resu_align_lite.Prelude.Table.{same, All, any, Distinct}
use resu_align_lite.Prelude.Order.{sort_with}
use resu_align_lite.Nodes.{Node, NodeStore, is_active_of, is_usable, of_tenant, get_usable_nodes}
use resu_align_lite.Nodes.Breaker.{probe_status_counts}
use resu_align_lite.Nodes.Writes.{delete_node}
use resu_align_lite.Nodes.Bindings.{set_role_binding, get_role_binding, resolve_node_for_role}
use resu_align_lite.Nodes.Trip.{IsSettled, run_events, seen, with_count, run_events-streak}
use resu_align_lite.Nodes.Events.{Event, call_failed, call_succeeded, probed, streak}
use resu_align_lite.Nodes.Promotion.{delete_node-active}
use resu_align_lite.Nodes.Serving.{
  is_preferred, serves_preferred, is_served, resolve_node_for_role-preferred,
}
use resu_align_lite.Nodes.Binding.{is_bindable, get_role_binding-set_role_binding}

abbrev pub plain : Option String → Option String
plain key = key

abbrev pub cloud : Node
cloud = record {
  node_id = "c";
  tenant_id = "t";
  name = "Cloud";
  provider = "openai";
  base_url = some "https://api.openai.com/v1";
  api_key = some "k";
  model = some "m";
  is_active = true;
  created_at = 1;
  updated_at = 1;
  last_test_status = none;
  last_test_latency_ms = none;
  last_test_at = none;
  disable_thinking = false;
  consecutive_failures = 0;
  auto_disabled = false;
}

abbrev pub spare : Node
spare = record cloud { node_id = "d"; name = "Spare"; created_at = 2 }

abbrev pub local : Node
local = record cloud {
  node_id = "l";
  name = "Local";
  provider = "custom";
  base_url = some "http://LOCALHOST:1234";
  created_at = 3;
}

abbrev pub office : NodeStore
office = record { nodes = cloud ∷ spare ∷ local ∷ []; assignments = [] }

local_comes_first : map (λ n. n.node_id) (get_usable_nodes plain "t" office) ≡ "l" ∷ "c" ∷ "d" ∷ []
unfolding get_usable_nodes sort_with String_discrete
local_comes_first = refl

http_500_counts : probe_status_counts "http_503" ≡ true
unfolding probe_status_counts String_discrete
http_500_counts = refl

http_429_does_not : probe_status_counts "http_429" ≡ false
unfolding probe_status_counts String_discrete
http_429_does_not = refl

abbrev storm : List Event
storm =
    record { tenant = "t"; node = "c"; kind = call_failed "timeout" }
    ∷ record { tenant = "t"; node = "c"; kind = call_failed "rate_limit" }
    ∷ record { tenant = "t"; node = "c"; kind = call_failed "http" }
    ∷ record { tenant = "t"; node = "d"; kind = call_succeeded }
    ∷ record { tenant = "t"; node = "c"; kind = probed "http_503" none 9 }
    ∷ []

office-IsSettled : All (IsSettled 3) office.nodes
office-IsSettled = (refl, (refl, (refl, tt)))

run_events-streak_example :
    All (IsSettled 3) (run_events 3 storm office.nodes)
    × (seen 3 "t" "c" (run_events 3 storm office.nodes)
        ≡ with_count 3 (streak "t" "c" storm) (seen 3 "t" "c" office.nodes))
run_events-streak_example = run_events-streak 3 "t" "c" storm office.nodes office-IsSettled

storm_trips : seen 3 "t" "c" (run_events 3 storm office.nodes) ≡ some (3, true)
unfolding run_events String_discrete
storm_trips = refl

abbrev single : NodeStore
single = record { nodes = cloud ∷ record spare { is_active = false } ∷ []; assignments = [] }

single-Distinct : Distinct (λ n. n.node_id) single.nodes
unfolding String_discrete
single-Distinct = (refl, (refl, tt))

single_is_active : any (is_active_of "t") single.nodes ≡ true
unfolding String_discrete
single_is_active = refl

one_is_left : any (of_tenant "t") (delete_node "t" "c" 9 single).0.nodes ≡ true
unfolding delete_node sort_with String_discrete
one_is_left = refl

delete_node-active_example : any (is_active_of "t") (delete_node "t" "c" 9 single).0.nodes ≡ true
delete_node-active_example =
    delete_node-active "t" "c" 9 single single-Distinct single_is_active one_is_left

nothing_is_bound : get_role_binding "t" "editor" office ≡ none
unfolding get_role_binding String_discrete
nothing_is_bound = refl

resolve_node_for_role-preferred_example :
    (is_served (resolve_node_for_role plain "t" "editor" office).1
      ≡ any (is_usable "t") office.nodes)
    × (serves_preferred "editor" (resolve_node_for_role plain "t" "editor" office).1
        ≡ any (λ n. is_usable "t" n && is_preferred "editor" n) office.nodes)
resolve_node_for_role-preferred_example =
    resolve_node_for_role-preferred plain "t" "editor" office nothing_is_bound

get_role_binding-set_role_binding_example :
    get_role_binding "t" "editor" (set_role_binding "t" "editor" "d" 4 office).0 ≡ (
      if (same "t" "t" && same "editor" "editor") && is_bindable "t" "editor" "d" office
      then some "d"
      else get_role_binding "t" "editor" office)
get_role_binding-set_role_binding_example =
    get_role_binding-set_role_binding "t" "editor" "d" 4 office "t" "editor"
