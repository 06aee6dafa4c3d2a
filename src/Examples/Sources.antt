-- ===== src/Examples/Sources.antt =====
-- The subscription of the store with two nodes, and an environment.
use proxyscene.Common.{
  All, List, String, [], atoi, contains, delete, false, if◌then◌else◌, insert, length, lookup, none,
  ok, pos, refl, some, sort_texts, trim_space, true, ◌==◌, ◌∷◌, ◌≡◌, ◌≤◌,
}
use proxyscene.Config.Env.{Environment, default_config, is_literal}
use proxyscene.Config.Env.Defaults.{default_config_safe}
use proxyscene.Config.Ports.{IsPort}
use proxyscene.Config.Validate.{ports_of}
use proxyscene.Examples.Stores.{
  node_a, node_b, test_checker, test_platform, two_nodes, two_nodes-IsValid,
}
use proxyscene.Links.{prepare_stored_node}
use proxyscene.Nodes.Speed.{merge_speed_results}
use proxyscene.Nodes.Speed.Merge.{merge_speed_results-IsValid}
use proxyscene.Store.{Node, SpeedResult, Store, find_node}
use proxyscene.Store.Valid.{IsValid}
use proxyscene.Store.Validate.{max_subscriptions, max_total_nodes, node_ids, subscription_id}
use proxyscene.Subscriptions.{adopt_subscription_nodes_in_store, select_subscription_urls}
use proxyscene.Subscriptions.Adopt.{adopt-IsValid}
use proxyscene.Subscriptions.Adopted.{IsManagedBy, adopt_effect}
use proxyscene.Subscriptions.Reconcile.{Changes, PreparedSubscription}
use proxyscene.Subscriptions.Reconcile.Apply.{reconcile_subscriptions}
use proxyscene.Subscriptions.Reconcile.Sources.{reconcile_sources}
use proxyscene.Subscriptions.Select.{select_subscription_urls_saved}
use proxyscene.Systemd.{safe_systemd_target_name, validate_user_name}
use proxyscene.Text.{sanitize_display_text}

abbrev adopted_store : Store
adopted_store = record two_nodes {
  nodes =
      node_a ∷ record node_b { subscription_ids = "sub-x" ∷ []; subscription_managed = true } ∷ [];
}

one_selected : select_subscription_urls test_platform two_nodes "1" ≡ ok ("x" ∷ [])
unfolding select_subscription_urls atoi
one_selected = refl

select_subscription_urls_saved_example :
    (1 ≤ length {A = String} ("x" ∷ []))
    × All (λ u. contains two_nodes.subscriptions u ≡ true) ("x" ∷ [])
select_subscription_urls_saved_example =
    select_subscription_urls_saved test_platform two_nodes "1" one_selected

node_adopted :
    adopt_subscription_nodes_in_store test_platform two_nodes "1" ("b" ∷ []) ≡ ok adopted_store
unfolding adopt_subscription_nodes_in_store atoi contains find_node sort_texts subscription_id
node_adopted = refl

adopt-IsValid_example :
    IsValid test_checker adopted_store × (node_ids adopted_store.nodes ≡ node_ids two_nodes.nodes)
adopt-IsValid_example =
    adopt-IsValid test_checker two_nodes "1" ("b" ∷ []) two_nodes-IsValid node_adopted

adopt_effect_example :
    (raw : String) × (contains two_nodes.subscriptions raw ≡ true)
    × ((y : String)
        → contains ("b" ∷ []) y ≡ true
        → (n : Node) → find_node adopted_store.nodes y ≡ some n
        → IsManagedBy (subscription_id test_platform raw) n)
    × ((y : String)
        → contains ("b" ∷ []) y ≡ false
        → find_node adopted_store.nodes y ≡ find_node two_nodes.nodes y)
adopt_effect_example = adopt_effect test_platform two_nodes "1" ("b" ∷ []) node_adopted

abbrev test_environment : Environment
test_environment key = if key == "PROXYSCENE_SERVICE_USER" then some "no user" else none

default_config_safe_example :
    (is_literal (test_platform.parse_ip (default_config test_platform test_environment).proxy_host)
      ≡ true)
    × (validate_user_name (default_config test_platform test_environment).xray_service_user ≡ ok tt)
    × (validate_user_name (default_config test_platform test_environment).dev_target_user ≡ ok tt)
    × All
        (λ t. safe_systemd_target_name t ≡ ok tt)
        (default_config test_platform test_environment).tg_target_services
    × All IsPort (ports_of (default_config test_platform test_environment))
default_config_safe_example = default_config_safe test_platform test_environment refl

-- A speed test of both nodes: the first has another link by now.
abbrev result_of_b : SpeedResult
result_of_b = record {
  node_id = "b";
  target = "https://example.org";
  latency_ms = pos 30;
  success = true;
  tested_at = 6;
  error = "";
}

abbrev result_of_a : SpeedResult
result_of_a = record result_of_b { node_id = "a" }

merge_speed_results-IsValid_example :
    IsValid test_checker
      (merge_speed_results two_nodes
        (record node_a { raw_url = "vless://old" } ∷ node_b ∷ [])
        (result_of_a ∷ result_of_b ∷ [])).0
    × ((merge_speed_results two_nodes
          (record node_a { raw_url = "vless://old" } ∷ node_b ∷ [])
          (result_of_a ∷ result_of_b ∷ [])).0.nodes
        ≡ two_nodes.nodes)
unfolding sanitize_display_text
merge_speed_results-IsValid_example =
    merge_speed_results-IsValid test_checker two_nodes
      (record node_a { raw_url = "vless://old" } ∷ node_b ∷ []) (result_of_a ∷ result_of_b ∷ [])
      two_nodes-IsValid ((refl, refl), ((refl, refl), tt))

-- A refresh of the subscription in which the first node is withdrawn for a new one.
abbrev refreshed : List PreparedSubscription
refreshed =
    record {
      url = "x";
      found =
          record {
            raw_url = "vless://c";
            parsed = record { protocol = "vless"; name = "node"; outbound = none };
          }
          ∷ [];
      invalid = 0;
      incomplete = false;
    }
    ∷ []

abbrev reconciled : Store × Changes
reconciled = (
  record two_nodes {
    nodes =
        node_b
        ∷ record {
          id = "c";
          name = "node";
          protocol = "vless";
          raw_url = "vless://c";
          created_at = 9;
          updated_at = 9;
          subscription_ids = "sub-x" ∷ [];
          subscription_managed = true;
        }
        ∷ [];
    default_node_id = "c";
  },
  record {
    added = 1;
    existing = 0;
    removed_count = 1;
    bad_entries = 0;
    unmanaged = 1;
    reselected = 1;
  },
)

sources_reconciled :
    reconcile_subscriptions test_checker 9 (λ i. "c") 0 two_nodes refreshed ≡ ok reconciled
unfolding reconcile_subscriptions contains lookup insert prepare_stored_node trim_space sort_texts
    subscription_id delete
sources_reconciled = refl

reconcile_sources_example :
    ((u : String)
      → contains two_nodes.subscriptions u ≡ true
      → contains reconciled.0.subscriptions u ≡ true)
    × All (λ sub. contains reconciled.0.subscriptions sub.url ≡ true) refreshed
    × (length reconciled.0.nodes ≤ max_total_nodes)
    × (length two_nodes.subscriptions ≤ max_subscriptions
        → length reconciled.0.subscriptions ≤ max_subscriptions)
reconcile_sources_example =
    reconcile_sources test_checker 9 (λ i. "c") 0 two_nodes refreshed sources_reconciled
