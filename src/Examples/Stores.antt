-- ===== src/Examples/Stores.antt =====
-- A store with two nodes, and what its validation depends on.
use mathlib.Core.List.{Permᴰ}
use mathlib.Core.List.Permᴰ
use proxyscene.Common.{
  [], contains, false, lowers_to, none, ok, pos, refl, some, trim_space, true, ◌∷◌, ◌≡◌,
}
use proxyscene.Config.{Config, scene_global}
use proxyscene.Config.Validate.{ports_of}
use proxyscene.Links.{LinkParser, prepare_stored_node}
use proxyscene.Platform.{Platform}
use proxyscene.Store.{Node, Store, known_scene}
use proxyscene.Store.Checked.{validated-IsValid}
use proxyscene.Store.Valid.{IsValid}
use proxyscene.Store.Validate.{
  Checker, safe_store_identifier, subscription_id, validate_store_semantics,
}
use proxyscene.Systemd.{safe_systemd_target_name}
use proxyscene.Text.{sanitize_display_text, sanitize_node_name}

abbrev pub test_platform : Platform
test_platform = record {
  parse_ip = λ s. some true;
  parse_url = λ s. some (record { scheme = "https"; host = "example.org" });
  sha256_hex = λ s. s;
}

abbrev pub test_parser : LinkParser
test_parser = record {
  parse_node = λ raw. some (record { protocol = "vless"; name = "node"; outbound = none });
  is_compatible = λ pn. true;
}

abbrev pub test_checker : Checker
test_checker = record {
  platform = test_platform;
  parser = test_parser;
  order = ports_of;
  late = λ i. false;
}

pub test_in_order : (c : Config) → Permᴰ (test_checker.order c) (ports_of c)
test_in_order c = Permᴰ.refl (ports_of c)

abbrev pub node_a : Node
node_a = record {
  id = "a";
  name = "first";
  protocol = "vless";
  raw_url = "vless://a";
  created_at = 1;
  updated_at = 1;
  subscription_ids = "sub-x" ∷ [];
  subscription_managed = true;
}

abbrev pub node_b : Node
node_b = record {
  id = "b";
  name = "second";
  protocol = "vless";
  raw_url = "vless://b";
  created_at = 2;
  updated_at = 2;
  subscription_ids = [];
  subscription_managed = false;
}

abbrev pub two_nodes : Store
two_nodes = record {
  generation = 3;
  stored_config = none;
  nodes = node_a ∷ node_b ∷ [];
  default_node_id = "a";
  scene_nodes = (scene_global, "b") ∷ [];
  scene_enabled = (scene_global, true) ∷ [];
  subscriptions = "x" ∷ [];
  speed_results =
      (
        "b",
        record {
          node_id = "b";
          target = "https://example.org";
          latency_ms = pos 40;
          success = true;
          tested_at = 5;
          error = "";
        },
      )
      ∷ [];
  telegram_targets = "bot.service" ∷ [];
}

pub two_nodes_checked : validate_store_semantics test_checker two_nodes ≡ ok (two_nodes, false)
unfolding validate_store_semantics trim_space contains lowers_to safe_store_identifier
    subscription_id prepare_stored_node sanitize_node_name known_scene safe_systemd_target_name
    sanitize_display_text
two_nodes_checked = refl

pub two_nodes-IsValid : IsValid test_checker two_nodes
two_nodes-IsValid = (validated-IsValid test_checker test_in_order two_nodes two_nodes_checked).0
