-- ===== src/Store/Checked.antt =====
-- `validateStoreSemantics` against the predicate `IsValid` (internal/manager/store.go).
use mathlib.Core.List.{Permᴰ}
use proxyscene.Common.{
  >>-eq-ok, >>=-eq-ok, All, Bool, Bool-cases, IsNodup, List, Option, String, [], accepted, ap,
  arith, bad_default, bad_version, contains, eq_iff, eqb, eqb_iff, false, ge→ltb, inl, inr, int_eqb,
  int_eqb_iff, length, ltb→ge, map, none, not, ok, ok-injective, refl, reject_if,
  scene_without_node, some, subst, suc, sym, too_many_nodes, too_many_subscriptions,
  too_many_targets, true, unseen_none, ℕ, ◌&&◌, ◌==◌, ◌∙◌, ◌∷◌, ◌≡◌, ◌≤◌, ◌⊎◌,
}
use proxyscene.Config.{Config, RuntimeConfig, apply_to, empty_config, runtime_config_version}
use proxyscene.Config.Accepts.{IsRunnable, validate_runtime_iff}
use proxyscene.Config.Validate.{max_telegram_targets, ports_of}
use proxyscene.Store.{Node, Store, has_enabled_scene}
use proxyscene.Store.CheckNodes.{clean_node, nodes_checked, nodes_pass}
use proxyscene.Store.CheckParts.{
  AreSubscriptions, AreTexts, clean_results, results_checked, results_pass, scene_enabled_checked,
  scene_enabled_pass, scene_nodes_checked, scene_nodes_pass, stored_targets_checked,
  stored_targets_pass, subscriptions_checked, subscriptions_pass,
}
use proxyscene.Store.Valid.{IsNode, IsResult, IsSceneNode, IsStoredConfig, IsValid, known_sources}
use proxyscene.Store.Validate.{
  Checker, check_nodes, check_results, check_scene_enabled, check_scene_nodes, check_stored_targets,
  check_subscriptions, node_ids, node_urls, validate_store_semantics, validate_stored_config,
}
use proxyscene.Systemd.{safe_systemd_target_name}

-- The store with its display texts cleaned, nothing else changed.
abbrev pub clean_store : Store → Store
clean_store st = record st {
  nodes = map clean_node st.nodes;
  speed_results = clean_results st.speed_results;
}

pub node_ids-clean : (nodes : List Node) → node_ids (map clean_node nodes) ≡ node_ids nodes
node_ids-clean [] = refl
node_ids-clean (n ∷ rest) = ap (λ z. n.id ∷ z) (node_ids-clean rest)

node_urls-clean : (nodes : List Node) → node_urls (map clean_node nodes) ≡ node_urls nodes
node_urls-clean [] = refl
node_urls-clean (n ∷ rest) = ap (λ z. n.raw_url ∷ z) (node_urls-clean rest)

length-clean : (nodes : List Node) → length (map clean_node nodes) ≡ length nodes
length-clean [] = refl
length-clean (n ∷ rest) = ap suc (length-clean rest)

idle_test :
    (st : Store)
    → (eqb (length st.nodes) 0 && has_enabled_scene st) ≡ false
    → length st.nodes ≡ 0
    → has_enabled_scene st ≡ false
idle_test st h e = ground arith

default_test :
    (id : String) (ids : List String)
    → (not (id == "") && not (contains ids id)) ≡ false
    → (id ≡ "") ⊎ (contains ids id ≡ true)
default_test id ids h = ground (arith, eq_iff id "")

default_passes :
    (id : String) (ids : List String)
    → (id ≡ "") ⊎ (contains ids id ≡ true)
    → (not (id == "") && not (contains ids id)) ≡ false
default_passes id ids h = ground (arith, eq_iff id "")

idle_passes :
    (st : Store)
    → (length st.nodes ≡ 0 → has_enabled_scene st ≡ false)
    → (eqb (length st.nodes) 0 && has_enabled_scene st) ≡ false
idle_passes st h = elim (Bool-cases (eqb (length st.nodes) 0)) [
  | inl e ↦ rw (e, h ((eqb_iff _ _).0 e))
  | inr e ↦ rw e
]

idle_clean :
    (st : Store)
    → (eqb (length st.nodes) 0 && has_enabled_scene st) ≡ false
    → length (clean_store st).nodes ≡ 0
    → has_enabled_scene (clean_store st) ≡ false
unfolding has_enabled_scene
idle_clean st h e = unfold has_enabled_scene in idle_test st h (sym (length-clean st.nodes) ∙ e)

module _ (k : Checker) (in_order : (c : Config) → Permᴰ (k.order c) (ports_of c)) where
  config_checked :
      (o : Option RuntimeConfig)
      → validate_stored_config k.platform k.order o ≡ ok tt
      → IsStoredConfig k.platform o
  unfolding validate_stored_config
  config_checked none h = tt
  config_checked (some r) h =
      let (version, h) = >>-eq-ok (reject_if _ bad_version) _ h in
      let (few, h) = >>-eq-ok (reject_if _ too_many_targets) _ h in
      let c = apply_to (some r) empty_config in
      (same_version r (accepted _ _ version), (validate_runtime_iff k.platform c (in_order c)).0 h)
    where
      same_version :
          (r : RuntimeConfig)
          → not (int_eqb r.version runtime_config_version) ≡ false
          → r.version ≡ runtime_config_version
      same_version r e = ground (arith, int_eqb_iff r.version runtime_config_version)

  config_passes :
      (o : Option RuntimeConfig)
      → IsStoredConfig k.platform o
      → validate_stored_config k.platform k.order o ≡ ok tt
  unfolding validate_stored_config
  config_passes none h = refl
  config_passes (some r) (version, runs) =
      let c = apply_to (some r) empty_config in
      let few : length r.tg_target_services ≤ max_telegram_targets = few_services r runs in
      rw ((int_eqb_iff r.version runtime_config_version).1 version)
        (rw (ge→ltb _ _ few) ((validate_runtime_iff k.platform c (in_order c)).1 runs))
    where
      few_services :
          (r : RuntimeConfig)
          → IsRunnable k.platform (apply_to (some r) empty_config)
          → length r.tg_target_services ≤ max_telegram_targets
      few_services r runs = unfold apply_to in runs.few

  -- What `validateStoreSemantics` accepts it returns as a valid store, which is the given one with
  -- its display texts cleaned: no ID, link, subscription or target stands twice, and no
  -- reference to a node or a subscription dangles.
  pub validated-IsValid :
      (st : Store) {x : Store × Bool}
      → validate_store_semantics k st ≡ ok x
      → IsValid k x.0 × (x.0 ≡ clean_store st)
  unfolding validate_store_semantics
  validated-IsValid st {x} h =
      let (config, h) = >>-eq-ok (validate_stored_config k.platform k.order st.stored_config) _ h in
      let (few_nodes, h) = >>-eq-ok (reject_if _ too_many_nodes) _ h in
      let (few_subs, h) = >>-eq-ok (reject_if _ too_many_subscriptions) _ h in
      let (few_targets, h) = >>-eq-ok (reject_if _ too_many_targets) _ h in
      let (idle, h) = >>-eq-ok (reject_if _ scene_without_node) _ h in
      let (subs, h) = >>-eq-ok (check_subscriptions k.platform [] st.subscriptions) _ h in
      let known = known_sources k.platform st in
      let (checked, nodes, h) =
        >>=-eq-ok (check_nodes k.parser k.late known 0 [] [] st.nodes) _ h in
      let (default, h) = >>-eq-ok (reject_if _ bad_default) _ h in
      let (scenes, h) = >>-eq-ok (check_scene_nodes (node_ids st.nodes) st.scene_nodes) _ h in
      let (switches, h) = >>-eq-ok (check_scene_enabled st.scene_enabled) _ h in
      let (cleaned, results, h) =
        >>=-eq-ok (check_results (node_ids st.nodes) st.speed_results) _ h in
      let (targets, h) = >>-eq-ok (check_stored_targets [] st.telegram_targets) _ h in
      let are = nodes_checked k.parser k.late known 0 [] [] st.nodes nodes in
      let fine = results_checked (node_ids st.nodes) st.speed_results results in
      let links = subscriptions_checked k.platform [] st.subscriptions subs in
      let services = stored_targets_checked [] st.telegram_targets targets in
      let over = λ (P : List String → Type 0). subst P (sym (node_ids-clean st.nodes)) in
      let valid : IsValid k (clean_store st) = record {
        config = config_checked st.stored_config config;
        few_nodes = rw (length-clean st.nodes) (ltb→ge _ _ (accepted _ _ few_nodes));
        few_subscriptions = ltb→ge _ _ (accepted _ _ few_subs);
        few_targets = ltb→ge _ _ (accepted _ _ few_targets);
        idle = λ e. idle_clean st (accepted _ _ idle) e;
        subscriptions = links.each;
        unique_subscriptions = links.unique;
        nodes = record {
          each = subst (All (IsNode k.parser known)) are.cleaned are.each;
          unique_ids = over IsNodup are.unique_ids;
          unique_urls = subst IsNodup (sym (node_urls-clean st.nodes)) are.unique_urls;
        };
        default =
            over (λ ids. (st.default_node_id ≡ "") ⊎ (contains ids st.default_node_id ≡ true))
              (default_test st.default_node_id (node_ids st.nodes) (accepted _ _ default));
        scenes =
            over (λ ids. All (IsSceneNode ids) st.scene_nodes)
              (scene_nodes_checked (node_ids st.nodes) st.scene_nodes scenes);
        switches = scene_enabled_checked st.scene_enabled switches;
        results =
            over (λ ids. All (IsResult ids) (clean_results st.speed_results))
              (subst (All (IsResult (node_ids st.nodes))) fine.1 fine.0);
        targets = services.each;
        unique_targets = services.unique;
      } in
      let same : x.0 ≡ clean_store st =
        ap (λ y. y.0) (sym (ok-injective h))
        ∙ (λ i. record st { nodes = are.cleaned i; speed_results = fine.1 i }) in
      (subst (IsValid k) (sym same) valid, same)

  -- A valid store is accepted again, if the clock allows, and nothing of it is changed.
  pub IsValid-validate :
      (on_time : (i : ℕ) → k.late i ≡ false) (st : Store)
      → IsValid k st
      → validate_store_semantics k st ≡ ok (st, false)
  unfolding validate_store_semantics
  IsValid-validate on_time st v =
      let known = known_sources k.platform st in
      let ids = node_ids st.nodes in
      let subs : AreSubscriptions k.platform [] st.subscriptions = record {
        each = v.subscriptions;
        unique = v.unique_subscriptions;
        unseen = unseen_none st.subscriptions;
      } in
      let services : AreTexts (λ t. safe_systemd_target_name t ≡ ok tt) [] st.telegram_targets =
        record {
          each = v.targets;
          unique = v.unique_targets;
          unseen = unseen_none st.telegram_targets;
        } in
      rw (config_passes st.stored_config v.config, ge→ltb _ _ v.few_nodes)
        (rw (ge→ltb _ _ v.few_subscriptions, ge→ltb _ _ v.few_targets)
          (rw (idle_passes st v.idle, subscriptions_pass k.platform [] st.subscriptions subs)
            (rw
              (nodes_pass k.parser k.late known on_time 0 [] [] st.nodes v.nodes (unseen_none ids)
                (unseen_none (node_urls st.nodes)))
              (rw (default_passes st.default_node_id ids v.default) (
                rw (scene_nodes_pass ids st.scene_nodes v.scenes) (
                  rw (scene_enabled_pass st.scene_enabled v.switches) (
                    rw (results_pass ids st.speed_results v.results)
                      (rw (stored_targets_pass [] st.telegram_targets services)))))))))
