-- ===== src/Store/CheckParts.antt =====
-- The loops of `validateStoreSemantics` but that over the nodes: each accepts exactly what the
-- predicates of Valid.antt state (internal/manager/store.go).
use proxyscene.Common.{
  >>-eq-ok, >>=-eq-ok, All, Assoc, Bool, IsNodup, List, Option, String, [], accepted, ap, arith,
  bad_result, bad_scene, bad_source, bad_subscription, bad_target, contains, eq_iff, eq_refl, false,
  len, lowers_to, ltb, none, not, ok, ok-injective, push_unseen, refl, reject_if, some, subst,
  trim_space, true, unseen_push, ◌==◌, ◌||◌, ◌∙◌, ◌∷◌, ◌≡◌, ◌≢◌, ◌≤◌, ◌⊎◌,
}
use proxyscene.Config.{Scene}
use proxyscene.Platform.{Platform, Url}
use proxyscene.Store.{SpeedResult, known_scene}
use proxyscene.Store.Valid.{IsResult, IsSceneNode, IsSceneSwitch, IsSubscription}
use proxyscene.Store.Validate.{
  check_results, check_scene_enabled, check_scene_nodes, check_sources, check_stored_targets,
  check_subscriptions, clean_result, max_subscription_url_bytes, url_is_web,
}
use proxyscene.Systemd.{safe_systemd_target_name}
use proxyscene.Text.{sanitize_display_text}
use proxyscene.Text.Sanitize.{sanitize_display_text_clean}

pub record AreSubscriptions (p : Platform) (seen rest : List String) : Type 0 where
  pub each : All (IsSubscription p) rest
  pub unique : IsNodup rest
  pub unseen : All (λ t. contains seen t ≡ false) rest

subscription_text :
    (s : String) (seen : List String)
    → (s == ""
        || ltb max_subscription_url_bytes (len s)
        || not (trim_space s == s)
        || contains seen s)
      ≡ false
    → (s ≢ "")
      × (len s ≤ max_subscription_url_bytes)
      × (trim_space s ≡ s)
      × (contains seen s ≡ false)
subscription_text s seen h = (
  λ e. ground (arith, eq_iff s ""),
  ground arith,
  ground (arith, eq_iff (trim_space s) s),
  ground arith,
)

text_subscription :
    (s : String) (seen : List String)
    → s ≢ ""
    → len s ≤ max_subscription_url_bytes
    → trim_space s ≡ s
    → contains seen s ≡ false
    → (s == ""
        || ltb max_subscription_url_bytes (len s)
        || not (trim_space s == s)
        || contains seen s)
      ≡ false
text_subscription s seen a b c d = ground (arith, eq_iff s "", eq_iff (trim_space s) s)

web_url :
    (o : Option Url)
    → not (url_is_web o) ≡ false
    → (u : Url) × (o ≡ some u)
      × (u.host ≢ "")
      × ((lowers_to u.scheme "https" ≡ true) ⊎ (lowers_to u.scheme "http" ≡ true))
unfolding url_is_web
web_url none h = cc
web_url (some u) h = (u, refl, λ e. ground (arith, eq_iff u.host ""), ground arith)

url_web :
    (o : Option Url) (u : Url)
    → o ≡ some u
    → u.host ≢ ""
    → (lowers_to u.scheme "https" ≡ true) ⊎ (lowers_to u.scheme "http" ≡ true)
    → not (url_is_web o) ≡ false
unfolding url_is_web
url_web o u e h w = ground (arith, eq_iff u.host "")

pub subscriptions_checked :
    (p : Platform) (seen rest : List String)
    → check_subscriptions p seen rest ≡ ok tt
    → AreSubscriptions p seen rest
unfolding check_subscriptions
subscriptions_checked p seen [] h = record { each = tt; unique = tt; unseen = tt }
subscriptions_checked p seen (s ∷ rest) h =
    let (text, h) = >>-eq-ok (reject_if _ bad_subscription) _ h in
    let (web, h) = >>-eq-ok (reject_if (not (url_is_web (p.parse_url s))) bad_subscription) _ h in
    let r = subscriptions_checked p (s ∷ seen) rest h in
    let (apart, unseen) = unseen_push s seen rest r.unseen in
    let (nonempty, short, trimmed, fresh) = subscription_text s seen (accepted _ _ text) in
    record {
      each = (
        record {
          nonempty = nonempty;
          short = short;
          trimmed = trimmed;
          web = web_url (p.parse_url s) (accepted _ _ web);
        },
        r.each,
      );
      unique = (apart, r.unique);
      unseen = (fresh, unseen);
    }

pub subscriptions_pass :
    (p : Platform) (seen rest : List String)
    → AreSubscriptions p seen rest
    → check_subscriptions p seen rest ≡ ok tt
unfolding check_subscriptions
subscriptions_pass p seen [] h = refl
subscriptions_pass p seen (s ∷ rest) h =
    let one = h.each.0 in
    rw (text_subscription s seen one.nonempty one.short one.trimmed h.unseen.0) (
      rw (url_web (p.parse_url s) one.web.0 one.web.1 one.web.2 one.web.3) (
        subscriptions_pass p (s ∷ seen) rest (record {
          each = h.each.1;
          unique = h.unique.1;
          unseen = push_unseen s seen rest h.unique.0 h.unseen.1;
        })))

pub record AreTexts (P : String → Type 0) (seen rest : List String) : Type 0 where
  pub each : All P rest
  pub unique : IsNodup rest
  pub unseen : All (λ t. contains seen t ≡ false) rest

source_tests :
    (known seen : List String) (s : String)
    → (not (contains known s) || contains seen s) ≡ false
    → (contains known s ≡ true) × (contains seen s ≡ false)
source_tests known seen s h = (ground arith, ground arith)

pub sources_checked :
    (known seen rest : List String)
    → check_sources known seen rest ≡ ok tt
    → AreTexts (λ s. contains known s ≡ true) seen rest
unfolding check_sources
sources_checked known seen [] h = record { each = tt; unique = tt; unseen = tt }
sources_checked known seen (s ∷ rest) h =
    let (test, h) = >>-eq-ok (reject_if _ bad_source) _ h in
    let r = sources_checked known (s ∷ seen) rest h in
    let (apart, unseen) = unseen_push s seen rest r.unseen in
    let (old, fresh) = source_tests known seen s (accepted _ _ test) in
    record { each = (old, r.each); unique = (apart, r.unique); unseen = (fresh, unseen) }

pub sources_pass :
    (known seen rest : List String)
    → AreTexts (λ s. contains known s ≡ true) seen rest
    → check_sources known seen rest ≡ ok tt
unfolding check_sources
sources_pass known seen [] h = refl
sources_pass known seen (s ∷ rest) h =
    rw (h.each.0, h.unseen.0)
      (sources_pass known (s ∷ seen) rest (record {
        each = h.each.1;
        unique = h.unique.1;
        unseen = push_unseen s seen rest h.unique.0 h.unseen.1;
      }))

pub stored_targets_checked :
    (seen rest : List String)
    → check_stored_targets seen rest ≡ ok tt
    → AreTexts (λ t. safe_systemd_target_name t ≡ ok tt) seen rest
unfolding check_stored_targets
stored_targets_checked seen [] h = record { each = tt; unique = tt; unseen = tt }
stored_targets_checked seen (t ∷ rest) h =
    let (test, h) = >>-eq-ok (reject_if _ bad_target) _ h in
    let (safe, h) = >>-eq-ok (safe_systemd_target_name t) _ h in
    let r = stored_targets_checked (t ∷ seen) rest h in
    let (apart, unseen) = unseen_push t seen rest r.unseen in
    record {
      each = (safe, r.each);
      unique = (apart, r.unique);
      unseen = (accepted _ _ test, unseen);
    }

pub stored_targets_pass :
    (seen rest : List String)
    → AreTexts (λ t. safe_systemd_target_name t ≡ ok tt) seen rest
    → check_stored_targets seen rest ≡ ok tt
unfolding check_stored_targets
stored_targets_pass seen [] h = refl
stored_targets_pass seen (t ∷ rest) h = rw h.unseen.0 (
    rw h.each.0 (
      stored_targets_pass (t ∷ seen) rest (record {
        each = h.each.1;
        unique = h.unique.1;
        unseen = push_unseen t seen rest h.unique.0 h.unseen.1;
      })))

module _ (ids : List String) where
  scene_tests :
      (scene id : String)
      → (not (known_scene scene) || id == "" || not (contains ids id)) ≡ false
      → IsSceneNode ids (scene, id)
  scene_tests scene id h = (ground arith, (λ z. ground (arith, eq_iff id "")), ground arith)

  pub scene_nodes_checked :
      (m : Assoc String) → check_scene_nodes ids m ≡ ok tt → All (IsSceneNode ids) m
  unfolding check_scene_nodes
  scene_nodes_checked [] h = tt
  scene_nodes_checked ((scene, id) ∷ rest) h =
      let (test, h) = >>-eq-ok (reject_if _ bad_scene) _ h in
      (scene_tests scene id (accepted _ _ test), scene_nodes_checked rest h)

  pub scene_nodes_pass :
      (m : Assoc String) → All (IsSceneNode ids) m → check_scene_nodes ids m ≡ ok tt
  unfolding check_scene_nodes
  scene_nodes_pass [] h = refl
  scene_nodes_pass ((scene, id) ∷ rest) ((a, b, c), h) =
      let nonempty : (id == "") ≡ false = ground (arith, eq_iff id "") in
      rw (a, nonempty, c) (scene_nodes_pass rest h)

known_test : (scene : Scene) → not (known_scene scene) ≡ false → known_scene scene ≡ true
known_test scene h = ground arith

pub scene_enabled_checked : (m : Assoc Bool) → check_scene_enabled m ≡ ok tt → All IsSceneSwitch m
unfolding check_scene_enabled
scene_enabled_checked [] h = tt
scene_enabled_checked ((scene, on) ∷ rest) h =
    let (test, h) = >>-eq-ok (reject_if _ bad_scene) _ h in
    (known_test scene (accepted _ _ test), scene_enabled_checked rest h)

pub scene_enabled_pass : (m : Assoc Bool) → All IsSceneSwitch m → check_scene_enabled m ≡ ok tt
unfolding check_scene_enabled
scene_enabled_pass [] h = refl
scene_enabled_pass ((scene, on) ∷ rest) (a, h) = rw a (scene_enabled_pass rest h)

-- The results as the validation leaves them.
abbrev pub clean_results : Assoc SpeedResult → Assoc SpeedResult
clean_results [] = []
clean_results ((id, r) ∷ rest) = (id, (clean_result r).0) ∷ clean_results rest

clean_result_texts :
    (r : SpeedResult)
    → (sanitize_display_text (clean_result r).0.target 512 ≡ (clean_result r).0.target)
      × (sanitize_display_text (clean_result r).0.error 4096 ≡ (clean_result r).0.error)
      × ((clean_result r).0.node_id ≡ r.node_id)
unfolding clean_result
clean_result_texts r =
    let (_, _, target) = sanitize_display_text_clean r.target 512 in
    let (_, _, error) = sanitize_display_text_clean r.error 4096 in
    ground (
      arith,
      eq_iff (sanitize_display_text r.target 512) r.target,
      eq_iff (sanitize_display_text r.error 4096) r.error,
      target,
      error,
    )

clean_result_fixed :
    (r : SpeedResult)
    → sanitize_display_text r.target 512 ≡ r.target
    → sanitize_display_text r.error 4096 ≡ r.error
    → clean_result r ≡ (r, false)
unfolding clean_result
clean_result_fixed r c d = rw (c, d, eq_refl r.target, eq_refl r.error)

module _ (ids : List String) where
  result_tests :
      (id : String) (r : SpeedResult)
      → (not (contains ids id) || not (r.node_id == id)) ≡ false
      → (contains ids id ≡ true) × (r.node_id ≡ id)
  result_tests id r h = (ground arith, ground (arith, eq_iff r.node_id id))

  pub results_checked :
      (m : Assoc SpeedResult) {x : Assoc SpeedResult × Bool}
      → check_results ids m ≡ ok x
      → All (IsResult ids) x.0 × (x.0 ≡ clean_results m)
  unfolding check_results
  results_checked [] h =
      subst (λ y. All (IsResult ids) y.0 × (y.0 ≡ [])) (ok-injective h) (tt, refl)
  results_checked ((id, r) ∷ rest) h =
      let (test, h) = >>-eq-ok (reject_if _ bad_result) _ h in
      let (others, checked, h) = >>=-eq-ok (check_results ids rest) _ h in
      let (each, same) = results_checked rest checked in
      let (old, own) = result_tests id r (accepted _ _ test) in
      let (target, error, owner) = clean_result_texts r in
      subst (λ y. All (IsResult ids) y.0 × (y.0 ≡ clean_results ((id, r) ∷ rest))) (ok-injective h)
        (((old, owner ∙ own, target, error), each), ap (λ z. (id, (clean_result r).0) ∷ z) same)

  pub results_pass :
      (m : Assoc SpeedResult) → All (IsResult ids) m → check_results ids m ≡ ok (m, false)
  unfolding check_results
  results_pass [] h = refl
  results_pass ((id, r) ∷ rest) ((a, b, c, d), h) =
      let own : (r.node_id == id) ≡ true = (eq_iff r.node_id id).1 b in
      rw (a, own, clean_result_fixed r c d, results_pass rest h)
