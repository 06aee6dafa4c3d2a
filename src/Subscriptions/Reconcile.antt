-- ===== src/Subscriptions/Reconcile.antt =====
-- `reconcileSubscriptions` (internal/manager/subscription.go) with the identity and the priority of a
-- node (internal/manager/subscription_identity.go). The clock is `now`, and `newNodeID` is `new_id`,
-- from the value of its counter to the ID. The source reads `sub.Nodes[0]` and a removed node by its
-- ID only where they are there; where they are not, the model goes on without.
pub mod Plan
pub mod Apply
pub mod Sources
use Prim.Native.String.{◌++◌ as ◌⧺◌}
use proxyscene.Common.{
  Assoc, Bool, List, Result, String, [], bad_node, contains, duplicate_subscription, eqb, err,
  if◌then◌else◌, insert, invalid_subscription, leb, length, lookup, none, none_usable, not, ok,
  reject_if, some, too_many_subscriptions, ℕ, ◌++◌, ◌+◌, ◌==◌, ◌>>=◌, ◌>>◌, ◌||◌, ◌∷◌,
}
use proxyscene.Links.{LinkParser, PreparedNode, prepare_node, unnamed}
use proxyscene.Platform.{Platform}
use proxyscene.Store.{Node, Store, is_found}
use proxyscene.Store.Validate.{max_subscriptions, subscription_id}

-- `preparedSubscription`, without the fields for display.
pub record PreparedSubscription : Type 0 where
  pub url : String
  pub found : List PreparedNode
  pub invalid : ℕ
  pub incomplete : Bool

-- `subscriptionChanges`
pub record Changes : Type 0 where
  pub added : ℕ
  pub existing : ℕ
  pub removed_count : ℕ
  pub bad_entries : ℕ
  pub unmanaged : ℕ
  pub reselected : ℕ

-- `subscriptionNodeIdentity`
unfoldable pub identity_of : Platform → String → Result PreparedNode → String
identity_of p raw (err e) = "raw:" ⧺ raw
identity_of p raw (ok prepared) = elim prepared.parsed.outbound [
  | none ↦ "raw:" ⧺ raw
  | some canonical ↦ "config:" ⧺ (prepared.parsed.protocol ⧺ (":" ⧺ p.sha256_hex canonical))
]

unfoldable pub subscription_node_identity : Platform → LinkParser → String → String
unfolding identity_of prepare_node
subscription_node_identity p l raw = identity_of p raw (prepare_node l raw)

-- `subscriptionNodePriority`
unfoldable pub subscription_node_priority : Node → List String → ℕ
subscription_node_priority n protected =
    if contains protected n.id then 2 else if not n.subscription_managed then 1 else 0

-- `subscriptionNodeName`
unfoldable pub subscription_node_name : PreparedNode → String
subscription_node_name prepared =
    if not (prepared.parsed.name == "") then prepared.parsed.name else unnamed prepared

-- `validateSubscriptionRefresh`
unfoldable pub validate_subscription_refresh : PreparedSubscription → Result (Unit {0})
validate_subscription_refresh sub =
    reject_if (eqb (length sub.found) 0 || not (eqb sub.invalid 0) || sub.incomplete)
      invalid_subscription

-- A missing key of a map of texts, or of lists of texts.
unfoldable pub read_text : String → Assoc String → String
read_text key m = elim (lookup key m) [ none ↦ "" | some s ↦ s ]

unfoldable pub read_texts : String → Assoc (List String) → List String
read_texts key m = elim (lookup key m) [ none ↦ [] | some s ↦ s ]

unfoldable pub has_key {ℓ} : {V : Type ℓ} → String → Assoc V → Bool
has_key key m = is_found (lookup key m)

-- What the loop over the prepared subscriptions gathers.
pub record Scan : Type 0 where
  pub all_sources : List String
  pub refreshing : List String
  pub desired : Assoc PreparedNode
  pub by_key : Assoc (List String)
  pub key_order : List String
  pub bad_count : ℕ

module _ (p : Platform) (l : LinkParser) where
  unfoldable pub scan_node : String → PreparedNode → Scan → Scan
  unfolding has_key read_texts subscription_node_identity
  scan_node id node s =
      let key = subscription_node_identity p l node.raw_url in
      record s {
        desired = if has_key key s.desired then s.desired else insert key node s.desired;
        key_order = if has_key key s.desired then s.key_order else s.key_order ++ (key ∷ []);
        by_key =
            if contains (read_texts key s.by_key) id
            then s.by_key
            else insert key (read_texts key s.by_key ++ (id ∷ [])) s.by_key;
      }

  unfoldable pub scan_nodes : String → List PreparedNode → Scan → Result Scan
  unfolding scan_node
  scan_nodes id [] s = ok s
  scan_nodes id (node ∷ rest) s = do
    reject_if (node.raw_url == "") bad_node
    scan_nodes id rest (scan_node id node s)

  -- A known subscription has to be complete, a new one to have room.
  unfoldable pub admit : Store → PreparedSubscription → List String → Result (List String)
  unfolding validate_subscription_refresh
  admit st sub all =
      if contains st.subscriptions sub.url
      then (do validate_subscription_refresh sub; ok all)
      else (do
        reject_if (leb max_subscriptions (length all)) too_many_subscriptions
        ok (all ++ (sub.url ∷ [])))

  unfoldable pub scan_all : Store → List PreparedSubscription → Scan → Result Scan
  unfolding admit scan_nodes
  scan_all st [] s = ok s
  scan_all st (sub ∷ rest) s = do
    reject_if (eqb (length sub.found) 0) none_usable
    all ← admit st sub s.all_sources
    let id = subscription_id p sub.url
    reject_if (contains s.refreshing id) duplicate_subscription
    next ← scan_nodes id sub.found (record s {
      all_sources = all;
      refreshing = id ∷ s.refreshing;
      bad_count = s.bad_count + sub.invalid;
    })
    scan_all st rest next
