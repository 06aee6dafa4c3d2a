-- ===== src/Subscriptions.antt =====
-- The sources of nodes: the selection of a saved subscription (internal/manager/subscription.go) and
-- the adoption of nodes (internal/manager/subscription_adopt.go).
pub mod Select
pub mod Adopt
pub mod Adopted
pub mod Reconcile
use proxyscene.Common.{
  Bool, Char, List, Option, Result, String, [], already_managed, atoi, bad_selection, bad_selector,
  between, code, contains, drop_runes, eqb, err, every_rune, get_elem?, has_prefix, if◌then◌else◌,
  index_out_of_range, keep_if, len, length, ltb, negsuc, no_node, no_subscription, none, not, ok,
  pos, reject_if, some, sort_texts, suc, true, zero, ℤ, ◌++◌, ◌==◌, ◌>>=◌, ◌>>◌, ◌||◌, ◌∷◌,
}
use proxyscene.Nodes.{change_node}
use proxyscene.Platform.{Platform}
use proxyscene.Store.{Node, Store, find_node}
use proxyscene.Store.Validate.{max_total_nodes, node_ids, subscription_id}

-- `selectSubscriptionURLs`, an entry of the list by its number from 1.
unfoldable pub by_number : List String → Option ℤ → Option String
by_number subscriptions none = none
by_number subscriptions (some (negsuc n)) = none
by_number subscriptions (some (pos zero)) = none
by_number subscriptions (some (pos (suc n))) = get_elem? subscriptions n

-- 0123456789abcdef
unfoldable pub is_hex : Char → Bool
is_hex r = let c = code r in between b'0' b'9' c || between b'a' b'f' c

-- `selectSubscriptionURLs`, the entries whose ID begins with the selector: there has to be one.
unfoldable pub by_id : Platform → List String → String → Result (List String)
unfolding is_hex
by_id p subscriptions selector = do
  reject_if (ltb (len selector) 16 || ltb 68 (len selector) || not (has_prefix selector "sub-"))
      bad_selector
  reject_if (not (every_rune is_hex (drop_runes 4 selector))) bad_selector
  let matches = keep_if (λ raw. has_prefix (subscription_id p raw) selector) subscriptions
  reject_if (not (eqb (length matches) 1)) bad_selection
  ok matches

unfoldable pub by_number_or_id :
    Platform → List String → String → Option String → Result (List String)
unfolding by_id
by_number_or_id p subscriptions selector (some raw) = ok (raw ∷ [])
by_number_or_id p subscriptions selector none = by_id p subscriptions selector

-- `selectSubscriptionURLs`
unfoldable pub select_subscription_urls : Platform → Store → String → Result (List String)
unfolding by_number by_number_or_id
select_subscription_urls p st selector = do
  reject_if (eqb (length st.subscriptions) 0) no_subscription
  if selector == "--all"
      then ok st.subscriptions
      else by_number_or_id p st.subscriptions selector (by_number st.subscriptions (atoi selector))

-- `subscriptionID(urls[0])`
unfoldable pub id_of_first : Platform → List String → Result String
id_of_first p [] = err index_out_of_range
id_of_first p (raw ∷ rest) = ok (subscription_id p raw)

-- `subscriptionMenuID`
unfoldable pub subscription_menu_id : Platform → Store → String → Result String
unfolding select_subscription_urls id_of_first
subscription_menu_id p displayed selector = do
  reject_if (selector == "--all") bad_selector
  urls ← select_subscription_urls p displayed selector
  id_of_first p urls

unfoldable pub check_unmanaged : Option Node → Result (Unit {0})
check_unmanaged none = err no_node
check_unmanaged (some n) = reject_if n.subscription_managed already_managed

-- `adoptSubscriptionNodesInStore`, the first loop.
unfoldable pub check_adopted : List Node → List String → List String → Result (Unit {0})
unfolding check_unmanaged
check_adopted nodes seen [] = ok tt
check_adopted nodes seen (id ∷ rest) = do
  reject_if (id == "" || contains seen id) bad_selection
  check_unmanaged (find_node nodes id)
  check_adopted nodes (id ∷ seen) rest

unfoldable pub adopted : String → Node → Node
adopted source n = record n {
  subscription_ids =
      if contains n.subscription_ids source
      then n.subscription_ids
      else sort_texts (n.subscription_ids ++ (source ∷ []));
  subscription_managed = true;
}

-- `adoptSubscriptionNodesInStore`, the second loop.
unfoldable pub adopt_nodes : String → List String → List Node → List Node
unfolding adopted change_node
adopt_nodes source [] nodes = nodes
adopt_nodes source (id ∷ rest) nodes =
    adopt_nodes source rest (change_node id (adopted source) nodes)

-- `adoptSubscriptionNodesInStore`
unfoldable pub adopt_subscription_nodes_in_store :
    Platform → Store → String → List String → Result Store
unfolding subscription_menu_id check_adopted adopt_nodes
adopt_subscription_nodes_in_store p st selector node_ids = do
  source ← subscription_menu_id p st selector
  reject_if (eqb (length node_ids) 0 || ltb max_total_nodes (length node_ids)) bad_selection
  check_adopted st.nodes [] node_ids
  ok (record st { nodes = adopt_nodes source node_ids st.nodes })
