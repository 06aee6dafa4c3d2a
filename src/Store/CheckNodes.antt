-- ===== src/Store/CheckNodes.antt =====
-- The loop over the nodes in `validateStoreSemantics` (internal/manager/store.go).
use proxyscene.Common.{
  >>-eq-ok, >>=-eq-ok, All, Bool, Bool-cases, IsNodup, List, String, [], accepted, ap, arith,
  bad_node_id, bad_node_url, bad_protocol, contains, eq_iff, eq_refl, false, ge→ltb, inl, inr, len,
  long_name, ltb, ltb→ge, map, not, ok, ok-injective, push_unseen, refl, reject_if, subst, sym,
  timed_out, too_many_sources, trim_space, true, unseen_none, unseen_push, ℕ, ◌+◌, ◌==◌, ◌||◌, ◌∙◌,
  ◌∷◌, ◌≡◌, ◌≤◌,
}
use proxyscene.Links.{LinkParser, PreparedNode, max_node_url_bytes, prepare_stored_node}
use proxyscene.Store.{Node}
use proxyscene.Store.CheckParts.{AreTexts, sources_checked, sources_pass}
use proxyscene.Store.Valid.{AreNodes, IsNode}
use proxyscene.Store.Validate.{
  check_node, check_nodes, check_sources, clean_name, node_ids, node_urls, safe_store_identifier,
}
use proxyscene.Text.{sanitize_node_name}
use proxyscene.Text.Sanitize.{sanitize_node_name_clean}

-- The node as the validation leaves it.
abbrev pub clean_node : Node → Node
clean_node n = record n { name = sanitize_node_name n.name }

-- What a round of the loop found of a node, next to the IDs and links seen before.
pub record NodeChecked (l : LinkParser) (known ids urls : List String) (n : Node) (x : Node × Bool)
    : Type 0 where
  pub fine : IsNode l known x.0
  pub new_id : contains ids n.id ≡ false
  pub new_url : contains urls n.raw_url ≡ false
  pub cleaned : x.0 ≡ clean_node n

same_or_clean : (n : Node) → (clean_name n).0 ≡ clean_node n
unfolding clean_name
same_or_clean n = elim (Bool-cases (sanitize_node_name n.name == n.name)) [
  | inl e ↦ rw e (λ i. record n { name = sym ((eq_iff _ _).0 e) i })
  | inr e ↦ rw e
]

clean_name_fixed : (n : Node) → sanitize_node_name n.name ≡ n.name → clean_name n ≡ (n, false)
unfolding clean_name
clean_name_fixed n e = rw (e, eq_refl n.name)

same_protocol :
    (n : Node) (q : PreparedNode)
    → not (n.protocol == q.parsed.protocol) ≡ false
    → n.protocol ≡ q.parsed.protocol
same_protocol n q h = ground (arith, eq_iff n.protocol q.parsed.protocol)

module _ (l : LinkParser) (known ids urls : List String) where
  id_tests :
      (n : Node)
      → (not (safe_store_identifier n.id) || contains ids n.id) ≡ false
      → (safe_store_identifier n.id ≡ true) × (contains ids n.id ≡ false)
  id_tests n h = (ground arith, ground arith)

  url_tests :
      (n : Node)
      → (ltb max_node_url_bytes (len n.raw_url)
          || not (trim_space n.raw_url == n.raw_url)
          || contains urls n.raw_url)
        ≡ false
      → (len n.raw_url ≤ max_node_url_bytes)
        × (trim_space n.raw_url ≡ n.raw_url)
        × (contains urls n.raw_url ≡ false)
  url_tests n h =
      (ground arith, ground (arith, eq_iff (trim_space n.raw_url) n.raw_url), ground arith)

  pub node_checked :
      (n : Node) {x : Node × Bool}
      → check_node l known ids urls n ≡ ok x
      → NodeChecked l known ids urls n x
  unfolding check_node
  node_checked n {x} h =
      let (id, h) = >>-eq-ok (reject_if _ bad_node_id) _ h in
      let (few, h) = >>-eq-ok (reject_if _ too_many_sources) _ h in
      let (sources, h) = >>-eq-ok (check_sources known [] n.subscription_ids) _ h in
      let (url, h) = >>-eq-ok (reject_if _ bad_node_url) _ h in
      let (prepared, link, h) = >>=-eq-ok (prepare_stored_node l n.raw_url) _ h in
      let (protocol, h) = >>-eq-ok (reject_if _ bad_protocol) _ h in
      let (name, h) = >>-eq-ok (reject_if _ long_name) _ h in
      let (safe_id, new_id) = id_tests n (accepted _ _ id) in
      let (short, trimmed, new_url) = url_tests n (accepted _ _ url) in
      let texts = sources_checked known [] n.subscription_ids sources in
      let cleaned : x.0 ≡ clean_node n = ap (λ y. y.0) (sym (ok-injective h)) ∙ same_or_clean n in
      record {
        fine = subst (IsNode l known) (sym cleaned) (record {
          safe_id = safe_id;
          few = ltb→ge _ _ (accepted _ _ few);
          sources = texts.each;
          unique = texts.unique;
          short = short;
          trimmed = trimmed;
          link = (prepared, link, same_protocol n prepared (accepted _ _ protocol));
          clean = (sanitize_node_name_clean n.name).2;
          short_name = ltb→ge _ _ (accepted _ _ name);
        });
        new_id = new_id;
        new_url = new_url;
        cleaned = cleaned;
      }

  pub node_passes :
      (n : Node)
      → IsNode l known n
      → contains ids n.id ≡ false
      → contains urls n.raw_url ≡ false
      → check_node l known ids urls n ≡ ok (n, false)
  unfolding check_node
  node_passes n h new_id new_url =
      let (q, link, protocol) = h.link in
      let sources : AreTexts (λ s. contains known s ≡ true) [] n.subscription_ids = record {
        each = h.sources;
        unique = h.unique;
        unseen = unseen_none n.subscription_ids;
      } in
      let same_text : (trim_space n.raw_url == n.raw_url) ≡ true = (eq_iff _ _).1 h.trimmed in
      let same : (n.protocol == q.parsed.protocol) ≡ true = (eq_iff _ _).1 protocol in
      rw (h.safe_id, new_id)
        (rw (ge→ltb _ _ h.few) (
          rw (sources_pass known [] n.subscription_ids sources) (
            rw (ge→ltb _ _ h.short, same_text, new_url)
              (rw link
                (rw same (rw (clean_name_fixed n h.clean, h.clean, ge→ltb _ _ h.short_name)))))))

pub record NodesChecked (l : LinkParser) (known ids urls : List String) (nodes : List Node)
    (x : List Node × Bool) : Type 0 where
  pub each : All (IsNode l known) x.0
  pub cleaned : x.0 ≡ map clean_node nodes
  pub unique_ids : IsNodup (node_ids nodes)
  pub unique_urls : IsNodup (node_urls nodes)
  pub unseen_ids : All (λ s. contains ids s ≡ false) (node_ids nodes)
  pub unseen_urls : All (λ s. contains urls s ≡ false) (node_urls nodes)

module _ (l : LinkParser) (late : ℕ → Bool) (known : List String) where
  pub nodes_checked :
      (i : ℕ) (ids urls : List String) (nodes : List Node) {x : List Node × Bool}
      → check_nodes l late known i ids urls nodes ≡ ok x
      → NodesChecked l known ids urls nodes x
  unfolding check_nodes
  nodes_checked i ids urls [] h =
      subst (NodesChecked l known ids urls []) (ok-injective h) (record {
        each = tt;
        cleaned = refl;
        unique_ids = tt;
        unique_urls = tt;
        unseen_ids = tt;
        unseen_urls = tt;
      })
  nodes_checked i ids urls (n ∷ rest) h =
      let (time, h) = >>-eq-ok (reject_if (late i) timed_out) _ h in
      let (first, node, h) = >>=-eq-ok (check_node l known ids urls n) _ h in
      let (others, after, h) =
        >>=-eq-ok (check_nodes l late known (i + 1) (n.id ∷ ids) (n.raw_url ∷ urls) rest) _ h in
      let one = node_checked l known ids urls n node in
      let r = nodes_checked (i + 1) (n.id ∷ ids) (n.raw_url ∷ urls) rest after in
      let (apart_id, unseen_ids) = unseen_push n.id ids (node_ids rest) r.unseen_ids in
      let (apart_url, unseen_urls) = unseen_push n.raw_url urls (node_urls rest) r.unseen_urls in
      subst (NodesChecked l known ids urls (n ∷ rest)) (ok-injective h) (record {
        each = (one.fine, r.each);
        cleaned = λ j. one.cleaned j ∷ r.cleaned j;
        unique_ids = (apart_id, r.unique_ids);
        unique_urls = (apart_url, r.unique_urls);
        unseen_ids = (one.new_id, unseen_ids);
        unseen_urls = (one.new_url, unseen_urls);
      })

  pub nodes_pass :
      (on_time : (i : ℕ) → late i ≡ false)
      → (i : ℕ) (ids urls : List String) (nodes : List Node) → AreNodes l known nodes
      → All (λ s. contains ids s ≡ false) (node_ids nodes)
      → All (λ s. contains urls s ≡ false) (node_urls nodes)
      → check_nodes l late known i ids urls nodes ≡ ok (nodes, false)
  unfolding check_nodes
  nodes_pass on_time i ids urls [] h a b = refl
  nodes_pass on_time i ids urls (n ∷ rest) h a b =
      let others =
        nodes_pass on_time (i + 1) (n.id ∷ ids) (n.raw_url ∷ urls) rest
          (record { each = h.each.1; unique_ids = h.unique_ids.1; unique_urls = h.unique_urls.1 })
          (push_unseen n.id ids (node_ids rest) h.unique_ids.0 a.1)
          (push_unseen n.raw_url urls (node_urls rest) h.unique_urls.0 b.1) in
      rw (on_time i, node_passes l known ids urls n h.each.0 a.0 b.0, others)
