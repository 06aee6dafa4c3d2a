-- ===== src/Nodes/Append.antt =====
-- A node behind the others, with an ID and a link of its own (internal/manager/node.go).
use proxyscene.Common.{
  All-append, Bool, Bool-cases, IsNodup, List, String, [], arith, contains, eq_iff, eq_refl, false,
  if◌then◌else◌, inl, inr, len, length, length-append, map, none, ok, ok-injective, refl, subst,
  suc, true, zero, ℕ, ◌++◌, ◌+◌, ◌<◌, ◌==◌, ◌||◌, ◌∷◌, ◌≡◌, ◌≢◌, ◌≤◌, ◌⊎◌,
}
use proxyscene.Links.{LinkParser, max_node_name_bytes}
use proxyscene.Nodes.{free_id, or_no_id}
use proxyscene.Nodes.Add.{grown-IsValid}
use proxyscene.Store.{Node, Store, find_node, find_node_by_url, is_found}
use proxyscene.Store.Valid.{IsNode, IsValid, known_sources}
use proxyscene.Store.Validate.{Checker, max_total_nodes, node_ids, node_urls}
use proxyscene.Text.{sanitize_node_name}

if_holds :
    (P : Node → Type 0) (b : Bool) (x y : Node)
    → (b ≡ true → P x)
    → (b ≡ false → P y)
    → P (if b then x else y)
if_holds P true x y f g = f refl
if_holds P false x y f g = g refl

contains-snoc :
    (g : Node → String) (nodes : List Node) (n : Node) (y : String)
    → contains (map g (nodes ++ (n ∷ []))) y ≡ (contains (map g nodes) y || g n == y)
unfolding contains
contains-snoc g [] n y = ground arith
contains-snoc g (m ∷ nodes) n y = ground (arith, contains-snoc g nodes n y)

IsNodup-snoc :
    (g : Node → String) (nodes : List Node) (n : Node)
    → IsNodup (map g nodes)
    → contains (map g nodes) (g n) ≡ false
    → IsNodup (map g (nodes ++ (n ∷ [])))
unfolding contains
IsNodup-snoc g [] n h new = (refl, tt)
IsNodup-snoc g (m ∷ nodes) n h new =
    let (a, b) = both (g m == g n) _ new in
    (
      rw (contains-snoc g nodes n (g m))
          (ground (arith, h.0, a, eq_iff (g m) (g n), eq_iff (g n) (g m))),
      IsNodup-snoc g nodes n h.1 b,
    )
  where
    both : (a b : Bool) → (a || b) ≡ false → (a ≡ false) × (b ≡ false)
    both a b h = ground arith

pub no_url :
    (nodes : List Node) (raw : String)
    → find_node_by_url nodes raw ≡ none
    → contains (node_urls nodes) raw ≡ false
unfolding find_node_by_url contains
no_url [] raw h = refl
no_url (n ∷ rest) raw h = elim (Bool-cases (n.raw_url == raw)) [
  | inl e ↦ cc (rw e at h)
  | inr e ↦ ground (arith, e, no_url rest raw (rw e at h))
]

-- A drawn ID is one of the counter's, and no node has it.
pub free_id-new :
    (new_id : ℕ → String) (nodes : List Node) (seq fuel : ℕ) {id : String}
    → or_no_id (free_id new_id nodes seq fuel) ≡ ok id
    → ((i : ℕ) × (new_id i ≡ id)) × (is_found (find_node nodes id) ≡ false)
unfolding free_id or_no_id
free_id-new new_id nodes seq zero h = cc
free_id-new new_id nodes seq (suc fuel) {id} h =
    elim (Bool-cases (is_found (find_node nodes (new_id seq)))) [
      | inl e ↦ free_id-new new_id nodes (seq + 1) fuel (rw e at h)
      | inr e ↦
          let same : new_id seq ≡ id = ok-injective (rw e at h) in
          ((seq, same), subst (λ i. is_found (find_node nodes i) ≡ false) same e)
    ]

-- A new node in a valid store; it is the default when there is none.
pub appended-IsValid :
    (k : Checker) (st : Store) (n : Node)
    → length st.nodes < max_total_nodes
    → IsNode k.parser (known_sources k.platform st) n
    → contains (node_ids st.nodes) n.id ≡ false
    → contains (node_urls st.nodes) n.raw_url ≡ false
    → IsValid k st
    → IsValid k (record st {
      nodes = st.nodes ++ (n ∷ []);
      default_node_id = if st.default_node_id == "" then n.id else st.default_node_id;
    })
appended-IsValid k st n room fine new_id new_url v =
    let size = length-append st.nodes (n ∷ []) in
    grown-IsValid k st (st.nodes ++ (n ∷ []))
      (if st.default_node_id == "" then n.id else st.default_node_id) (omega (arith, size, room))
      (λ e. omega (arith, size, e))
      (record {
        each =
            All-append (IsNode k.parser (known_sources k.platform st)) st.nodes (n ∷ [])
              v.nodes.each (fine, tt);
        unique_ids = IsNodup-snoc (λ m. m.id) st.nodes n v.nodes.unique_ids new_id;
        unique_urls = IsNodup-snoc (λ m. m.raw_url) st.nodes n v.nodes.unique_urls new_url;
      })
      (default_there st.nodes st.default_node_id n v.default)
      (λ y h. rw (contains-snoc (λ m. m.id) st.nodes n y, h)) v
  where
    default_there :
        (nodes : List Node) (old : String) (n : Node)
        → (old ≡ "") ⊎ (contains (node_ids nodes) old ≡ true)
        → ((if old == "" then n.id else old) ≡ "")
          ⊎ (contains (node_ids (nodes ++ (n ∷ []))) (if old == "" then n.id else old) ≡ true)
    default_there nodes old n h = elim (Bool-cases (old == "")) [
      | inl e ↦ inr (rw (e, contains-snoc (λ m. m.id) nodes n n.id, eq_refl n.id) (ground arith))
      | inr e ↦ rw (e, contains-snoc (λ m. m.id) nodes n old) (ground (arith, h, eq_iff old ""))
    ]

-- A node of which a new addition of its link changed the flag, and perhaps the name.
pub again-IsNode :
    (l : LinkParser) (known : List String) (now : ℕ) (name : String) (n : Node)
    → (name ≢ "" → (sanitize_node_name name ≡ name) × (len name ≤ max_node_name_bytes))
    → IsNode l known n
    → IsNode l known (
        if name == ""
        then record n { subscription_managed = false }
        else record n { subscription_managed = false; name = name; updated_at = now })
again-IsNode l known now name n given h =
    if_holds (IsNode l known) (name == "") _ _
      (λ _. record {
        safe_id = h.safe_id;
        few = h.few;
        sources = h.sources;
        unique = h.unique;
        short = h.short;
        trimmed = h.trimmed;
        link = h.link;
        clean = h.clean;
        short_name = h.short_name;
      })
      (λ e.
        let (clean, short) = given (λ z. ground (arith, e, eq_iff name "")) in
        record {
          safe_id = h.safe_id;
          few = h.few;
          sources = h.sources;
          unique = h.unique;
          short = h.short;
          trimmed = h.trimmed;
          link = h.link;
          clean = clean;
          short_name = short;
        })

pub again-field :
    (g : Node → String) (b : Bool) (x y n : Node)
    → g x ≡ g n
    → g y ≡ g n
    → g (if b then x else y) ≡ g n
again-field g b x y n e f = if_holds (λ m. g m ≡ g n) b x y (λ _. e) (λ _. f)
