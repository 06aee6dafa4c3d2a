-- ===== src/Nodes/AddNode.antt =====
-- `addNode` keeps a store valid (internal/manager/node.go).
use proxyscene.Common.{
  >>-eq-ok, >>=-eq-ok, Bool-cases, List, Option, Option-cases, String, [], accepted, arith,
  bad_node, eq_iff, false, ge→ltb, if◌then◌else◌, inl, inr, leb, len, length, long_name, ltb,
  ltb→ge, none, ok, ok-injective, refl, reject_if, some, subst, sym, too_many_nodes, trim_space,
  true, unsupported_node, ℕ, ◌++◌, ◌+◌, ◌<◌, ◌==◌, ◌∙◌, ◌∷◌, ◌≡◌, ◌≢◌, ◌≤◌,
}
use proxyscene.Links.{
  LinkParser, ParsedNode, PreparedNode, max_node_name_bytes, max_node_url_bytes, prepare_node,
  prepare_stored_node,
}
use proxyscene.Nodes.{
  add_again, add_found, add_new, add_node, add_prepared_node, change_node, free_id, given_name,
  new_name, new_node, or_no_id, use_if_scope,
}
use proxyscene.Nodes.Add.{changed-IsValid}
use proxyscene.Nodes.Append.{again-IsNode, again-field, appended-IsValid, free_id-new, no_url}
use proxyscene.Nodes.References.{is_found-find_node}
use proxyscene.Nodes.Use.{use_node-IsValid}
use proxyscene.Store.{Node, Store, find_node_by_url}
use proxyscene.Store.Valid.{IsNode, IsValid}
use proxyscene.Store.Validate.{Checker, max_total_nodes, safe_store_identifier}
use proxyscene.Text.{sanitize_node_name}
use proxyscene.Text.Sanitize.{sanitize_node_name_clean, trim_space_idem}

-- What `prepareNode` makes of a link.
record IsPrepared (l : LinkParser) (raw : String) (q : PreparedNode) : Type 0 where
  link : q.raw_url ≡ trim_space raw
  parsed : l.parse_node q.raw_url ≡ some q.parsed
  nonempty : (q.raw_url == "") ≡ false
  short : len q.raw_url ≤ max_node_url_bytes
  short_name : len q.parsed.name ≤ max_node_name_bytes

stored_link :
    (l : LinkParser) (raw : String) {q : PreparedNode}
    → prepare_stored_node l raw ≡ ok q
    → IsPrepared l raw q
unfolding prepare_stored_node
stored_link l raw {q} h =
    let t = trim_space raw in
    elim (Bool-cases (t == "")) [
      | inl e ↦ cc (rw e at h)
      | inr some_text ↦ elim (Bool-cases (ltb max_node_url_bytes (len t))) [
        | inl e ↦ cc (rw (some_text, e) at h)
        | inr short ↦ elim (Option-cases (l.parse_node t)) [
          | inl e ↦ cc (rw (some_text, short, e) at h)
          | inr (pn, parsed) ↦ elim (Bool-cases (ltb max_node_name_bytes (len pn.name))) [
            | inl e ↦ cc (rw (some_text, short, parsed, e) at h)
            | inr name ↦
                subst (IsPrepared l raw) (ok-injective (rw (some_text, short, parsed, name) at h))
                  (record {
                    link = refl;
                    parsed = parsed;
                    nonempty = some_text;
                    short = ltb→ge _ _ short;
                    short_name = ltb→ge _ _ name;
                  })
          ]
        ]
      ]
    ]

trimmed_link :
    (l : LinkParser) (raw : String) (q : PreparedNode)
    → IsPrepared l raw q
    → trim_space q.raw_url ≡ q.raw_url
trimmed_link l raw q h = rw h.link (trim_space_idem raw)

prepared_again :
    (l : LinkParser) (raw : String) (q : PreparedNode)
    → IsPrepared l raw q
    → prepare_stored_node l q.raw_url ≡ ok q
unfolding prepare_stored_node
prepared_again l raw q h =
    rw (trimmed_link l raw q h, h.nonempty, ge→ltb _ _ h.short, h.parsed, ge→ltb _ _ h.short_name)

abbrev IsName : String → Type 0
IsName name = (sanitize_node_name name ≡ name) × (len name ≤ max_node_name_bytes)

apart : (s t : String) → s ≢ t → (s == t) ≡ false
apart s t h = ground (arith, eq_iff s t)

unlike : (s t : String) → (s == t) ≡ false → s ≢ t
unlike s t h e = ground (arith, eq_iff s t)

not_empty : (name : String) → sanitize_node_name name ≡ name → name ≢ ""
not_empty name e z = (sanitize_node_name_clean name).0 (e ∙ z)

new_name-IsName :
    (name : String) (q : PreparedNode)
    → (name ≢ "" → IsName name)
    → IsName q.parsed.name
    → IsName (new_name name q)
unfolding new_name
new_name-IsName name q given parsed = elim (Bool-cases (name == "")) [
  | inl e ↦ rw (e, apart q.parsed.name "" (not_empty q.parsed.name parsed.0)) parsed
  | inr e ↦ rw e (given (unlike name "" e))
]

-- A parser gives clean names, an ID that is drawn is a safe identifier.
module _ (k : Checker) (now : ℕ) (new_id : ℕ → String) (seq : ℕ)
    (clean_names : (raw : String) (pn : ParsedNode)
      → k.parser.parse_node raw ≡ some pn
      → sanitize_node_name pn.name ≡ pn.name)
    (safe_draws : (i : ℕ) → safe_store_identifier (new_id i) ≡ true) where
  -- A name as `given_name` leaves it: none, or a clean one.
  IsGiven : String → Type 0
  IsGiven name = (name ≢ "") → IsName name

  given : (name : String) {clean : String} → given_name name ≡ ok clean → IsGiven clean
  unfolding given_name IsGiven
  given name {clean} h = elim (Bool-cases (name == "")) [
    | inl e ↦ λ some_name. elim (some_name (sym (ok-injective (rw e at h)))) [ ]
    | inr e ↦
        let (short, h) = >>-eq-ok (reject_if _ long_name) _ (rw e at h) in
        λ _.
          subst IsName (ok-injective h)
            ((sanitize_node_name_clean name).2, ltb→ge _ _ (accepted _ long_name short))
  ]

  named :
      (raw : String) (q : PreparedNode) (name : String)
      → IsPrepared k.parser raw q
      → IsGiven name
      → IsName (new_name name q)
  unfolding IsGiven
  named raw q name h g =
      new_name-IsName name q g (clean_names q.raw_url q.parsed h.parsed, h.short_name)

  new_node-IsNode :
      (known : List String) (id : String) (raw : String) (q : PreparedNode) (name : String)
      → safe_store_identifier id ≡ true
      → IsPrepared k.parser raw q
      → IsGiven name
      → IsNode k.parser known (new_node now id q name)
  unfolding new_node IsGiven
  new_node-IsNode known id raw q name safe h g = record {
    safe_id = safe;
    few = omega arith;
    sources = tt;
    unique = tt;
    short = h.short;
    trimmed = trimmed_link k.parser raw q h;
    link = (q, prepared_again k.parser raw q h, refl);
    clean = (named raw q name h g).0;
    short_name = (named raw q name h g).1;
  }

  used-IsValid :
      (st : Store) (id scope : String) {st' : Store}
      → IsValid k st
      → use_if_scope st id scope ≡ ok st'
      → IsValid k st'
  unfolding use_if_scope
  used-IsValid st id scope v h = elim (Bool-cases (scope == "")) [
    | inl e ↦ subst (IsValid k) (ok-injective (rw e at h)) v
    | inr e ↦ use_node-IsValid k st id scope v (rw e at h)
  ]

  add_again-IsValid :
      (st : Store) (old : Node) (name scope : String) {x : Store × String}
      → IsValid k st
      → IsGiven name
      → add_again now st old name scope ≡ ok x
      → IsValid k x.0
  unfolding add_again IsGiven
  add_again-IsValid st old name scope v g h =
      let f = λ (n : Node).
        if name == ""
        then record n { subscription_managed = false }
        else record n { subscription_managed = false; name = name; updated_at = now } in
      let (used, chosen, h) =
        >>=-eq-ok (use_if_scope (record st { nodes = change_node old.id f st.nodes }) old.id scope)
          _ h in
      subst (λ (x : Store × String). IsValid k x.0) (ok-injective h)
        (used-IsValid _ old.id scope
          (changed-IsValid k st old.id f (λ n. again-field (λ m. m.id) (name == "") _ _ n refl refl)
            (λ n. again-field (λ m. m.raw_url) (name == "") _ _ n refl refl)
            (λ n. again-IsNode k.parser _ now name n g) v)
          chosen)

  add_new-IsValid :
      (st : Store) (raw : String) (q : PreparedNode) (name scope : String) {x : Store × String}
      → IsValid k st
      → IsPrepared k.parser raw q
      → IsGiven name
      → find_node_by_url st.nodes q.raw_url ≡ none
      → add_new now new_id seq st q name scope ≡ ok x
      → IsValid k x.0
  unfolding add_new
  add_new-IsValid st raw q name scope v p g new h =
      let (room, h) =
        >>-eq-ok (reject_if (leb max_total_nodes (length st.nodes)) too_many_nodes) _ h in
      let (id, drawn, h) =
        >>=-eq-ok (or_no_id (free_id new_id st.nodes seq (length st.nodes + 1))) _ h in
      let grown = record st {
        nodes = st.nodes ++ (new_node now id q name ∷ []);
        default_node_id = if st.default_node_id == "" then id else st.default_node_id;
      } in
      let (used, chosen, h) = >>=-eq-ok (use_if_scope grown id scope) _ h in
      let ((i, from), free) = free_id-new new_id st.nodes seq (length st.nodes + 1) drawn in
      let safe = subst (λ z. safe_store_identifier z ≡ true) from (safe_draws i) in
      let valid =
        appended-IsValid k st (new_node now id q name) (below _ _ (accepted _ too_many_nodes room))
          (new_node-IsNode _ id raw q name safe p g) (sym (is_found-find_node st.nodes id) ∙ free)
          (no_url st.nodes q.raw_url new) v in
      subst (λ (x : Store × String). IsValid k x.0) (ok-injective h)
        (used-IsValid grown id scope valid chosen)
    where
      below : (a b : ℕ) → leb a b ≡ false → b < a
      below a b e = ground arith

  add_found-IsValid :
      (st : Store) (raw : String) (q : PreparedNode) (name scope : String) (old : Option Node)
      {x : Store × String}
      → IsValid k st
      → IsPrepared k.parser raw q
      → IsGiven name
      → find_node_by_url st.nodes q.raw_url ≡ old
      → add_found now new_id seq st q name scope old ≡ ok x
      → IsValid k x.0
  unfolding add_found
  add_found-IsValid st raw q name scope none v p g e h =
      add_new-IsValid st raw q name scope v p g e h
  add_found-IsValid st raw q name scope (some old) v p g e h =
      add_again-IsValid st old name scope v g h

  -- An added node keeps a valid store valid, whether its link is new or there already, and with any
  -- scope. The parsers give clean names, and the counter gives safe identifiers.
  pub add_node-IsValid :
      (st : Store) (raw name scope : String) {st' : Store} {id : String}
      → IsValid k st
      → add_node k.parser now new_id seq st raw name scope ≡ ok (st', id)
      → IsValid k st'
  unfolding add_node add_prepared_node prepare_node
  add_node-IsValid st raw name scope v h =
      let (q, prepared, h) = >>=-eq-ok (prepare_node k.parser raw) _ h in
      let (stored, made, prepared) = >>=-eq-ok (prepare_stored_node k.parser raw) _ prepared in
      let (_, prepared) = >>-eq-ok (reject_if _ unsupported_node) _ prepared in
      let p =
        subst (IsPrepared k.parser raw) (ok-injective prepared) (stored_link k.parser raw made) in
      let (_, h) = >>-eq-ok (reject_if (q.raw_url == "") bad_node) _ h in
      let (clean, named, h) = >>=-eq-ok (given_name name) _ h in
      add_found-IsValid st raw q clean scope _ v p (given name named) refl h
