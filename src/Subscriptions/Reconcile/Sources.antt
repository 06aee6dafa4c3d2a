-- ===== src/Subscriptions/Reconcile/Sources.antt =====
-- The sources and the sizes behind a reconciliation (internal/manager/subscription.go).
use proxyscene.Common.{
  >>-eq-ok, >>=-eq-ok, All, Bool-cases, List, String, [], accepted, ap, arith, bad_node, contains,
  contains-append, duplicate_subscription, eq_refl, eqb, false, inl, inr, leb, length,
  length-append, ltb, ltb→ge, none_usable, ok, ok-injective, others, reject_if, subst,
  too_many_nodes, too_many_subscriptions, true, ℕ, ◌++◌, ◌<◌, ◌==◌, ◌∙◌, ◌∷◌, ◌≡◌, ◌≤◌,
}
use proxyscene.Links.{LinkParser, PreparedNode}
use proxyscene.Platform.{Platform}
use proxyscene.Store.{Store}
use proxyscene.Store.Validate.{Checker, max_subscriptions, max_total_nodes, subscription_id}
use proxyscene.Subscriptions.Reconcile.{
  Changes, PreparedSubscription, Scan, admit, scan_all, scan_node, scan_nodes,
  validate_subscription_refresh,
}
use proxyscene.Subscriptions.Reconcile.Apply.{reconcile_subscriptions}
use proxyscene.Subscriptions.Reconcile.Plan.{add_keys}

-- The sources of a scan hold those of another one, and keep to the bound if those do.
abbrev IsGrown : List String → List String → Type 0
IsGrown old new =
    ((x : String) → contains old x ≡ true → contains new x ≡ true)
    × (length old ≤ max_subscriptions → length new ≤ max_subscriptions)

IsGrown-trans : (a b c : List String) → IsGrown a b → IsGrown b c → IsGrown a c
IsGrown-trans a b c f g = (λ x h. g.0 x (f.0 x h), λ h. g.1 (f.1 h))

appended :
    (xs : List String) (u : String)
    → leb max_subscriptions (length xs) ≡ false
    → IsGrown xs (xs ++ (u ∷ [])) × (contains (xs ++ (u ∷ [])) u ≡ true)
unfolding contains
appended xs u room =
    let size = length-append xs (u ∷ []) in
    (
      (
        (λ x h. contains-append xs (u ∷ []) x ∙ ground (arith, h)),
        (λ h. omega (arith, size, below _ _ room)),
      ),
      contains-append xs (u ∷ []) u ∙ ground (arith, eq_refl u),
    )
  where
    below : (a b : ℕ) → leb a b ≡ false → b < a
    below a b e = ground arith

module _ (p : Platform) (l : LinkParser) where
  scan_nodes-sources :
      (id : String) (found : List PreparedNode) (s : Scan) {s' : Scan}
      → scan_nodes p l id found s ≡ ok s'
      → s.all_sources ≡ s'.all_sources
  unfolding scan_nodes scan_node
  scan_nodes-sources id [] s h = ap (λ (x : Scan). x.all_sources) (ok-injective h)
  scan_nodes-sources id (node ∷ rest) s h =
      let (_, h) = >>-eq-ok (reject_if (node.raw_url == "") bad_node) _ h in
      scan_nodes-sources id rest (scan_node p l id node s) h

  admit_sources :
      (st : Store) (sub : PreparedSubscription) (all : List String) {all' : List String}
      → ((x : String) → contains st.subscriptions x ≡ true → contains all x ≡ true)
      → admit p l st sub all ≡ ok all'
      → IsGrown all all' × (contains all' sub.url ≡ true)
  unfolding admit
  admit_sources st sub all known h = elim (Bool-cases (contains st.subscriptions sub.url)) [
    | inl e ↦
        let (_, h) = >>-eq-ok (validate_subscription_refresh sub) _ (rw e at h) in
        subst (λ z. IsGrown all z × (contains z sub.url ≡ true)) (ok-injective h)
          (((λ x held. held), (λ held. held)), known sub.url e)
    | inr e ↦
        let (room, h) =
          >>-eq-ok (reject_if (leb max_subscriptions (length all)) too_many_subscriptions) _
            (rw e at h) in
        subst (λ z. IsGrown all z × (contains z sub.url ≡ true)) (ok-injective h)
          (appended all sub.url (accepted _ too_many_subscriptions room))
  ]

  scan_all-sources :
      (st : Store) (prepared : List PreparedSubscription) (s : Scan) {s' : Scan}
      → ((x : String) → contains st.subscriptions x ≡ true → contains s.all_sources x ≡ true)
      → scan_all p l st prepared s ≡ ok s'
      → IsGrown s.all_sources s'.all_sources
        × All (λ sub. contains s'.all_sources sub.url ≡ true) prepared
  unfolding scan_all
  scan_all-sources st [] s {s'} known h =
      let same = ap (λ (x : Scan). x.all_sources) (ok-injective h) in
      (subst (IsGrown s.all_sources) same ((λ x held. held), (λ held. held)), tt)
  scan_all-sources st (sub ∷ rest) s {s'} known h =
      let (_, h) = >>-eq-ok (reject_if (eqb (length sub.found) 0) none_usable) _ h in
      let (all, admitted, h) = >>=-eq-ok (admit p l st sub s.all_sources) _ h in
      let (_, h) = >>-eq-ok (reject_if _ duplicate_subscription) _ h in
      let (next, scanned, h) =
        >>=-eq-ok (scan_nodes p l (subscription_id p sub.url) sub.found _) _ h in
      let same : all ≡ next.all_sources =
        scan_nodes-sources (subscription_id p sub.url) sub.found _ scanned in
      let (grown, there) =
        subst (λ z. IsGrown s.all_sources z × (contains z sub.url ≡ true)) same
          (admit_sources st sub s.all_sources known admitted) in
      let (more, others) = scan_all-sources st rest next (λ x held. grown.0 x (known x held)) h in
      (
        IsGrown-trans s.all_sources next.all_sources s'.all_sources grown more,
        (more.0 sub.url there, others),
      )

-- A reconciliation that succeeds keeps every saved subscription, saves each one that was prepared,
-- and keeps to the bounds on nodes and, if the store did, on subscriptions.
pub reconcile_sources :
    (k : Checker) (now : ℕ) (new_id : ℕ → String) (seq : ℕ) (st : Store)
    (prepared : List PreparedSubscription) {x : Store × Changes}
    → reconcile_subscriptions k now new_id seq st prepared ≡ ok x
    → ((u : String) → contains st.subscriptions u ≡ true → contains x.0.subscriptions u ≡ true)
      × All (λ sub. contains x.0.subscriptions sub.url ≡ true) prepared
      × (length x.0.nodes ≤ max_total_nodes)
      × (length st.subscriptions ≤ max_subscriptions → length x.0.subscriptions ≤ max_subscriptions)
unfolding reconcile_subscriptions
reconcile_sources k now new_id seq st prepared {x} h =
    let (s, scanned, h) = >>=-eq-ok (scan_all k.platform k.parser st prepared _) _ h in
    let (grown, there) =
      scan_all-sources k.platform k.parser st prepared _ (λ u held. held) scanned in
    let (b, _, h) = >>=-eq-ok (add_keys now new_id s _ seq s.key_order _) _ h in
    let (room, h) =
      >>-eq-ok (reject_if (ltb max_total_nodes (length b.built)) too_many_nodes) _ h in
    subst
      (λ (y : Store × Changes).
        ((u : String) → contains st.subscriptions u ≡ true → contains y.0.subscriptions u ≡ true)
        × All (λ sub. contains y.0.subscriptions sub.url ≡ true) prepared
        × (length y.0.nodes ≤ max_total_nodes)
        × (length st.subscriptions ≤ max_subscriptions
            → length y.0.subscriptions ≤ max_subscriptions))
      (ok-injective h) (grown.0, there, ltb→ge _ _ (accepted _ too_many_nodes room), grown.1)
