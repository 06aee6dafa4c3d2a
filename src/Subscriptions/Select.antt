-- ===== src/Subscriptions/Select.antt =====
-- What the selection of subscriptions gives (internal/manager/subscription.go).
use proxyscene.Common.{
  >>-eq-ok, >>=-eq-ok, All, All-of-contains, Bool, Bool-cases, List, Option, String, [], accepted,
  ap, arith, atoi, bad_selection, bad_selector, contains, eq_iff, eqb, false, get_elem?, has_prefix,
  inl, inr, keep_if, keep_if-false, keep_if-true, length, negsuc, no_subscription, none, not, ok,
  ok-injective, pos, refl, reject_if, some, subst, suc, sym, true, zero, ℕ, ℤ, ◌==◌, ◌||◌, ◌∙◌, ◌∷◌,
  ◌≡◌, ◌≤◌,
}
use proxyscene.Platform.{Platform}
use proxyscene.Store.{Store}
use proxyscene.Store.Crash.{saved}
use proxyscene.Store.Validate.{subscription_id}
use proxyscene.Subscriptions.{
  by_id, by_number, by_number_or_id, id_of_first, select_subscription_urls, subscription_menu_id,
}

-- Saved subscriptions, one at least.
abbrev pub AreSaved : Store → List String → Type 0
AreSaved st urls = (1 ≤ length urls) × All (λ u. contains st.subscriptions u ≡ true) urls

member :
    (subscriptions : List String) (n : ℕ) {raw : String}
    → get_elem? subscriptions n ≡ some raw
    → contains subscriptions raw ≡ true
unfolding contains
member [] n h = cc
member (s ∷ rest) zero {raw} h = ground (arith, (eq_iff s raw).1 (some-injective s h))
  where
    text_of : String → Option String → String
    text_of s none = s
    text_of s (some t) = t

    some-injective : (s : String) {t : String} → some s ≡ some t → s ≡ t
    some-injective s h = ap (text_of s) h
member (s ∷ rest) (suc n) h = ground (arith, member rest n h)

numbered :
    (subscriptions : List String) (number : Option ℤ) {raw : String}
    → by_number subscriptions number ≡ some raw
    → contains subscriptions raw ≡ true
unfolding by_number
numbered subscriptions none h = cc
numbered subscriptions (some (negsuc n)) h = cc
numbered subscriptions (some (pos zero)) h = cc
numbered subscriptions (some (pos (suc n))) h = member subscriptions n h

kept_members :
    (t : String → Bool) (xs : List String) (y : String)
    → contains (keep_if t xs) y ≡ true
    → contains xs y ≡ true
unfolding contains
kept_members t [] y h = h
kept_members t (x ∷ xs) y h = elim (Bool-cases (t x)) [
  | inl e ↦ either (x == y) (kept_members t xs y) (rw (keep_if-true t x xs e) at h)
  | inr e ↦ later (x == y) (kept_members t xs y (rw (keep_if-false t x xs e) at h))
]
  where
    later : (b : Bool) {c : Bool} → c ≡ true → (b || c) ≡ true
    later b h = ground arith

    either : (b : Bool) {c d : Bool} → (c ≡ true → d ≡ true) → (b || c) ≡ true → (b || d) ≡ true
    either b f h = ground arith

number_saved :
    (p : Platform) (st : Store) (selector : String) (found : Option String) {urls : List String}
    → ((raw : String) → found ≡ some raw → contains st.subscriptions raw ≡ true)
    → by_number_or_id p st.subscriptions selector found ≡ ok urls
    → AreSaved st urls
unfolding by_number_or_id by_id
number_saved p st selector (some raw) saved h =
    subst (AreSaved st) (ok-injective h) (omega arith, (saved raw refl, tt))
number_saved p st selector none saved h =
    let (_, h) = >>-eq-ok (reject_if _ bad_selector) _ h in
    let (_, h) = >>-eq-ok (reject_if _ bad_selector) _ h in
    let matches = keep_if (λ raw. has_prefix (subscription_id p raw) selector) st.subscriptions in
    let (one, h) = >>-eq-ok (reject_if (not (eqb (length matches) 1)) bad_selection) _ h in
    subst (AreSaved st) (ok-injective h) (
      some_match _ (accepted _ bad_selection one),
      All-of-contains (λ u. contains st.subscriptions u ≡ true) matches
          (λ u held. kept_members _ st.subscriptions u held),
    )
  where
    some_match : (n : ℕ) → not (eqb n 1) ≡ false → 1 ≤ n
    some_match n e = ground arith

-- Whatever the selector, a selection that succeeds gives saved subscriptions, one at least.
pub select_subscription_urls_saved :
    (p : Platform) (st : Store) (selector : String) {urls : List String}
    → select_subscription_urls p st selector ≡ ok urls
    → (1 ≤ length urls) × All (λ u. contains st.subscriptions u ≡ true) urls
unfolding select_subscription_urls
select_subscription_urls_saved p st selector h =
    let (some_there, h) =
      >>-eq-ok (reject_if (eqb (length st.subscriptions) 0) no_subscription) _ h in
    elim (Bool-cases (selector == "--all")) [
      | inl e ↦ subst (AreSaved st) (ok-injective (rw e at h)) (
        not_none _ (accepted _ no_subscription some_there),
        All-of-contains (λ u. contains st.subscriptions u ≡ true) st.subscriptions (λ u held. held),
      )
      | inr e ↦
          number_saved p st selector _ (λ raw. numbered st.subscriptions (atoi selector))
            (rw e at h)
    ]
  where
    not_none : (n : ℕ) → eqb n 0 ≡ false → 1 ≤ n
    not_none n e = ground arith

first_saved :
    (p : Platform) (st : Store) (urls : List String)
    → AreSaved st urls
    → (raw : String) × (id_of_first p urls ≡ ok (subscription_id p raw))
      × (contains st.subscriptions raw ≡ true)
unfolding id_of_first
first_saved p st [] (some_there, all) = elim (none_there some_there) [ ]
  where
    none_there : 1 ≤ 0 → ⊥
    none_there l = omega arith
first_saved p st (raw ∷ rest) (some_there, all) = (raw, refl, all.0)

-- A choice in the menu that succeeds gives the ID of a saved subscription.
pub subscription_menu_id_saved :
    (p : Platform) (st : Store) (selector : String) {id : String}
    → subscription_menu_id p st selector ≡ ok id
    → (raw : String) × (id ≡ subscription_id p raw) × (contains st.subscriptions raw ≡ true)
unfolding subscription_menu_id
subscription_menu_id_saved p st selector h =
    let (_, h) = >>-eq-ok (reject_if (selector == "--all") bad_selector) _ h in
    let (urls, selected, h) = >>=-eq-ok (select_subscription_urls p st selector) _ h in
    let (raw, first, there) =
      first_saved p st urls (select_subscription_urls_saved p st selector selected) in
    (raw, ok-injective (sym h ∙ first), there)
