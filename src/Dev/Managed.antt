-- ===== src/Dev/Managed.antt =====
-- The values of the proxy that the program has written and so manages (internal/manager/dev.go).
use proxyscene.Common.{
  Bool, Bool-cases, List, String, [], ap, arith, contains, contains-append, eq_iff, eqb, false,
  if◌then◌else◌, inl, inr, length, not, refl, subst, sym, true, ◌==◌, ◌||◌, ◌∙◌, ◌∷◌, ◌≡◌, ◌⊎◌,
}
use proxyscene.Dev.{append_unique_string}

-- The fields of `devProxyBackup` that hold managed values.
pub record ManagedProxies : Type 0 where
  pub managed_http_proxy : String
  pub managed_https_proxy : String
  pub managed_http_proxies : List String
  pub managed_https_proxies : List String

abbrev or_proxy : String → String → String
or_proxy proxy value = if value == "" then proxy else value

-- `mergeManagedDevProxyValues`: the values, and whether they changed.
unfoldable pub merge_managed_dev_proxy_values : ManagedProxies → String → ManagedProxies × Bool
merge_managed_dev_proxy_values b proxy =
    let http =
      append_unique_string (append_unique_string b.managed_http_proxies b.managed_http_proxy)
        proxy in
    let https =
      append_unique_string (append_unique_string b.managed_https_proxies b.managed_https_proxy)
        proxy in
    (
      record {
        managed_http_proxy = or_proxy proxy b.managed_http_proxy;
        managed_https_proxy = or_proxy proxy b.managed_https_proxy;
        managed_http_proxies = http;
        managed_https_proxies = https;
      },
      b.managed_http_proxy == ""
          || b.managed_https_proxy == ""
          || not (eqb (length http) (length b.managed_http_proxies))
          || not (eqb (length https) (length b.managed_https_proxies)),
    )

unfoldable pub append_all_unique : List String → List String → List String
append_all_unique values [] = values
append_all_unique values (v ∷ rest) = append_all_unique (append_unique_string values v) rest

-- `managedDevProxyValues`
unfoldable pub managed_dev_proxy_values : ManagedProxies → Bool → String → List String
managed_dev_proxy_values b http_proxy fallback =
    append_unique_string
      (if http_proxy
        then append_all_unique (append_unique_string [] b.managed_http_proxy) b.managed_http_proxies
        else append_all_unique (append_unique_string [] b.managed_https_proxy)
            b.managed_https_proxies)
      fallback

contains-append_unique_string :
    (values : List String) (value v : String)
    → (v == "") ≡ false
    → contains (append_unique_string values value) v ≡ (contains values v || value == v)
unfolding append_unique_string contains
contains-append_unique_string values value v filled = elim (Bool-cases (value == "")) [
  | inl e ↦ rw e (empty_value e (Bool-cases (value == v)))
  | inr e ↦ elim (Bool-cases (contains values value)) [
    | inl held ↦ rw (e, held) (held_value held (Bool-cases (value == v)))
    | inr free ↦ rw (e, free) (contains-append values (value ∷ []) v ∙ one_value)
  ]
]
  where
    or_false : (b : Bool) → b ≡ (b || false)
    or_false true = refl
    or_false false = refl

    empty_value :
        value == "" ≡ true
        → ((value == v) ≡ true) ⊎ ((value == v) ≡ false)
        → contains values v ≡ (contains values v || value == v)
    empty_value e (inl same) =
        let at = (eq_iff value v).0 same in
        let empty : (v == "") ≡ true = subst (λ x. (x == "") ≡ true) at e in cc
    empty_value e (inr differs) = rw differs (or_false (contains values v))

    held_value :
        contains values value ≡ true
        → ((value == v) ≡ true) ⊎ ((value == v) ≡ false)
        → contains values v ≡ (contains values v || value == v)
    held_value held (inl same) =
        let there : contains values v ≡ true =
          subst (λ x. contains values x ≡ true) ((eq_iff value v).0 same) held in
        rw there refl
    held_value held (inr differs) = rw differs (or_false (contains values v))

    one_value : (contains values v || contains (value ∷ []) v) ≡ (contains values v || value == v)
    one_value = ground arith

contains-append_all_unique :
    (xs values : List String) (v : String)
    → (v == "") ≡ false
    → contains (append_all_unique values xs) v ≡ (contains values v || contains xs v)
unfolding append_all_unique contains
contains-append_all_unique [] values v filled = or_none (contains values v)
  where
    or_none : (b : Bool) → b ≡ (b || false)
    or_none true = refl
    or_none false = refl
contains-append_all_unique (x ∷ xs) values v filled = ground (
  arith,
  contains-append_all_unique xs (append_unique_string values x) v filled,
  contains-append_unique_string values x v filled,
)

-- What one side of the managed values holds.
one_side :
    (first : String) (rest : List String) (fallback v : String)
    → (v == "") ≡ false
    → contains
        (append_unique_string (append_all_unique (append_unique_string [] first) rest) fallback)
        v
      ≡ ((first == v || contains rest v) || fallback == v)
unfolding contains
one_side first rest fallback v filled = ground (
  arith,
  contains-append_unique_string (append_all_unique (append_unique_string [] first) rest) fallback v
      filled,
  contains-append_all_unique rest (append_unique_string [] first) v filled,
  contains-append_unique_string [] first v filled,
)

merged_side :
    (first : String) (rest : List String) (proxy fallback v : String)
    → (v == "") ≡ false
    → contains
        (append_unique_string
          (append_all_unique
            (append_unique_string [] (or_proxy proxy first))
            (append_unique_string (append_unique_string rest first) proxy))
          fallback)
        v
      ≡ (((first == v || contains rest v) || fallback == v) || proxy == v)
merged_side first rest proxy fallback v filled = elim (Bool-cases (first == "")) [
  | inl e ↦
      rw
        (
          e,
          one_side proxy (append_unique_string (append_unique_string rest first) proxy) fallback v
              filled,
          contains-append_unique_string (append_unique_string rest first) proxy v filled,
          contains-append_unique_string rest first v filled,
        )
        (reordered (proxy == v) (first == v) (contains rest v) (fallback == v))
  | inr e ↦
      rw
        (
          e,
          one_side first (append_unique_string (append_unique_string rest first) proxy) fallback v
              filled,
          contains-append_unique_string (append_unique_string rest first) proxy v filled,
          contains-append_unique_string rest first v filled,
        )
        (reordered_first (proxy == v) (first == v) (contains rest v) (fallback == v))
]
  where
    reordered : (p h l f : Bool) → ((p || ((l || h) || p)) || f) ≡ (((h || l) || f) || p)
    reordered p h l f = ground arith

    reordered_first : (p h l f : Bool) → ((h || ((l || h) || p)) || f) ≡ (((h || l) || f) || p)
    reordered_first p h l f = ground arith

-- Behind the merge of a proxy the managed values of either kind hold, among the texts that are not
-- empty, what they held before and the proxy, and nothing else, whatever the fallback.
pub merge_manages :
    (b : ManagedProxies) (proxy fallback v : String) (http_proxy : Bool)
    → (v == "") ≡ false
    → contains
        (managed_dev_proxy_values (merge_managed_dev_proxy_values b proxy).0 http_proxy fallback)
        v
      ≡ (contains (managed_dev_proxy_values b http_proxy fallback) v || proxy == v)
unfolding managed_dev_proxy_values merge_managed_dev_proxy_values
merge_manages b proxy fallback v true filled =
    merged_side b.managed_http_proxy b.managed_http_proxies proxy fallback v filled
    ∙ ap (λ x. x || proxy == v)
        (sym (one_side b.managed_http_proxy b.managed_http_proxies fallback v filled))
merge_manages b proxy fallback v false filled =
    merged_side b.managed_https_proxy b.managed_https_proxies proxy fallback v filled
    ∙ ap (λ x. x || proxy == v)
        (sym (one_side b.managed_https_proxy b.managed_https_proxies fallback v filled))
