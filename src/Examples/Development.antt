-- ===== src/Examples/Development.antt =====
-- Restorations of a git key, and managed values.
use proxyscene.Common.{
  List, String, [], arith, contains, every_rune, none, ok, refl, suc, trim_space, true, zero, ℕ,
  ◌++◌, ◌==◌, ◌||◌, ◌∷◌, ◌≡◌, ◌≤◌,
}
use proxyscene.Dev.{
  Git, GitState, Point, check_dev_backup, contains_managed_dev_value, desired_git_proxy_values,
  goes_on, max_dev_proxy_backup_bytes, restore_dev_git_proxy, restore_plan, stops_before,
  stops_between, validate_dev_git_restore_plan, validate_dev_proxy_value,
  validate_dev_proxy_value_list, validate_dev_proxy_values,
}
use proxyscene.Dev.Managed.{
  ManagedProxies, managed_dev_proxy_values, merge_managed_dev_proxy_values, merge_manages,
}
use proxyscene.Dev.Restarts.{restore_resumes, run_all}

abbrev plain_git : Git
plain_git = record {
  unset_all = λ values. [];
  add = λ v values. values ++ (v ∷ []);
  unset_all_lem = λ values. refl;
  add_lem = λ v values. refl;
  check_others = ok tt;
  backup_size = λ plan. 2000;
}

abbrev managed_values : List String
managed_values = "http://127.0.0.1:7890" ∷ []

abbrev first_state : GitState
first_state = record { values = "http://127.0.0.1:7890" ∷ "http://new" ∷ []; saved = none }

-- A call that ends before the first value is added, and one that ends between a change and its
-- record.
abbrev before_second : ℕ → Point
before_second zero = goes_on
before_second (suc zero) = goes_on
before_second (suc (suc zero)) = stops_before
before_second (suc (suc (suc n))) = goes_on

abbrev between_second : ℕ → Point
between_second zero = goes_on
between_second (suc zero) = stops_between
between_second (suc (suc n)) = goes_on

abbrev two_calls : List (ℕ → Point)
two_calls = before_second ∷ between_second ∷ []

-- Behind the two calls one of the two values is there.
halfway :
    (run_all plain_git two_calls ("http://old" ∷ []) managed_values first_state).values
    ≡ "http://old" ∷ []
unfolding run_all restore_dev_git_proxy proxyscene.Dev.restore_saved proxyscene.Dev.record_plan
    proxyscene.Dev.restore_loop proxyscene.Dev.restore_plan contains_managed_dev_value contains
    desired_git_proxy_values proxyscene.Dev.restore_round proxyscene.Dev.round_of
    proxyscene.Dev.dev_git_restore_transition proxyscene.Dev.change_and_check
    proxyscene.Common.texts_equal proxyscene.Dev.check_values proxyscene.Dev.change_values
    proxyscene.Dev.advance proxyscene.Dev.write_plan check_dev_backup validate_dev_git_restore_plan
    validate_dev_proxy_value_list validate_dev_proxy_values validate_dev_proxy_value trim_space
    every_rune
halfway = refl

restore_resumes_example :
    ((restore_dev_git_proxy plain_git
        (λ n. goes_on)
        ("http://old" ∷ [])
        managed_values
        (run_all plain_git two_calls ("http://old" ∷ []) managed_values first_state)).1
      ≡ ok tt)
    × ((restore_dev_git_proxy plain_git
          (λ n. goes_on)
          ("http://old" ∷ [])
          managed_values
          (run_all plain_git two_calls ("http://old" ∷ []) managed_values first_state)).0.values
        ≡ "http://old" ∷ "http://new" ∷ [])
unfolding contains_managed_dev_value desired_git_proxy_values contains validate_dev_proxy_value_list
    validate_dev_proxy_values validate_dev_proxy_value trim_space every_rune
restore_resumes_example =
    restore_resumes plain_git two_calls ("http://old" ∷ []) managed_values first_state refl refl
      refl refl (λ p e e1. within)
  where
    within : 2000 ≤ max_dev_proxy_backup_bytes
    within = omega arith

-- An empty value, which git may have, is not taken.
abbrev empty_state : GitState
empty_state = record { values = "http://127.0.0.1:7890" ∷ "" ∷ []; saved = none }

abbrev first_managed : ManagedProxies
first_managed = record {
  managed_http_proxy = "http://a";
  managed_https_proxy = "";
  managed_http_proxies = "http://b" ∷ [];
  managed_https_proxies = [];
}

merge_manages_example :
    contains
      (managed_dev_proxy_values (merge_managed_dev_proxy_values first_managed "http://c").0 true "")
      "http://c"
    ≡ (contains (managed_dev_proxy_values first_managed true "") "http://c"
        || "http://c" == "http://c")
merge_manages_example = merge_manages first_managed "http://c" "" "http://c" true refl
