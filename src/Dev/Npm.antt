-- ===== src/Dev/Npm.antt =====
-- The values of a proxy key in the npm configuration of a user (internal/manager/dev.go).
use Prim.Native.String.{◌++◌}
use proxyscene.Common.{
  Bool, List, Option, String, any_of, false, none, not, some, trim_space, true, ◌&&◌, ◌==◌, ◌||◌,
}

-- `optionalStringsEqual`
unfoldable pub optional_strings_equal : Option String → Option String → Bool
optional_strings_equal none none = true
optional_strings_equal none (some b) = false
optional_strings_equal (some a) none = false
optional_strings_equal (some a) (some b) = a == b

abbrev is_managed_npm : String → String → Bool
is_managed_npm current candidate =
    not (candidate == "")
    && (current == candidate || current == candidate ++ "/" || current ++ "/" == candidate)

-- `containsManagedNPMProxy`
unfoldable pub contains_managed_npm_proxy : List String → String → Bool
contains_managed_npm_proxy managed current =
    any_of (λ c. is_managed_npm (trim_space current) (trim_space c)) managed

-- A key without a value is never managed.
unfoldable pub is_managed_value : List String → Option String → Bool
is_managed_value managed none = false
is_managed_value managed (some current) = contains_managed_npm_proxy managed current

-- `devNPMApplyValueKnown`
unfoldable pub dev_npm_apply_value_known : Option String → Option String → List String → Bool
dev_npm_apply_value_known current original managed =
    optional_strings_equal current original || is_managed_value managed current
