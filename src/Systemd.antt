-- ===== src/Systemd.antt =====
-- The names of users and systemd units: `validateUserName`, `safeSystemdServiceName`,
-- `parseSystemdTargetName` and what they call (internal/manager/util.go), and
-- `canonicalTelegramTargetName` (internal/manager/telegram_discovery.go).
use Prim.Native.String.{◌++◌}
use proxyscene.Common.{
  Bool, Char, Option, Result, String, bad_target, bad_user, between, code, cut_at, drop_runes,
  empty_target, empty_user, eqb, err, every_rune, false, has_infix, has_prefix, has_suffix,
  if◌then◌else◌, leb, len, ltb, none, not, ok, reject_if, some, template_target, trim_space, true,
  unsafe_target, ℕ, ◌&&◌, ◌==◌, ◌>>=◌, ◌>>◌, ◌||◌,
}

is_letter : ℕ → Bool
is_letter c = between 65 90 c || between 97 122 c

is_number : ℕ → Bool
is_number c = between 48 57 c

-- [A-Za-z0-9_.-]
unfoldable pub is_user_rune : Char → Bool
unfolding is_letter is_number
is_user_rune r = let c = code r in is_letter c || is_number c || eqb c 95 || eqb c 46 || eqb c 45

-- ^[A-Za-z_][A-Za-z0-9_.-]{0,31}$
unfoldable pub matches_user : String → Bool
unfolding is_user_rune every_rune
matches_user String.[] = false
matches_user (String.◌∷◌ r s) =
    (is_letter (code r) || eqb (code r) 95) && every_rune is_user_rune s && leb (len s) 31

-- `validateUserName`: an empty name is accepted.
unfoldable pub validate_user_name : String → Result (Unit {0})
unfolding matches_user
validate_user_name user =
    if user == "" then ok tt else if matches_user user then ok tt else err bad_user

-- [A-Za-z0-9_.@:-]
unfoldable pub is_unit_rune : Char → Bool
unfolding is_letter is_number
is_unit_rune r =
    let c = code r in
    is_letter c || is_number c || eqb c 95 || eqb c 46 || eqb c 64 || eqb c 58 || eqb c 45

-- ^[A-Za-z0-9_.@:-]+$
unfoldable pub matches_plain : String → Bool
unfolding is_unit_rune every_rune
matches_plain s = not (s == "") && every_rune is_unit_rune s

-- ^[A-Za-z0-9_.@:-]+\.service$: the runes of `.service`, eight bytes, are of the class too.
unfoldable pub matches_service : String → Bool
unfolding is_unit_rune every_rune has_suffix
matches_service s = every_rune is_unit_rune s && has_suffix s ".service" && ltb 8 (len s)

-- A NUL, a line feed or a carriage return.
is_line_rune : Char → Bool
is_line_rune r = let c = code r in eqb c 0 || eqb c 10 || eqb c 13

-- A slash, two dots in a row, or a rune that ends a line.
unfoldable pub is_unsafe : String → Bool
unfolding is_line_rune every_rune has_infix
is_unsafe name =
    has_infix name "/" || has_infix name ".." || not (every_rune (λ r. not (is_line_rune r)) name)

-- `safeSystemdServiceName`
unfoldable pub safe_systemd_service_name : String → Result (Unit {0})
unfolding trim_space is_unsafe matches_service
safe_systemd_service_name name =
    if trim_space name == ""
    then err empty_target
    else if is_unsafe name
    then err unsafe_target
    else if matches_service name
    then ok tt
    else err bad_target

-- `systemdTargetName`
pub record SystemdTarget : Type 0 where
  pub user_mode : Bool
  pub user : String
  pub service : String

-- `normalizeSystemdServiceName`
unfoldable pub normalize_service_name : String → String
unfolding has_suffix
normalize_service_name name = if has_suffix name ".service" then name else name ++ ".service"

-- `normalizeTargetServiceName`
unfoldable pub normalize_target_service_name : String → Result String
unfolding normalize_service_name has_infix matches_plain
normalize_target_service_name name =
    if has_suffix name ".service"
    then ok name
    else if has_infix name "@"
    then err template_target
    else if matches_plain name
    then ok (normalize_service_name name)
    else err bad_target

-- The user and the service of what follows `user:`.
user_parts : String → Option (String × String) → String × String
unfolding trim_space
user_parts rest none = ("root", rest)
user_parts rest (some (user, service)) = (trim_space user, trim_space service)

-- The checks on a service name that both forms end with.
checked_service : String → Result String
unfolding normalize_target_service_name safe_systemd_service_name
checked_service name = do
  service ← normalize_target_service_name name
  safe_systemd_service_name service
  ok service

-- The branch of `parseSystemdTargetName` for a name that begins with `user:`.
parse_user_target : String → Result SystemdTarget
unfolding cut_at user_parts validate_user_name checked_service
parse_user_target rest =
    let (user, service) = user_parts rest (cut_at 58 rest) in
    do
      reject_if (rest == "") empty_target
      reject_if (user == "") empty_user
      reject_if (trim_space service == "") empty_target
      validate_user_name user
      name ← checked_service service
      ok (record { user_mode = true; user = user; service = name })

parse_trimmed : String → Result SystemdTarget
unfolding parse_user_target has_prefix drop_runes is_unsafe
parse_trimmed name =
    if name == ""
    then err empty_target
    else if is_unsafe name
    then err unsafe_target
    else if has_prefix name "user:"
    then parse_user_target (drop_runes 5 name)
    else do
      service ← checked_service name
      ok (record { user_mode = false; user = ""; service = service })

-- `parseSystemdTargetName`
unfoldable pub parse_systemd_target_name : String → Result SystemdTarget
unfolding parse_trimmed
parse_systemd_target_name name = parse_trimmed (trim_space name)

-- `safeSystemdTargetName`
unfoldable pub safe_systemd_target_name : String → Result (Unit {0})
unfolding parse_systemd_target_name
safe_systemd_target_name name = do target ← parse_systemd_target_name name; ok tt

-- `canonicalTelegramTargetName`
unfoldable pub canonical_target_name : SystemdTarget → String
canonical_target_name target =
    if target.user_mode then "user:" ++ target.user ++ ":" ++ target.service else target.service
