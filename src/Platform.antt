-- ===== src/Platform.antt =====
-- What the program takes from Go's network and hashing packages: `net.ParseIP` with `IsLoopback`,
-- `url.Parse` and the hexadecimal `sha256.Sum256`. These are parameters of the model: the
-- definitions take them as fields of a `Platform`.
use proxyscene.Common.{Bool, Option, String}

-- The fields of `url.URL` that are read: `Scheme` as written and `Host`.
pub record Url : Type 0 where
  pub scheme : String
  pub host : String

pub record Platform : Type 0 where
  -- `net.ParseIP`: `none` where it returns nil, else whether the address is a loopback one.
  pub parse_ip : String → Option Bool
  -- `url.Parse`: `none` where it returns an error.
  pub parse_url : String → Option Url
  -- `fmt.Sprintf("%x", sha256.Sum256([]byte(s)))`
  pub sha256_hex : String → String
