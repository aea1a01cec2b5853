-- ===== src/Common/Web.antt =====
-- The packages net/url, net and path, which the program calls, as parameters: an address is what
-- `url.Parse` reads.
use dsforms.Common.{Text, Bool, Option}

pub record Url : Type 0 where
  pub scheme : Text
  pub host : Text
  pub hostname : Text
  pub port : Text
  pub path : Text
  pub fragment : Text
  pub raw_fragment : Text
  pub has_user : Bool

-- `url.Parse`, `path.Clean`, `strings.ToLower`, and `net.ParseIP` with `IP.IsLoopback` (`none` for
-- what is not an address).
pub record Web : Type 0 where
  pub parse : Text → Option Url
  pub clean : Text → Text
  pub to_lower : Text → Text
  pub loopback : Text → Option Bool
