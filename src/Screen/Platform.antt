-- ===== src/Screen/Platform.antt =====
-- What the screening code takes from Go's standard library and does not define itself.
use dsforms.Common.{ℕ, Text, Bool, Option, List}

pub record Platform : Type 0 where
  -- mail.ParseAddress: the bare address of what parses
  pub parse_address : Text → Option Text
  -- net.ParseIP, and the text that its `String` gives
  pub parse_ip : Text → Option Text
  -- net.ParseCIDR, and the text that the network's `String` gives
  pub parse_cidr : Text → Option Text
  -- net.ParseCIDR of the first gives a network that contains net.ParseIP of the second
  pub network_contains : Text → Text → Bool
  -- strings.ToLower
  pub to_lower : Text → Text
  -- the code points of a text, and the text of code points
  pub runes : Text → List ℕ
  pub of_runes : List ℕ → Text
  -- the tables of the package `unicode`
  pub is_upper : ℕ → Bool
  pub is_lower : ℕ → Bool
  pub is_letter : ℕ → Bool
  pub is_latin : ℕ → Bool
  pub rune_lower : ℕ → ℕ
