-- ===== src/Redact/Invisible.antt =====
-- internal/redact/redact.go, the part that removes text which renders as nothing. A loop over an index
-- that moves by several bytes is a recursion over the text with a count of bytes to pass over.
use dsforms.Common.{
  Option, ℕ, zero, suc, ◌+◌, ◌-◌, ◌/◌, ◌%◌, ◌=ℕ◌, ltb, leb, if◌then◌else◌, length, take, any, Text,
  bytes, has_prefix, join, Bool, true, false, ◌&&◌, ◌||◌, not, none, some, List, [], ◌∷◌, ◌++◌,
}
use dsforms.Redact.Utf8.{decode}

pub data Reason : Type 0 where
  control_token invisible_text malformed : Reason

pub record Hit : Type 0 where
  pub field : Text
  pub line : ℕ
  pub through : ℕ
  pub reason : Reason
  pub in_name : Bool
  pub matched : Text

between : ℕ → ℕ → ℕ → Bool
between a b r = leb a r && leb r b

unfoldable pub invisible : ℕ → Bool
unfolding between
invisible r =
    if (r =ℕ 0x09) || (r =ℕ 0x0A) || (r =ℕ 0x0D)
    then false
    else if (r =ℕ 0x200C) || (r =ℕ 0x200D)
    then false
    else (ltb r 0x20 || (r =ℕ 0x7F))
      || ((r =ℕ 0x200B) || (r =ℕ 0x200E) || (r =ℕ 0x200F))
      || between 0x202A 0x202E r
      || between 0x2060 0x2064 r
      || between 0x2066 0x2069 r
      || (r =ℕ 0xFEFF)
      || between 0xE0000 0xE007F r

unfoldable pub label : ℕ → Text
unfolding between
label r =
    if r =ℕ 0x1B
    then bytes "terminal escape"
    else if ltb r 0x20 || (r =ℕ 0x7F)
    then bytes "control character"
    else if r =ℕ 0x200B
    then bytes "zero-width space"
    else if (r =ℕ 0x200E) || (r =ℕ 0x200F)
    then bytes "directional mark"
    else if between 0x202A 0x202E r
    then bytes "bidi override"
    else if between 0x2060 0x2064 r
    then bytes "invisible operator"
    else if between 0x2066 0x2069 r
    then bytes "bidi isolate"
    else if r =ℕ 0xFEFF
    then bytes "byte order mark"
    else if between 0xE0000 0xE007F r
    then bytes "tag character"
    else bytes "invisible"

-- `%d`, and the digits of `%U`: numbers in a base, on fuel for the digits. Twenty digits hold every
-- number of 64 bits.
digit : ℕ → ℕ
digit d = if ltb d 10 then d + 48 else d + 55

digits : ℕ → ℕ → ℕ → Text
unfolding digit
digits zero base n = []
digits (suc fuel) base n =
    let more = digits fuel base (n / base) in
    if ltb n base then digit n ∷ [] else more ++ digit (n % base) ∷ []

unfoldable pub decimal : ℕ → Text
unfolding digits
decimal n = digits 20 10 n

zeros : ℕ → Text
zeros zero = []
zeros (suc n) = b'0' ∷ zeros n

unfoldable pub code_point : ℕ → Text
unfolding digits zeros
code_point r = let hex = digits 20 16 r in bytes "U+" ++ (zeros (4 - length hex) ++ hex)

-- The distinct characters, in order; past eight of them the list ends in dots.
named_from : List ℕ → ℕ → List ℕ → List Text
unfolding code_point label
named_from seen n [] = []
named_from seen n (r ∷ rs) =
    let known = any (λ x. x =ℕ r) seen in
    let rest = named_from (if known then seen else r ∷ seen) (if known then n else n + 1) rs in
    if known
    then rest
    else if n =ℕ 8
    then bytes "..." ∷ []
    else (code_point r ++ (bytes " (" ++ (label r ++ bytes ")"))) ∷ rest

unfoldable pub name_points : List ℕ → Text
unfolding named_from join
name_points rs = join (bytes ", ") (named_from [] 0 rs)

-- Where the line ends that a text begins with.
unfoldable pub line_end : Text → ℕ
line_end [] = 0
line_end (c ∷ s) = if c =ℕ b'\n' then 0 else suc (line_end s)

-- The index after the byte that ends a CSI sequence, from index `i` on.
unfoldable pub csi_end : ℕ → ℕ → Text → ℕ
csi_end end i [] = end
csi_end end i (c ∷ s) =
    let later = csi_end end (i + 1) s in
    if leb end i then end else if leb 0x40 c && leb c 0x7E then i + 1 else later

-- The same for an OSC sequence, which BEL ends, or ESC with a backslash.
unfoldable pub osc_end : ℕ → ℕ → Text → ℕ
osc_end end i [] = end
osc_end end i (c ∷ s) =
    let later = osc_end end (i + 1) s in
    if leb end i
    then end
    else if c =ℕ 0x07
    then i + 1
    else if (c =ℕ 0x1B) && ltb (i + 1) end && has_prefix s (b'\\' ∷ [])
    then i + 2
    else later

unfoldable pub escape_by : ℕ → Text → ℕ
unfolding csi_end osc_end has_prefix
escape_by end [] = end
escape_by end (c ∷ []) = end
escape_by end (c ∷ d ∷ s) =
    if d =ℕ b'[' then csi_end end 2 s else if d =ℕ b']' then osc_end end 2 s else 2

unfoldable pub escape_len : Text → ℕ
unfolding line_end escape_by
escape_len s = if ltb (line_end s) 2 then line_end s else escape_by (line_end s) s

-- The variables of the loop.
pub record Scan : Type 0 where
  pub out : Text
  pub hits : List Hit
  pub line : ℕ
  pub removed : List ℕ
  pub bad : ℕ

unfoldable pub removed_hits : Text → ℕ → List ℕ → List Hit
removed_hits field line [] = []
removed_hits field line (r ∷ rs) =
    record {
      field = field;
      line = line;
      through = line;
      reason = invisible_text;
      in_name = false;
      matched = name_points (r ∷ rs);
    }
    ∷ []

unfoldable pub bad_hits : Text → ℕ → ℕ → List Hit
bad_hits field line zero = []
bad_hits field line (suc bad) =
    record {
      field = field;
      line = line;
      through = line;
      reason = malformed;
      in_name = false;
      matched = decimal (suc bad) ++ bytes " byte(s) that are not valid UTF-8";
    }
    ∷ []

unfoldable pub flush : Text → Scan → Scan
flush field s = record s {
  hits = s.hits ++ (removed_hits field s.line s.removed ++ bad_hits field s.line s.bad);
  removed = [];
  bad = 0;
}

-- A newline ends what is reported of its line.
unfoldable pub next_line : Text → Scan → Scan
unfolding flush
next_line field s = record (flush field s) { line = (flush field s).line + 1 }

-- A character that stays.
unfoldable pub kept_char : Text → Scan → ℕ → Text → Scan
unfolding next_line
kept_char field s r written =
    let s' = (if r =ℕ b'\n' then next_line field s else s) in record s' { out = s'.out ++ written }

-- One round of the loop, by what is decoded.
unfoldable pub scan_by : Text → Scan → Text → Option (ℕ × ℕ) → Scan × ℕ
scan_by field s text none = (record s { bad = s.bad + 1 }, 1)
scan_by field s text (some (r, size)) =
    if r =ℕ 0x1B
    then (record s { removed = s.removed ++ r ∷ [] }, escape_len text)
    else if invisible r
    then (record s { removed = s.removed ++ r ∷ [] }, size)
    else (kept_char field s r (take size text), size)

-- One round of the loop at a text that is not empty: the variables, and how far the index moves.
unfoldable pub scan_char : Text → Scan → Text → Scan × ℕ
scan_char field s text = scan_by field s text (decode text)

unfoldable pub scan : Text → ℕ → Scan → Text → Scan
scan field skip s [] = s
scan field (suc skip) s (c ∷ text) = scan field skip s text
scan field zero s (c ∷ text) =
    let (next, moved) = scan_char field s (c ∷ text) in scan field (moved - 1) next text

unfoldable pub clean_by : (ℕ → Bool) → Option (ℕ × ℕ) → Bool
clean_by rest none = false
clean_by rest (some (r, size)) = not (invisible r) && rest (size - 1)

-- `utf8.ValidString(text) && !strings.ContainsFunc(text, invisible)`
unfoldable pub clean_from : ℕ → Text → Bool
clean_from zero [] = true
clean_from (suc skip) [] = false
clean_from (suc skip) (c ∷ text) = clean_from skip text
clean_from zero (c ∷ text) = clean_by (λ skip. clean_from skip text) (decode (c ∷ text))

abbrev pub started : Scan
started = record { out = []; hits = []; line = 1; removed = []; bad = 0 }

unfoldable pub strip_invisible : Text → Text → Text × List Hit
strip_invisible field text =
    if clean_from 0 text
    then (text, [])
    else let s = flush field (scan field 0 started text) in (s.out, s.hits)
