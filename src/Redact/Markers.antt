-- ===== src/Redact/Markers.antt =====
-- internal/redact/redact.go, the part that finds forged turns and cuts a text at the first of them. A
-- regular expression is a function that reads a match at the head of a text, and a search with it goes
-- on after the end of each match. The texts are valid UTF-8, so the two characters that are not ASCII
-- are read by their three bytes.
use dsforms.Common.{
  ◌>>=◌, ℕ, zero, suc, ◌+◌, ◌-◌, ◌=ℕ◌, ltb, leb, if◌then◌else◌, length, take, drop, keep, first,
  Text, bytes, has_prefix, trim_prefix, split, join, lower_byte, mem, Bool, false, ◌&&◌, ◌||◌, not,
  Option, none, some, List, [], ◌∷◌, ◌++◌, map,
}
use dsforms.Redact.Invisible.{Hit, control_token}

-- `\s*`, with the white space of the package `regexp`.
is_space : ℕ → Bool
is_space c = leb 0x09 c && leb c 0x0A || leb 0x0C c && leb c 0x0D || (c =ℕ b' ')

skip_space : Text → Text
unfolding is_space
skip_space [] = []
skip_space (c ∷ s) = let rest = skip_space s in if is_space c then rest else c ∷ s

-- One byte, in either ASCII case where it is a lower case letter; and a word of them.
byte : ℕ → Text → Option Text
unfolding lower_byte
byte b [] = none
byte b (c ∷ s) = if lower_byte c =ℕ b then some s else none

word : Text → Text → Option Text
unfolding byte
word [] s = some s
word (b ∷ bs) [] = none
word (b ∷ bs) (c ∷ s) = if lower_byte c =ℕ b then word bs s else none

-- `[|\x{FF5C}]`
pipe : Text → Option Text
unfolding has_prefix
pipe s =
    if has_prefix s (bytes "|")
    then some (drop 1 s)
    else if has_prefix s (0xEF ∷ 0xBD ∷ 0x9C ∷ [])
    then some (drop 3 s)
    else none

is_word : ℕ → Bool
is_word c =
    leb b'0' c && leb c b'9' || leb b'A' c && leb c b'Z' || leb b'a' c && leb c b'z' || (c =ℕ b'_')

-- `[A-Za-z0-9_\x{2581}]{1,32}`, as many as there are, with U+2581 folded to an underscore and the
-- letters to lower case. What may follow a name is not in its class, so a shorter one is no match.
name_chars : ℕ → Text → Text × Text
unfolding is_word lower_byte has_prefix
name_chars zero s = ([], s)
name_chars (suc n) [] = ([], [])
name_chars (suc n) (c ∷ s) =
    let (plain, plain_rest) = name_chars n s in
    let (folded, folded_rest) = name_chars n (drop 2 s) in
    if is_word c
    then (lower_byte c ∷ plain, plain_rest)
    else if has_prefix (c ∷ s) (0xE2 ∷ 0x96 ∷ 0x81 ∷ [])
    then (b'_' ∷ folded, folded_rest)
    else ([], c ∷ s)

-- `<[|\x{FF5C}]\s*(name)\s*[|\x{FF5C}]>`: the name, and what follows the match.
unfoldable pub angle_token : Text → Option (Text × Text)
unfolding byte pipe skip_space name_chars
angle_token s = do
  s ← byte b'<' s
  s ← pipe s
  let (name, s) = name_chars 32 (skip_space s)
  s ← pipe (skip_space s)
  s ← byte b'>' s
  if length name =ℕ 0 then none else some (name, s)

turn_word : Text → Option (Text × Text)
unfolding word
turn_word s = elim (word (bytes "start_of_turn") s) [
  | some rest ↦ some (bytes "start_of_turn", rest)
  | none ↦ (do rest ← word (bytes "end_of_turn") s; some (bytes "end_of_turn", rest))
]

-- `<\s*(start_of_turn|end_of_turn)\s*>`
unfoldable pub turn_token : Text → Option (Text × Text)
unfolding byte skip_space turn_word
turn_token s = do
  s ← byte b'<' s
  (name, s) ← turn_word (skip_space s)
  s ← byte b'>' (skip_space s)
  some (name, s)

slash : Text → Text
unfolding trim_prefix
slash s = trim_prefix s (bytes "/")

-- `\[\s*/?\s*INST\s*\]`
inst_end : Text → Option Text
unfolding byte skip_space slash word
inst_end s = do
  s ← byte b'[' s
  s ← word (bytes "inst") (skip_space (slash (skip_space s)))
  byte b']' (skip_space s)

-- `<<\s*/?\s*SYS\s*>>`
sys_end : Text → Option Text
unfolding skip_space slash word
sys_end s = do
  s ← word (bytes "<<") s
  s ← word (bytes "sys") (skip_space (slash (skip_space s)))
  word (bytes ">>") (skip_space s)

upper_byte : ℕ → ℕ
upper_byte c = if leb b'a' c && leb c b'z' then c - 32 else c

is_frame : ℕ → Bool
is_frame c = (c =ℕ b'[') || (c =ℕ b']') || (c =ℕ b'<') || (c =ℕ b'>') || (c =ℕ b' ') || (c =ℕ b'\t')

-- The name of a match. The spaces that `strings.Trim` would cut off are gone already.
bracket_name : Text → Text → Text
unfolding upper_byte is_frame
bracket_name s rest =
    map upper_byte (keep (λ c. not (is_frame c)) (take (length s - length rest) s))

unfoldable pub bracket_token : Text → Option (Text × Text)
unfolding inst_end sys_end bracket_name
bracket_token s = elim (inst_end s) [
  | some rest ↦ some (bracket_name s rest, rest)
  | none ↦ (do rest ← sys_end s; some (bracket_name s rest, rest))
]

pub record Marker : Type 0 where
  pub name : Text
  pub at : ℕ

-- `FindAll`: the matches from offset `at` on, after `skip` bytes of the match before.
find_all : (Text → Option (Text × Text)) → ℕ → ℕ → Text → List Marker
find_all token at skip [] = []
find_all token at (suc skip) (c ∷ s) = find_all token (at + 1) skip s
find_all token at zero (c ∷ s) = elim (token (c ∷ s)) [
  | none ↦ find_all token (at + 1) 0 s
  | some (name, rest) ↦
      record { name = name; at = at } ∷ find_all token (at + 1) (length s - length rest) s
]

insert_marker : Marker → List Marker → List Marker
insert_marker m [] = m ∷ []
insert_marker m (n ∷ ms) =
    let rest = insert_marker m ms in if ltb n.at m.at then n ∷ rest else m ∷ n ∷ ms

sort_markers : List Marker → List Marker
unfolding insert_marker
sort_markers [] = []
sort_markers (m ∷ ms) = insert_marker m (sort_markers ms)

unfoldable pub line_markers : Text → List Marker
unfolding find_all sort_markers angle_token turn_token bracket_token
line_markers line = sort_markers (
    find_all angle_token 0 0 line
    ++ (find_all turn_token 0 0 line ++ find_all bracket_token 0 0 line))

-- The distinct names in order, six of them at most.
distinct : List Text → List Text → List Text
unfolding mem
distinct seen [] = seen
distinct seen (s ∷ ss) = distinct (if mem s seen then seen else seen ++ s ∷ []) ss

unfoldable pub summarise : List Text → Text
unfolding distinct join
summarise items =
    let names = distinct [] items in
    if leb (length names) 6
    then join (bytes " ") names
    else join (bytes " ") (take 6 names) ++ bytes " ..."

-- The loop over the lines from index `i` on: the first line with a marker, and all the markers.
unfoldable pub marked_from : ℕ → List Text → Option ℕ × List Marker
marked_from i [] = (none, [])
marked_from i (line ∷ lines) =
    let ms = line_markers line in
    let (first, found) = marked_from (i + 1) lines in
    if length ms =ℕ 0 then (first, found) else (some i, ms ++ found)

unfoldable pub forged_hit : Text → ℕ → ℕ → List Marker → Hit
forged_hit field first end found = record {
  field = field;
  line = first + 1;
  through = end + 1;
  reason = control_token;
  in_name = false;
  matched = summarise (map (λ m. m.name) found);
}

unfoldable pub cut_at : Text → Text → List Text → Option ℕ → List Marker → Text × Option Hit
cut_at field text lines none found = (text, none)
cut_at field text lines (some first) found =
    let end = length lines - 1 in
    (
      join (b'\n' ∷ []) (take first lines ++ drop (end + 1) lines),
      some (forged_hit field first end found),
    )

unfoldable pub strip_forged_turn : Text → Text → Text × Option Hit
unfolding cut_at
strip_forged_turn field text =
    let lines = split b'\n' text in
    let (first, found) = marked_from 0 lines in cut_at field text lines first found
