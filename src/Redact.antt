-- ===== src/Redact.antt =====
-- internal/redact/redact.go: what a submission loses on its way to an MCP client, and the report of it.
-- Utf8 reads characters, Invisible and Markers hold the two passes over a value; here they are
-- composed for one value and for all fields. A map is an association list.
pub mod Utf8
pub mod Invisible
pub mod Visible
pub mod Markers
pub mod Cut
pub mod Noted
pub mod Settled
pub mod Served
pub mod Lines
pub mod Lengths
pub mod Bounds
mod Examples
use dsforms.Common.{
  ℕ, suc, ◌-◌, ◌=ℕ◌, ltb, leb, if◌then◌else◌, length, take, drop, keep, Text, bytes, ◌==◌, Bool,
  true, false, ◌&&◌, ◌||◌, not, Option, none, some, List, [], ◌∷◌, ◌++◌, map,
}
use dsforms.Common.Assoc.{Assoc}
use dsforms.Common.Sorted.{sort_fields}
use Invisible.{Hit, decimal, strip_invisible}
use Markers.{strip_forged_turn}

abbrev pub max_hits_per_field : ℕ
max_hits_per_field = 16

last_through : Hit → List Hit → ℕ
last_through h [] = h.through
last_through h (g ∷ hits) = last_through g hits

-- The hit that stands for all of `rest`.
summary : List Hit → List Hit
summary [] = []
summary (h ∷ rest) =
    record {
      field = h.field;
      line = h.line;
      through = last_through h rest;
      reason = h.reason;
      in_name = false;
      matched = bytes "and " ++ (decimal (suc (length rest)) ++ bytes " more, not itemised");
    }
    ∷ []

unfoldable pub cap_hits : List Hit → List Hit
unfolding summary last_through decimal
cap_hits hits =
    if leb (length hits) max_hits_per_field
    then hits
    else take (max_hits_per_field - 1) hits ++ summary (drop (max_hits_per_field - 1) hits)

unfoldable pub insert_hit : Hit → List Hit → List Hit
insert_hit h [] = h ∷ []
insert_hit h (g ∷ hits) =
    let rest = insert_hit h hits in if ltb g.line h.line then g ∷ rest else h ∷ g ∷ hits

-- Stable, as hits of one line keep their order.
unfoldable pub sort_hits : List Hit → List Hit
unfolding insert_hit
sort_hits [] = []
sort_hits (h ∷ hits) = insert_hit h (sort_hits hits)

-- The report of a value, from what the two passes found.
unfoldable pub report : List Hit → Option Hit → List Hit
report invisible none = cap_hits invisible
report invisible (some forged) = cap_hits (
    sort_hits (
      keep (λ h. not (leb forged.line h.line && leb h.line forged.through)) invisible
      ++ forged ∷ []))

unfoldable pub value : Text → Text → Text × List Hit
unfolding ◌==◌
value field text =
    let (deobfuscated, invisible) = strip_invisible field text in
    let (cleaned, forged) = strip_forged_turn field deobfuscated in
    if text == [] then (text, []) else (cleaned, report invisible forged)

-- A hit in a name: the whole field goes, and the name is not repeated.
unfoldable pub in_name : Hit → Hit
in_name h = record h { in_name = true; line = 1; through = 1 }

-- The loop over the sorted keys.
unfoldable pub fields_of : Assoc Text → Assoc Text × List Hit
fields_of [] = ([], [])
fields_of ((k, v) ∷ rest) =
    let name_hits = (value [] k).1 in
    let (cleaned, found) = value k v in
    let (out, hits) = fields_of rest in
    if length name_hits =ℕ 0
    then ((k, cleaned) ∷ out, found ++ hits)
    else (out, map in_name name_hits ++ hits)

unfoldable pub fields : Assoc Text → Assoc Text × List Hit
unfolding fields_of
fields entries = fields_of (sort_fields entries)

-- `Any`
unfoldable pub removes_any : Assoc Text → Bool
removes_any [] = false
removes_any ((k, v) ∷ rest) =
    (not (length (value [] k).1 =ℕ 0)) || (not (length (value [] v).1 =ℕ 0)) || removes_any rest
