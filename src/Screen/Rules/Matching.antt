-- ===== src/Screen/Rules/Matching.antt =====
-- Which rule decides, and what an allow rule may look at.
use dsforms.Common.{
  Bool-cases, Option-cases, keep, any, first, first-any, first-holds, Text, eq_sound, eq_iff, ◌==◌,
  ◌≡◌, refl, sym, ap, ◌∙◌, ◌⊎◌, inl, inr, Bool, true, false, ◌&&◌, ◌||◌, not, none, some, List, [],
  ◌∷◌, arith,
}
use mathlib.Core.List.{Memᴰ}
use mathlib.Core.List.Permᴰ
use dsforms.Screen.Platform.{Platform}
use dsforms.Screen.Addr.{sender_address, canonical}
use dsforms.Screen.Addr.Sender.{claims, choose, sender_address-Permᴰ}
use dsforms.Screen.Rules.{
  Rule, kind_block, kind_allow, type_email, type_domain, type_keyword, matches, address_in,
  all_addresses, sender_addresses, match_kind, match,
}

-- The rule is of the kind, is no keyword, and applies.
abbrev pub applies : Platform → Text → List Text → Text → Rule → Bool
applies p kind addrs ip r = (r.kind == kind) && not (r.type == type_keyword) && matches p r addrs ip

match_kind-first :
    (p : Platform) (kind : Text) (addrs : List Text) (ip : Text) (rules : List Rule)
    → match_kind p kind addrs ip rules ≡ first (applies p kind addrs ip) rules
unfolding match_kind
match_kind-first p kind addrs ip [] = refl
match_kind-first p kind addrs ip (r ∷ rules) =
    ground (arith, match_kind-first p kind addrs ip rules)

match-first :
    (p : Platform) (rules : List Rule) (fs : List (Text × Text)) (ip : Text)
    → match p rules fs ip ≡ (elim (first (applies p kind_allow (sender_addresses p fs) ip) rules) [
      | none ↦ first (applies p kind_block (all_addresses p fs) ip) rules
      | some r ↦ some r
    ])
unfolding match
match-first p rules fs ip = ground (
  arith,
  match_kind-first p kind_allow (sender_addresses p fs) ip rules,
  match_kind-first p kind_block (all_addresses p fs) ip rules,
)

first-Memᴰ :
    (test : Rule → Bool) (rules : List Rule) (r : Rule) → first test rules ≡ some r → Memᴰ r rules
first-Memᴰ test [] r h = absurd (ground arith)
first-Memᴰ test (x ∷ xs) r h = elim (Bool-cases (test x)) [
  | inl e ↦ Memᴰ.head (ground arith)
  | inr e ↦ Memᴰ.tail (first-Memᴰ test xs r (ground arith))
]

-- Why a rule decides.
pub data Decides (p : Platform) (rules : List Rule) (fs : List (Text × Text)) (ip : Text) (r : Rule)
    : Type 0 where
  by_allow : applies p kind_allow (sender_addresses p fs) ip r ≡ true → Decides p rules fs ip r
  by_block :
      any (applies p kind_allow (sender_addresses p fs) ip) rules ≡ false
      → applies p kind_block (all_addresses p fs) ip r ≡ true
      → Decides p rules fs ip r

-- A rule that decides is a listed rule. It is an allow rule that applies to the sender, or a block
-- rule that applies to some address of the submission, and then no listed allow rule applies. When no
-- rule decides, no listed rule of either kind applies.
pub match-Decides :
    (p : Platform) (rules : List Rule) (fs : List (Text × Text)) (ip : Text)
    → ((r : Rule) → match p rules fs ip ≡ some r → Memᴰ r rules × Decides p rules fs ip r)
      × (match p rules fs ip ≡ none
          → (any (applies p kind_allow (sender_addresses p fs) ip) rules ≡ false)
            × (any (applies p kind_block (all_addresses p fs) ip) rules ≡ false))
match-Decides p rules fs ip = elim (Option-cases (first allow rules)) [
  | inl e ↦ (
    λ r h.
        let found : first block rules ≡ some r = blocked e ∙ h in
        (
          first-Memᴰ block rules r found,
          by_block (first-any allow rules e) (first-holds block rules r found),
        ),
    λ h. (first-any allow rules e, first-any block rules (blocked e ∙ h)),
  )
  | inr (a, e) ↦ (
    λ r h.
        let same : some a ≡ some r = sym (allowed a e) ∙ h in
        let found : first allow rules ≡ some r = e ∙ same in
        (first-Memᴰ allow rules r found, by_allow (first-holds allow rules r found)),
    λ h. absurd (ground (arith, allowed a e)),
  )
]
  where
    allow : Rule → Bool
    allow = applies p kind_allow (sender_addresses p fs) ip

    block : Rule → Bool
    block = applies p kind_block (all_addresses p fs) ip

    blocked : first allow rules ≡ none → first block rules ≡ match p rules fs ip
    blocked e = ground (arith, match-first p rules fs ip)

    allowed : (a : Rule) → first allow rules ≡ some a → match p rules fs ip ≡ some a
    allowed a e = ground (arith, match-first p rules fs ip)

-- The sender's address, where a rule may look at it, is the value of the only field that claims it.
abbrev FromSender : Platform → List (Text × Text) → Type 0
FromSender p fs =
    (f : Text × Text) × (a : Text) × (keep claims fs ≡ f ∷ [])
    × (canonical p f.1 ≡ some a)
    × (sender_addresses p fs ≡ a ∷ [])

sender_address-kept :
    (fs kept : List (Text × Text)) → keep claims fs ≡ kept → sender_address fs ≡ choose kept
sender_address-kept fs kept e = (sender_address-Permᴰ fs fs (Permᴰ.refl fs)).1 ∙ ap choose e

sender_addresses-from :
    (p : Platform) (fs kept : List (Text × Text))
    → keep claims fs ≡ kept
    → (sender_addresses p fs ≡ []) ⊎ FromSender p fs
unfolding sender_addresses
sender_addresses-from p fs [] e = inl (ground (arith, sender_address-kept fs [] e))
sender_addresses-from p fs (f ∷ g ∷ rest) e =
    inl (ground (arith, sender_address-kept fs (f ∷ g ∷ rest) e))
sender_addresses-from p fs (f ∷ []) e = elim (Option-cases (canonical p f.1)) [
  | inl none_found ↦ inl (ground (arith, sender_address-kept fs (f ∷ []) e))
  | inr (a, found) ↦ inr (f, a, e, found, ground (arith, sender_address-kept fs (f ∷ []) e))
]

pub allow-ne-block : (kind_allow == kind_block) ≡ false
unfolding ◌==◌
allow-ne-block = refl

kinds_differ : (k : Text) → (k == kind_allow) ≡ true → (k == kind_block) ≡ true → ⊥
kinds_differ k h h' = ground (
  arith,
  eq_sound k kind_allow h,
  allow-ne-block,
  ap (λ t. t == kind_block) (eq_sound k kind_allow h),
)

pub applies-inv :
    (p : Platform) (kind : Text) (addrs : List Text) (ip : Text) (r : Rule)
    → applies p kind addrs ip r ≡ true
    → ((r.kind == kind) ≡ true) × (matches p r addrs ip ≡ true)
applies-inv p kind addrs ip r h = (ground arith, ground arith)

applies-allow :
    (p : Platform) (rules : List Rule) (fs : List (Text × Text)) (ip : Text) (r : Rule)
    → Decides p rules fs ip r
    → (r.kind == kind_allow) ≡ true
    → applies p kind_allow (sender_addresses p fs) ip r ≡ true
applies-allow p rules fs ip r (by_allow h) kind = h
applies-allow p rules fs ip r (by_block none_allows h) kind =
    absurd (kinds_differ r.kind kind (applies-inv p kind_block (all_addresses p fs) ip r h).0)

matches-one :
    (p : Platform) (r : Rule) (a ip : Text)
    → (r.type == type_email || r.type == type_domain) ≡ true
    → matches p r (a ∷ []) ip ≡ true
    → (a ≡ r.value) ⊎ (address_in r.value a ≡ true)
unfolding matches
matches-one p r a ip type h = ground (arith, eq_iff a r.value)

matches-nobody :
    (p : Platform) (r : Rule) (ip : Text)
    → (r.type == type_email || r.type == type_domain) ≡ true
    → matches p r [] ip ≡ false
unfolding matches
matches-nobody p r ip type = ground arith

-- An allow rule for an address or a domain that decides a submission looked at one field only: the
-- only one that claims to be the sender. It matched the comparison form of that field's value. So no
-- mention of an allowed address in another field, and no second claimant, lets a submission through.
pub match-allow :
    (p : Platform) (rules : List Rule) (fs : List (Text × Text)) (ip : Text) (r : Rule)
    → match p rules fs ip ≡ some r
    → (r.kind == kind_allow) ≡ true
    → (r.type == type_email || r.type == type_domain) ≡ true
    → (f : Text × Text) × (a : Text) × (keep claims fs ≡ f ∷ [])
      × (canonical p f.1 ≡ some a)
      × ((a ≡ r.value) ⊎ (address_in r.value a ≡ true))
match-allow p rules fs ip r h kind type =
    let hit : matches p r (sender_addresses p fs) ip ≡ true =
      (applies-inv p kind_allow (sender_addresses p fs) ip r
        (applies-allow p rules fs ip r ((match-Decides p rules fs ip).0 r h).1 kind)).1 in
    elim (sender_addresses-from p fs (keep claims fs) refl) [
      | inl nobody ↦
          absurd
            (ground (arith, hit, matches-nobody p r ip type, ap (λ l. matches p r l ip) nobody))
      | inr (f, a, only, form, same) ↦
          (f, a, only, form, matches-one p r a ip type (rw same at hit))
    ]
