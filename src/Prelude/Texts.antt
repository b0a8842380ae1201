-- ===== src/Prelude/Texts.antt =====
-- Texts as the source's JavaScript reads them: truthiness, equality of optional texts, length in
-- UTF-16 units, and numbers in decimal.
use Prim.Native.Nat.{ℕ, zero, suc, ◌-◌, ◌/◌, ◌%◌}
use Prim.Native.Char.{Char, code}
use Prim.Native.String
use Prim.Native.String.{String}
use mathlib.Core.Path.{◌≡◌, refl}
use mathlib.Core.Logic.{◌↔◌}
use mathlib.Core.Bool.{Bool, true, false, not, ◌&&◌, ◌||◌}
use mathlib.Core.Option.{Option, none, some}
use mathlib.Core.List.{List, [], ◌∷◌}
use native.Mathlib.Omega.{arith}
use text.Mathlib.Text.{◌==◌}
use text.Mathlib.TextEquality.{eq_iff}
use ga_hub.Prelude.Tests.{if◌then◌else◌, ltb, leb, eqb}

-- `!!s`: the empty text is falsy.
abbrev pub truthy : String → Bool
truthy String.[] = false
truthy (String.◌∷◌ c s) = true

-- `!!o` for a text that may be missing.
abbrev pub is_set : Option String → Bool
is_set none = false
is_set (some s) = truthy s

-- `a || b` on optional texts, and with a plain text last.
abbrev pub or_set : Option String → Option String → Option String
or_set a b = if is_set a then a else b

abbrev pub or_text : Option String → String → String
or_text none d = d
or_text (some s) d = if truthy s then s else d

-- `a === b` where either side may be missing.
abbrev pub opt_eq : Option String → Option String → Bool
opt_eq none none = true
opt_eq (some a) (some b) = a == b
opt_eq none (some b) = false
opt_eq (some a) none = false

pub opt_eq_iff : (a b : Option String) → (opt_eq a b ≡ true) ↔ (a ≡ b)
opt_eq_iff none none = (λ _. refl, λ _. refl)
opt_eq_iff (some a) (some b) = ground (arith, eq_iff a b)
opt_eq_iff none (some b) = ((λ h. cc), (λ h. cc))
opt_eq_iff (some a) none = ((λ h. cc), (λ h. cc))

-- `s.length`: a code point beyond the basic plane takes two UTF-16 units.
abbrev pub utf16_length : String → ℕ
utf16_length String.[] = 0
utf16_length (String.◌∷◌ c s) =
    let rest = utf16_length s in if ltb (code c) 0x10000 then suc rest else suc (suc rest)

infixr 60 ◌⧺◌
abbrev pub ◌⧺◌ : String → String → String
a ⧺ b = String.◌++◌ a b

-- The blanks that `trim` removes, which are also those of a regular expression.
abbrev pub blank : ℕ → Bool
blank c =
    (ltb 8 c && ltb c 14)
    || eqb c 0x20
    || eqb c 0xa0
    || eqb c 0x1680
    || (ltb 0x1fff c && ltb c 0x200b)
    || eqb c 0x2028
    || eqb c 0x2029
    || eqb c 0x202f
    || eqb c 0x205f
    || eqb c 0x3000
    || eqb c 0xfeff

-- `s.trim().length > 0`: some character is not a blank.
abbrev pub has_ink : String → Bool
has_ink String.[] = false
has_ink (String.◌∷◌ c s) = not (blank (code c)) || has_ink s

-- The text of the UTF-16 units from `a` up to `b`; a cut inside a code point goes before it.
abbrev pub utf16_slice : ℕ → ℕ → String → String
utf16_slice a b String.[] = ""
utf16_slice a b (String.◌∷◌ c s) =
    let w = if ltb (code c) 0x10000 then 1 else 2 in
    let rest = utf16_slice (a - w) (b - w) s in
    if leb w b then (if eqb a 0 then String.◌∷◌ c rest else rest) else ""

-- `parts.join(sep)`.
unfoldable pub join : String → List String → String
join sep [] = ""
join sep (s ∷ []) = s
join sep (s ∷ t ∷ rest) = s ⧺ sep ⧺ join sep (t ∷ rest)

abbrev pub digit : ℕ → Char
digit n = elim n [
  | zero ↦ "0"
  | suc zero ↦ "1"
  | suc (suc zero) ↦ "2"
  | suc (suc (suc zero)) ↦ "3"
  | suc (suc (suc (suc zero))) ↦ "4"
  | suc (suc (suc (suc (suc zero)))) ↦ "5"
  | suc (suc (suc (suc (suc (suc zero))))) ↦ "6"
  | suc (suc (suc (suc (suc (suc (suc zero)))))) ↦ "7"
  | suc (suc (suc (suc (suc (suc (suc (suc zero))))))) ↦ "8"
  | _ ↦ "9"
]

unfoldable pub decimal_from : ℕ → ℕ → String → String
decimal_from zero n acc = acc
decimal_from (suc fuel) n acc =
    let shown = String.◌∷◌ (digit (n % 10)) acc in
    let rest = decimal_from fuel (n / 10) shown in if ltb n 10 then shown else rest

-- `String(n)`; a number has at most as many digits as its value plus one.
unfoldable pub decimal : ℕ → String
unfolding decimal_from
decimal n = decimal_from (suc n) n ""

hundred_seven : decimal 107 ≡ "107"
unfolding decimal
hundred_seven = refl

-- `s.split(':')[0]`.
abbrev pub before_colon : String → String
before_colon String.[] = ""
before_colon (String.◌∷◌ c s) =
    let rest = before_colon s in if eqb (code c) b':' then "" else String.◌∷◌ c rest

abbrev pub contains_text : List String → String → Bool
contains_text [] s = false
contains_text (t ∷ ts) s = t == s || contains_text ts s

-- `set.delete(s)`.
abbrev pub remove_text : String → List String → List String
remove_text s [] = []
remove_text s (t ∷ ts) = let rest = remove_text s ts in if t == s then rest else t ∷ rest
