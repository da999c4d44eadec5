-- ===== src/Common/Text.antt =====
-- What the program uses of JavaScript's strings: `trim`, `split` on one character, `parseInt`.
use Prim.Native.Nat.{ℕ, zero, suc, ◌+◌, ◌-◌, ◌*◌}
use Prim.Native.Char.{Char, code}
use Prim.Native.String
use Prim.Native.String.{String}
use mathlib.Core.Path.{◌≡◌, refl}
use mathlib.Core.Logic.{◌≢◌}
use mathlib.Core.Bool.{Bool, true, false, ◌&&◌, ◌||◌}
use mathlib.Core.Option.{Option, none, some}
use mathlib.Core.List.{List, [], ◌∷◌, ◌++◌}
use native.Mathlib.Omega.{arith}
use text.Mathlib.TextLemmas.{nil-append, cons-append}
use minister.Common.Tests.{leb, nat_beq, if◌then◌else◌}

-- White space and line ends, as `trim` and `parseInt` skip them.
unfoldable pub is_space : ℕ → Bool
is_space c =
    (leb 9 c && leb c 13)
    || nat_beq c 32
    || nat_beq c 0xa0
    || nat_beq c 0x1680
    || (leb 0x2000 c && leb c 0x200a)
    || nat_beq c 0x2028
    || nat_beq c 0x2029
    || nat_beq c 0x202f
    || nat_beq c 0x205f
    || nat_beq c 0x3000
    || nat_beq c 0xfeff

unfoldable pub trim_start : String → String
unfolding is_space
trim_start String.[] = ""
trim_start (String.◌∷◌ c s) = if is_space (code c) then trim_start s else String.◌∷◌ c s

abbrev pub keep_unless_blank : Char → String → String
keep_unless_blank c String.[] = if is_space (code c) then "" else String.◌∷◌ c String.[]
keep_unless_blank c (String.◌∷◌ d s) = String.◌∷◌ c (String.◌∷◌ d s)

unfoldable pub trim_end : String → String
unfolding is_space
trim_end String.[] = ""
trim_end (String.◌∷◌ c s) = keep_unless_blank c (trim_end s)

unfoldable pub trim : String → String
unfolding trim_start trim_end
trim s = trim_end (trim_start s)

abbrev pub push_head : Char → List String → List String
push_head c [] = String.◌∷◌ c String.[] ∷ []
push_head c (p ∷ ps) = String.◌∷◌ c p ∷ ps

-- `s.split(c)` for one character.
unfoldable pub split : ℕ → String → List String
split sep String.[] = "" ∷ []
split sep (String.◌∷◌ c s) =
    if nat_beq (code c) sep then "" ∷ split sep s else push_head c (split sep s)

push_head-append :
    (c : Char) (xs ys : List String) → xs ≢ [] → push_head c (xs ++ ys) ≡ push_head c xs ++ ys
push_head-append c [] ys h = absurd (h refl)
push_head-append c (x ∷ xs) ys h = refl

push_head-ne-nil : (c : Char) (xs : List String) → push_head c xs ≢ []
push_head-ne-nil c [] = cc
push_head-ne-nil c (x ∷ xs) = cc

split-ne-nil : (sep : ℕ) (s : String) → split sep s ≢ []
unfolding split
split-ne-nil sep String.[] e = cc
split-ne-nil sep (String.◌∷◌ c s) e = ground (arith, push_head-ne-nil c (split sep s))

pub split-append :
    (sep : Char) (s t : String)
    → split (code sep) (String.◌++◌ s (String.◌∷◌ sep t)) ≡ split (code sep) s ++ split (code sep) t
unfolding split
split-append sep String.[] t = rw nil-append (ground arith)
split-append sep (String.◌∷◌ c s) t = rw cons-append (
    ground (
      arith,
      split-append sep s t,
      push_head-append c (split (code sep) s) (split (code sep) t),
      split-ne-nil (code sep) s,
    ))

-- `parseInt(s, 10)` of a text without a minus sign: the digits that follow the white space and a
-- plus sign, if there are any.
digits_from : ℕ → String → ℕ
digits_from n String.[] = n
digits_from n (String.◌∷◌ c s) =
    let rest = digits_from (n * 10 + (code c - 48)) s in
    if leb 48 (code c) && leb (code c) 57 then rest else n

skip_plus : String → String
skip_plus String.[] = ""
skip_plus (String.◌∷◌ c s) = if nat_beq (code c) b'+' then s else String.◌∷◌ c s

-- `n = Number.parseInt(s, 10)` where the caller takes `n` only if it is finite and positive. A
-- text that starts with a minus sign or with no digit gives no positive number.
unfoldable pub parse_positive : String → Option ℕ
unfolding trim_start digits_from skip_plus
parse_positive s =
    let n = digits_from 0 (skip_plus (trim_start s)) in if leb 1 n then some n else none

abbrev pub is_some : Option String → Bool
is_some none = false
is_some (some rest) = true

-- `s.startsWith(prefix)`, with the rest of `s`.
unfoldable pub after_prefix : String → String → Option String
after_prefix String.[] s = some s
after_prefix (String.◌∷◌ c prefix) String.[] = none
after_prefix (String.◌∷◌ c prefix) (String.◌∷◌ d s) =
    let rest = after_prefix prefix s in if nat_beq (code c) (code d) then rest else none

-- `s.length`: a character above the basic plane counts as two units.
unfoldable pub units : String → ℕ
units String.[] = 0
units (String.◌∷◌ c s) = (if leb 0x10000 (code c) then 2 else 1) + units s

abbrev non_empty : List String → List String
non_empty [] = []
non_empty (String.[] ∷ words) = non_empty words
non_empty (String.◌∷◌ c s ∷ words) = String.◌∷◌ c s ∷ non_empty words

split_space : String → List String
unfolding is_space
split_space String.[] = "" ∷ []
split_space (String.◌∷◌ c s) =
    let rest = split_space s in if is_space (code c) then "" ∷ rest else push_head c rest

-- `s.split(/\s+/).filter(Boolean)`
unfoldable pub words : String → List String
unfolding split_space
words s = non_empty (split_space s)

-- `s.includes(part)`
unfoldable pub contains : String → String → Bool
contains part String.[] = is_some (after_prefix part "")
contains part (String.◌∷◌ c s) = is_some (after_prefix part (String.◌∷◌ c s)) || contains part s

add_first : Char → Option (String × String) → Option (String × String)
add_first c none = none
add_first c (some (before, after)) = some (String.◌∷◌ c before, after)

-- The texts before and after the first character with the code `sep`, by `indexOf` and `slice`.
unfoldable pub split_first : ℕ → String → Option (String × String)
unfolding add_first
split_first sep String.[] = none
split_first sep (String.◌∷◌ c s) =
    let rest = split_first sep s in if nat_beq (code c) sep then some ("", s) else add_first c rest

-- `s.slice(n)`
unfoldable pub slice_from : ℕ → String → String
slice_from zero s = s
slice_from (suc n) String.[] = ""
slice_from (suc n) (String.◌∷◌ c s) = slice_from n s
