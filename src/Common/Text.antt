-- ===== src/Common/Text.antt =====
-- The functions of Go's `strings` that the program calls, by recursion on the text. A text that
-- is only compared or trimmed is a `String`; one that is searched is the list of its code points.
use Prim.Native.Nat.{ℕ, zero, suc, ◌+◌, ◌-◌}
use Prim.Native.Char.{Char, code}
use Prim.Native.String.{String, [], ◌∷◌, ◌++◌}
use mathlib.Core.Bool.{Bool, true, false, ◌&&◌, ◌||◌}
use mathlib.Core.Option.{Option, none, some}
use mathlib.Core.List
use mathlib.Core.List.{List}
use mathlib.Core.Path.{◌≡◌, refl, ap, ◌∙◌}
use mathlib.Core.Logic.{inl, inr}
use nomici_orchestrator.Common.Tests.{leb, ◌=ℕ=◌, if◌then◌else◌, Bool-cases}

-- unicode.IsSpace
unfoldable pub is_space : ℕ → Bool
is_space n =
    (leb 9 n && leb n 13)
    || n =ℕ= 32
    || n =ℕ= 0x85
    || n =ℕ= 0xa0
    || n =ℕ= 0x1680
    || (leb 0x2000 n && leb n 0x200a)
    || n =ℕ= 0x2028
    || n =ℕ= 0x2029
    || n =ℕ= 0x202f
    || n =ℕ= 0x205f
    || n =ℕ= 0x3000

unfoldable pub is_empty : String → Bool
is_empty [] = true
is_empty (c ∷ s) = false

trim_left : String → String
unfolding is_space
trim_left [] = []
trim_left (c ∷ s) = if is_space (code c) then trim_left s else c ∷ s

-- a space is dropped only where nothing but spaces follows it
trim_right : String → String
unfolding is_space is_empty
trim_right [] = []
trim_right (c ∷ s) =
    let rest = trim_right s in if is_space (code c) && is_empty rest then [] else c ∷ rest

-- strings.TrimSpace
unfoldable pub trim_space : String → String
unfolding trim_left trim_right
trim_space s = trim_right (trim_left s)

trim_left-head : (c : Char) (s : String) → is_space (code c) ≡ false → trim_left (c ∷ s) ≡ c ∷ s
unfolding trim_left
trim_left-head c s h = rw h refl

trim_right-head :
    (c : Char) (s : String) → is_space (code c) ≡ false → trim_right (c ∷ s) ≡ c ∷ trim_right s
unfolding trim_right
trim_right-head c s h = rw h refl

trim_left-nothing : trim_left (trim_right []) ≡ trim_right []
unfolding trim_left trim_right
trim_left-nothing = refl

-- no space is left in front, nor comes there by trimming the end
trim_left-trim_right :
    (s : String) → trim_left (trim_right (trim_left s)) ≡ trim_right (trim_left s)
unfolding trim_left
trim_left-trim_right [] = trim_left-nothing
trim_left-trim_right (c ∷ s) = elim (Bool-cases (is_space (code c))) [
  | inl e ↦ rw e (trim_left-trim_right s)
  | inr e ↦ rw e (rw (trim_right-head c s e) (rw e refl))
]

trim_right-trim_right : (s : String) → trim_right (trim_right s) ≡ trim_right s
unfolding trim_right is_empty
trim_right-trim_right [] = refl
trim_right-trim_right (c ∷ s) = elim (Bool-cases (is_space (code c) && is_empty (trim_right s))) [
  | inl e ↦ rw e refl
  | inr e ↦ rw e (rw (trim_right-trim_right s) (rw e refl))
]

pub trim_space-trim_space : (s : String) → trim_space (trim_space s) ≡ trim_space s
unfolding trim_space
trim_space-trim_space s =
    ap trim_right (trim_left-trim_right s) ∙ trim_right-trim_right (trim_left s)

-- The code points of a text: its bytes, where it is ASCII.
abbrev pub codes : String → List ℕ
codes [] = List.[]
codes (c ∷ s) = List.◌∷◌ (code c) (codes s)

-- strings.ToLower. Of the letters outside ASCII only U+0130 and U+212A have an ASCII lower case;
-- the others are kept here, which no test of the program for an ASCII text can tell.
unfoldable pub to_lower_code : ℕ → ℕ
to_lower_code c =
    if leb b'A' c && leb c b'Z'
    then c + 32
    else if c =ℕ= 0x130
    then b'i'
    else if c =ℕ= 0x212a
    then b'k'
    else c

unfoldable pub to_lower : List ℕ → List ℕ
unfolding to_lower_code
to_lower = List.map to_lower_code

-- strings.HasPrefix(s, prefix), the prefix first
unfoldable pub has_prefix : List ℕ → List ℕ → Bool
has_prefix List.[] s = true
has_prefix (List.◌∷◌ c p) List.[] = false
has_prefix (List.◌∷◌ c p) (List.◌∷◌ d s) = c =ℕ= d && has_prefix p s

-- strings.Contains(s, part), the part first
unfoldable pub contains : List ℕ → List ℕ → Bool
unfolding has_prefix
contains p List.[] = has_prefix p List.[]
contains p (List.◌∷◌ c s) = has_prefix p (List.◌∷◌ c s) || contains p s

char_at : String → ℕ → Char → Char
char_at [] n d = d
char_at (c ∷ s) zero d = c
char_at (c ∷ s) (suc n) d = char_at s n d

-- unicode.ToLower on the letters that it maps to ASCII, as in `to_lower_code`: an ASCII capital, the
-- dotted capital I and the Kelvin sign. The other letters are kept.
lower_char : Char → Char
unfolding char_at
lower_char c =
    if leb b'A' (code c) && leb (code c) b'Z'
    then char_at "abcdefghijklmnopqrstuvwxyz" (code c - b'A') c
    else if code c =ℕ= 304
    then char_at "i" 0 c
    else if code c =ℕ= 8490
    then char_at "k" 0 c
    else c

-- strings.ToLower, as a text
unfoldable pub lower : String → String
unfolding lower_char
lower [] = []
lower (c ∷ s) = lower_char c ∷ lower s

-- the digit of a number below ten
unfoldable pub digit : ℕ → Char
unfolding char_at
digit n = char_at "0123456789" n "0"

-- strings.ReplaceAll of a line feed by a line feed and two spaces
unfoldable pub indented : String → String
indented [] = []
indented (c ∷ s) = let rest = indented s in if code c =ℕ= 10 then c ∷ ("  " ++ rest) else c ∷ rest

-- strings.HasPrefix on texts, the prefix first
unfoldable pub starts_with : String → String → Bool
starts_with [] s = true
starts_with (c ∷ p) [] = false
starts_with (c ∷ p) (d ∷ s) = code c =ℕ= code d && starts_with p s

-- a text without what it starts with, by the length of that
unfoldable pub without_start : String → String → String
without_start [] s = s
without_start (c ∷ p) [] = []
without_start (c ∷ p) (d ∷ s) = without_start p s

-- what stands behind the first place of a part in a text
unfoldable pub text_after : String → String → Option String
unfolding starts_with without_start
text_after part [] = if starts_with part [] then some [] else none
text_after part (c ∷ s) =
    let later = text_after part s in
    if starts_with part (c ∷ s) then some (without_start part (c ∷ s)) else later

with_head : Char → Option String → Option String
with_head c none = none
with_head c (some s) = some (c ∷ s)

-- what stands before the first place of a part in a text
unfoldable pub text_before : String → String → Option String
unfolding starts_with with_head
text_before part [] = if starts_with part [] then some [] else none
text_before part (c ∷ s) =
    let later = text_before part s in
    if starts_with part (c ∷ s) then some [] else with_head c later

-- a text up to the last place of a character, that included
unfoldable pub up_to_last : ℕ → String → Option String
unfolding with_head
up_to_last n [] = none
up_to_last n (c ∷ s) = elim (up_to_last n s) [
  | some t ↦ some (c ∷ t)
  | none ↦ if code c =ℕ= n then some (c ∷ []) else none
]
