-- ===== src/Prelude/Text.antt =====
-- Texts: equality, and the operations of Rust's `str` that the program calls.
use Prim.Native.Nat.{ℕ, zero, suc, ◌+◌, ◌-◌}
use Prim.Native.Char.{code}
use Prim.Native.String.{String, ◌++◌ as str_append}
use mathlib.Core.Bool.{Bool, true, false, ◌&&◌, ◌||◌}
use mathlib.Core.List.{List, [], ◌∷◌, map, reverse}
use text.Mathlib.Text.{◌==◌ as text_eq}
use sqreen_core.Prelude.Tests.{leb, ◌==◌, if◌then◌else◌}

abbrev pub str_eq : String → String → Bool
str_eq s t = text_eq s t

-- `format!` of two parts
infixr 65 ◌&◌
abbrev pub ◌&◌ : String → String → String
s & t = str_append s t

-- `contains` of a slice or a set of texts
abbrev pub contains : List String → String → Bool
contains [] s = false
contains (t ∷ ts) s = str_eq t s || contains ts s

-- The code points of a text.
abbrev pub codes : String → List ℕ
codes String.[] = []
codes (String.◌∷◌ c s) = code c ∷ codes s

-- `chars().take(n)`
unfoldable pub take_chars : ℕ → String → String
take_chars zero text = ""
take_chars (suc n) String.[] = ""
take_chars (suc n) (String.◌∷◌ c text) = String.◌∷◌ c (take_chars n text)

-- `chars().count()`
abbrev pub char_count : String → ℕ
char_count String.[] = 0
char_count (String.◌∷◌ c text) = suc (char_count text)

-- `join` of a slice of texts
abbrev pub join : String → List String → String
join separator [] = ""
join separator (t ∷ []) = t
join separator (t ∷ u ∷ ts) = t & separator & join separator (u ∷ ts)

-- ASCII white space, as far as `trim` meets it in configuration values.
unfoldable pub is_space : ℕ → Bool
is_space c = c == 32 || (leb 9 c && leb c 13)

unfoldable pub trim_start : List ℕ → List ℕ
unfolding is_space
trim_start [] = []
trim_start (c ∷ cs) = if is_space c then trim_start cs else c ∷ cs

-- `trim`
unfoldable pub trim : List ℕ → List ℕ
unfolding trim_start
trim cs = reverse (trim_start (reverse (trim_start cs)))

-- `to_ascii_lowercase`, of one code point
unfoldable pub to_lower : ℕ → ℕ
to_lower c = if leb 65 c && leb c 90 then c + 32 else c

-- `to_ascii_uppercase`, of one code point
unfoldable pub to_upper : ℕ → ℕ
to_upper c = if leb 97 c && leb c 122 then c - 32 else c

-- `raw.trim().to_ascii_lowercase()`
unfoldable pub normalized : String → List ℕ
unfolding trim to_lower
normalized raw = map to_lower (trim (codes raw))

-- `trim().is_empty()`
unfoldable pub is_blank : String → Bool
unfolding trim
is_blank raw = elim (trim (codes raw)) [ [] ↦ true | _ ∷ _ ↦ false ]

abbrev pub codes_eq : List ℕ → List ℕ → Bool
codes_eq [] [] = true
codes_eq (a ∷ as') (b ∷ bs) = a == b && codes_eq as' bs
codes_eq _ _ = false

-- An arm of `match text.as_str()`: is the text one of the literals?
abbrev pub one_of : List ℕ → List String → Bool
one_of cs [] = false
one_of cs (t ∷ ts) = codes_eq cs (codes t) || one_of cs ts

-- `starts_with`, `contains` and `ends_with` of a text, on its code points
abbrev pub starts_with : List ℕ → List ℕ → Bool
starts_with [] cs = true
starts_with (a ∷ as') [] = false
starts_with (a ∷ as') (c ∷ cs) = a == c && starts_with as' cs

abbrev pub has_infix : List ℕ → List ℕ → Bool
has_infix needle [] = starts_with needle []
has_infix needle (c ∷ cs) = starts_with needle (c ∷ cs) || has_infix needle cs

abbrev pub ends_with : List ℕ → List ℕ → Bool
ends_with needle cs = starts_with (reverse needle) (reverse cs)

-- `text.to_ascii_lowercase()`
unfoldable pub lowered : String → List ℕ
unfolding to_lower
lowered text = map to_lower (codes text)

-- `fragments.iter().any(|fragment| lowered.contains(fragment))`
abbrev pub has_any : List ℕ → List String → Bool
has_any cs [] = false
has_any cs (t ∷ ts) = has_infix (codes t) cs || has_any cs ts
