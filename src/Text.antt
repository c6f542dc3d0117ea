-- ===== src/Text.antt =====
-- Go strings, as the list of their code points, and the functions of Go's `strings` package that
-- the sources call. `.`, `:` and `/` are ASCII and every text of the program comes from JSON or
-- from the Kubernetes API, so it is valid UTF-8 (but for the start of a response's body in an error, which
-- is only trimmed and printed): a search or a cut at a byte is one at a code
-- point, and the byte order of two texts is the order of their code points.
use Prim.Native.Char.{code}
use Prim.Native.String.{String}
use provider_strapi.Prelude.{
  ℕ, zero, suc, List, [], ◌∷◌, Option, none, some, Bool, true, false, ◌&&◌, ◌≢◌, ◌==◌, ltb,
  if◌then◌else◌, All,
}
pub mod Search
pub mod Equality
pub mod Order
pub mod Sort
pub mod Trim
pub mod Fold

abbrev pub Text : Type 0
Text = List ℕ

-- a literal
abbrev pub codes : String → Text
codes String.[] = []
codes (String.◌∷◌ c s) = code c ∷ codes s

abbrev pub Lacks : ℕ → Text → Type 0
Lacks b = All (λ c. c ≢ b)

-- `s == t`
unfoldable pub text_eq : Text → Text → Bool
text_eq [] [] = true
text_eq (x ∷ s) (y ∷ t) = x == y && text_eq s t
text_eq _ _ = false

-- `s == ""`
abbrev pub is_empty : Text → Bool
is_empty [] = true
is_empty (c ∷ s) = false

-- `strings.HasPrefix(s, p)`
unfoldable pub has_prefix : Text → Text → Bool
has_prefix s [] = true
has_prefix [] (c ∷ p) = false
has_prefix (d ∷ s) (c ∷ p) = d == c && has_prefix s p

-- `strings.Index(s, sep)` for a separator of one byte; `none` is -1
unfoldable pub index : Text → ℕ → Option ℕ
index [] sep = none
index (c ∷ s) sep = elim (c == sep) [
  | true ↦ some zero
  | false ↦ elim (index s sep) [ none ↦ none | some i ↦ some (suc i) ]
]

-- `strings.LastIndex(s, sep)` for a separator of one byte; `none` is -1
unfoldable pub last_index : Text → ℕ → Option ℕ
last_index [] sep = none
last_index (c ∷ s) sep = elim (last_index s sep) [
  | none ↦ if c == sep then some zero else none
  | some i ↦ some (suc i)
]
