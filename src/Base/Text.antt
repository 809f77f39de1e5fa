-- ===== src/Base/Text.antt =====
-- Python's `str` as the native text: comparison, `strip`, and dictionaries keyed by texts.
use Prim.Native.Nat.{ℕ, suc}
use Prim.Native.Char.{Char, code}
use Prim.Native.String.{String}
pub use Prim.Native.String.{◌++◌ as str_append}
use mathlib.Core.Path.{◌≡◌, refl, ap, sym, ◌∙◌}
use mathlib.Core.Logic.{inl, inr}
use mathlib.Core.Bool.{Bool, true, false, ◌&&◌, ◌||◌, not}
use mathlib.Core.List.{List, [], ◌∷◌}
use mathlib.Core.Option.{Option, none, some}
use native.Mathlib.Omega.{arith}
use text.Mathlib.Text.{◌==◌ as same_text}
use text.Mathlib.TextLemmas.{nil-append, cons-append}
use text.Mathlib.TextEquality.{eq_iff}
use sana_v.Base.Tests.{Bool-cases, leb, ◌==◌, if◌then◌else◌}

-- `s == t` on texts
abbrev pub str_eq : String → String → Bool
str_eq = same_text

-- `c.isspace()`, by code point
pub is_space : Char → Bool
is_space c =
    let n = code c in
    (leb 9 n && leb n 13)
    || (leb 28 n && leb n 32)
    || n == 133
    || n == 160
    || n == 5760
    || (leb 8192 n && leb n 8202)
    || n == 8232
    || n == 8233
    || n == 8239
    || n == 8287
    || n == 12288

-- `s.lstrip()`
pub lstrip : String → String
lstrip String.[] = String.[]
lstrip (String.◌∷◌ c s) = let rest = lstrip s in if is_space c then rest else String.◌∷◌ c s

abbrev pub is_empty : String → Bool
is_empty String.[] = true
is_empty (String.◌∷◌ _ _) = false

-- `s.rstrip()`
pub rstrip : String → String
rstrip String.[] = String.[]
rstrip (String.◌∷◌ c s) =
    let rest = rstrip s in if is_empty rest && is_space c then String.[] else String.◌∷◌ c rest

-- `s.strip()`
unfoldable pub strip : String → String
unfolding is_space lstrip rstrip
strip s = rstrip (lstrip s)

-- `not s.strip()`
abbrev pub is_blank : String → Bool
is_blank s = is_empty (strip s)

-- Some character of `s` is no whitespace.
abbrev pub has_mark : String → Bool
has_mark String.[] = false
has_mark (String.◌∷◌ c s) = not (is_space c) || has_mark s

is_empty-rstrip : (s : String) → is_empty (rstrip s) ≡ not (has_mark s)
unfolding rstrip
is_empty-rstrip String.[] = refl
is_empty-rstrip (String.◌∷◌ c s) = ground (arith, is_empty-rstrip s)

-- A text is blank exactly if it has no such character.
pub is_blank-eq : (s : String) → is_blank s ≡ not (has_mark s)
unfolding strip
is_blank-eq String.[] = refl
is_blank-eq (String.◌∷◌ c s) = elim (Bool-cases (is_space c)) [
  | inl space ↦ rw (space, lstrip) (is_blank-eq s)
  | inr mark ↦ rw (mark, lstrip) (ground (arith, is_empty-rstrip s))
]

pub has_mark-append : (s t : String) → has_mark (str_append s t) ≡ (has_mark s || has_mark t)
has_mark-append String.[] t = rw nil-append
has_mark-append (String.◌∷◌ c s) t = rw cons-append (ground (arith, has_mark-append s t))

pub bracket-marked : has_mark "[" ≡ true
unfolding is_space
bracket-marked = refl

has_mark-rstrip : (s : String) → has_mark (rstrip s) ≡ has_mark s
unfolding rstrip
has_mark-rstrip String.[] = refl
has_mark-rstrip (String.◌∷◌ c s) = ground (arith, has_mark-rstrip s, is_empty-rstrip s)

has_mark-lstrip : (s : String) → has_mark (lstrip s) ≡ has_mark s
unfolding lstrip
has_mark-lstrip String.[] = refl
has_mark-lstrip (String.◌∷◌ c s) = ground (arith, has_mark-lstrip s)

has_mark-strip : (s : String) → has_mark (strip s) ≡ has_mark s
unfolding strip
has_mark-strip s = has_mark-rstrip (lstrip s) ∙ has_mark-lstrip s

-- A text is blank exactly if what `strip` leaves of it is.
pub is_blank-strip : (s : String) → is_blank (strip s) ≡ is_blank s
is_blank-strip s = is_blank-eq (strip s) ∙ (ap not (has_mark-strip s) ∙ sym (is_blank-eq s))

-- `len(s)`, in characters
abbrev pub str_length : String → ℕ
str_length String.[] = 0
str_length (String.◌∷◌ _ s) = suc (str_length s)

-- A Python `dict` keyed by texts, in insertion order.
abbrev pub Dict {ℓ} : Type ℓ → Type ℓ
Dict V = List (String × V)

module _ {ℓ} {V : Type ℓ} where
  -- `d.get(k)`
  abbrev pub lookup : String → Dict V → Option V
  lookup k [] = none
  lookup k ((j, v) ∷ d) = if str_eq j k then some v else lookup k d

  -- `d[k] = v`
  abbrev pub insert : String → V → Dict V → Dict V
  insert k v [] = (k, v) ∷ []
  insert k v ((j, w) ∷ d) = if str_eq j k then (j, v) ∷ d else (j, w) ∷ insert k v d

  pub lookup-insert :
      (k j : String) (v : V) (d : Dict V)
      → lookup j (insert k v d) ≡ (if str_eq k j then some v else lookup j d)
  lookup-insert k j v [] = refl
  lookup-insert k j v ((i, w) ∷ d) =
      ground (arith, eq_iff k j, eq_iff i k, eq_iff i j, lookup-insert k j v d)
