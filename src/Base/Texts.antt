-- ===== src/Base/Texts.antt =====
-- Parts of texts, `str.startswith`, and classes of characters by their codes.
use Prim.Native.Nat.{ℕ, zero, suc}
use Prim.Native.Char.{code}
use Prim.Native.Char.{Char}
use Prim.Native.String.{String, ◌++◌ as ◌<>◌}
use Prim.Native.String.append
use mathlib.Core.Path.{◌≡◌, refl, sym, ap, ◌∙◌}
use mathlib.Core.Bool.{Bool, true, false, ◌&&◌, ◌||◌}
use mathlib.Core.Option.{Option, none, some}
use native.Mathlib.Omega.{arith}
use mathlib.Core.List.{List, [], ◌∷◌}
use runvard.Base.Tests.{leb, ◌==◌, ==→≡, ==-refl, if◌then◌else◌}

-- `text[:n]`
unfoldable pub prefix : ℕ → String → String
prefix zero s = ""
prefix (suc n) String.[] = ""
prefix (suc n) (String.◌∷◌ c s) = String.◌∷◌ c (prefix n s)

-- `text[n:]`
unfoldable pub suffix : ℕ → String → String
suffix zero s = s
suffix (suc n) String.[] = ""
suffix (suc n) (String.◌∷◌ c s) = suffix n s

-- `len(text)`
unfoldable pub text_length : String → ℕ
text_length String.[] = 0
text_length (String.◌∷◌ c s) = suc (text_length s)

-- `text.startswith(start)`
unfoldable pub starts_with : (text start : String) → Bool
starts_with text start = prefix (text_length start) text == start

nil_append : (s : String) → "" <> s ≡ s
nil_append s = λ i. append.nil s i

cons_append : (c : Char) (s t : String) → String.◌∷◌ c s <> t ≡ String.◌∷◌ c (s <> t)
cons_append c s t = λ i. append.cons c s t i

prefix-suffix : (n : ℕ) (s : String) → prefix n s <> suffix n s ≡ s
unfolding prefix suffix
prefix-suffix zero s = nil_append s
prefix-suffix (suc n) String.[] = nil_append ""
prefix-suffix (suc n) (String.◌∷◌ c s) =
    cons_append c (prefix n s) (suffix n s) ∙ ap (String.◌∷◌ c) (prefix-suffix n s)

prefix-append : (s t : String) → prefix (text_length s) (s <> t) ≡ s
unfolding prefix text_length
prefix-append String.[] t = refl
prefix-append (String.◌∷◌ c s) t =
    ap (prefix (suc (text_length s))) (cons_append c s t) ∙ ap (String.◌∷◌ c) (prefix-append s t)

-- What starts with a text is that text and a rest.
pub starts_with-split :
    (s start : String) → starts_with s start ≡ true → s ≡ start <> suffix (text_length start) s
unfolding starts_with
starts_with-split s start h =
    sym (prefix-suffix (text_length start) s)
    ∙ ap (λ t. t <> suffix (text_length start) s) (==→≡ (prefix (text_length start) s) start h)

pub starts_with-append : (start rest : String) → starts_with (start <> rest) start ≡ true
unfolding starts_with
starts_with-append start rest = rw (prefix-append start rest) (==-refl start)

-- The codes of a text's characters.
abbrev pub codes : String → List ℕ
codes String.[] = []
codes (String.◌∷◌ c s) = code c ∷ codes s

abbrev pub eqb : ℕ → ℕ → Bool
eqb a b = leb a b && leb b a

-- `c in "lo-hi"`
abbrev pub in_range : ℕ → ℕ → ℕ → Bool
in_range lo hi c = leb lo c && leb c hi

-- `[A-Za-z0-9]`
abbrev pub is_alnum : ℕ → Bool
is_alnum c = in_range b'A' b'Z' c || in_range b'a' b'z' c || in_range b'0' b'9' c

-- `c in text`, of one character
unfoldable pub has_char : Char → String → Bool
has_char c String.[] = false
has_char c (String.◌∷◌ d s) = let rest = has_char c s in eqb (code d) (code c) || rest

-- A character in front of the first of the texts.
unfoldable pub put_front : Char → List String → List String
put_front c [] = String.◌∷◌ c "" ∷ []
put_front c (s ∷ ss) = String.◌∷◌ c s ∷ ss

-- `text.split(sep)`
unfoldable pub split : Char → String → List String
split c String.[] = "" ∷ []
split c (String.◌∷◌ d s) =
    let rest = split c s in if eqb (code d) (code c) then "" ∷ rest else put_front d rest

abbrev put_first : Char → Option (String × String) → Option (String × String)
put_first c none = none
put_first c (some (s, t)) = some (String.◌∷◌ c s, t)

-- `text.split(sep, 1)`, of a text that has the separator
unfoldable pub split_once : Char → String → Option (String × String)
split_once c String.[] = none
split_once c (String.◌∷◌ d s) =
    let rest = split_once c s in if eqb (code d) (code c) then some ("", s) else put_first d rest

cons_text : (c : Char) (t : String) → String.◌∷◌ c "" <> t ≡ String.◌∷◌ c t
cons_text c t = cons_append c "" t ∙ ap (String.◌∷◌ c) (nil_append t)

split-cons :
    (c : Char) (s t : String) → has_char c s ≡ false → split c (s <> String.◌∷◌ c t) ≡ s ∷ split c t
unfolding split has_char put_front
split-cons c String.[] t h = rw nil_append (ground arith)
split-cons c (String.◌∷◌ d s) t h = rw cons_append (ground (arith, split-cons c s t))

-- A text without the separator is the first part of what it starts.
pub split-append :
    (c : Char) (s t : String)
    → has_char c s ≡ false
    → split c (s <> (String.◌∷◌ c "" <> t)) ≡ s ∷ split c t
split-append c s t h = rw cons_text (split-cons c s t h)

pub split-whole : (c : Char) (s : String) → has_char c s ≡ false → split c s ≡ s ∷ []
unfolding split has_char put_front
split-whole c String.[] h = refl
split-whole c (String.◌∷◌ d s) h = ground (arith, split-whole c s)

split_once-cons :
    (c : Char) (s t : String)
    → has_char c s ≡ false
    → split_once c (s <> String.◌∷◌ c t) ≡ some (s, t)
unfolding split_once has_char
split_once-cons c String.[] t h = rw nil_append (ground arith)
split_once-cons c (String.◌∷◌ d s) t h = rw cons_append (ground (arith, split_once-cons c s t))

pub split_once-append :
    (c : Char) (s t : String)
    → has_char c s ≡ false
    → split_once c (s <> (String.◌∷◌ c "" <> t)) ≡ some (s, t)
split_once-append c s t h = rw cons_text (split_once-cons c s t h)
