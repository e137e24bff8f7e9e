-- ===== src/Prelude/Texts.antt =====
-- Texts as lists of code points, with their equality test.
use Prim.Native.Nat.{ℕ, ◌+◌}
use Prim.Native.Char.{code}
use Prim.Native.String.{String}
use mathlib.Core.Path.{◌≡◌, refl}
use mathlib.Core.Bool.{Bool, true, false, ◌&&◌, ◌||◌, not}
use mathlib.Core.List.{List, [], ◌∷◌, ◌++◌}
use native.Mathlib.Omega.{arith}
use vlytics.Prelude.Table.{first, select}
use vlytics.Prelude.Tests.{is_some, ltb, leb, ◌==◌, if◌then◌else◌}
use vlytics.Prelude.Lists.{length}

abbrev pub Text : Type 0
Text = List ℕ

abbrev pub codes : String → Text
codes String.[] = []
codes (String.◌∷◌ c s) = code c ∷ codes s

unfoldable pub text_eq : Text → Text → Bool
text_eq [] [] = true
text_eq [] (_ ∷ _) = false
text_eq (_ ∷ _) [] = false
text_eq (c ∷ s) (d ∷ t) = c == d && text_eq s t

pub text_eq_refl : (s : Text) → text_eq s s ≡ true
unfolding text_eq
text_eq_refl [] = refl
text_eq_refl (c ∷ s) = ground (arith, text_eq_refl s)

pub eq_of_text_eq : (s t : Text) → text_eq s t ≡ true → s ≡ t
unfolding text_eq
eq_of_text_eq [] [] h = refl
eq_of_text_eq [] (d ∷ t) h = ground arith
eq_of_text_eq (c ∷ s) [] h = ground arith
eq_of_text_eq (c ∷ s) (d ∷ t) h = ground (arith, eq_of_text_eq s t)

pub append_cancel_left : (s : Text) (t u : Text) → s ++ t ≡ s ++ u → t ≡ u
append_cancel_left [] t u h = h
append_cancel_left (c ∷ s) t u h = append_cancel_left s t u (cc)

-- Texts that begin with parts of one length agree part by part.
pub append_split : (s t u v : Text) → length s ≡ length t → s ++ u ≡ t ++ v → (s ≡ t) × (u ≡ v)
append_split [] [] u v n h = (refl, h)
append_split [] (_ ∷ _) u v n h = absurd (omega arith)
append_split (_ ∷ _) [] u v n h = absurd (omega arith)
append_split (c ∷ s) (d ∷ t) u v n h =
    let rest : (s ≡ t) × (u ≡ v) = append_split s t u v (omega arith) (cc) in (cc, rest.1)

-- btrim(s) <> ''
abbrev pub is_nonblank : Text → Bool
is_nonblank [] = false
is_nonblank (c ∷ s) = if c == 32 then is_nonblank s else true

-- str.isspace for one code point
abbrev pub is_space : ℕ → Bool
is_space c =
    (leb 9 c && leb c 13)
    || ((leb 28 c && leb c 32)
        || (c == 133
            || (c == 160
                || (c == 5760
                    || ((leb 8192 c && leb c 8202)
                        || (c == 8232
                            || (c == 8233 || (c == 8239 || (c == 8287 || c == 12288)))))))))

-- bool(s.strip())
abbrev pub has_text : Text → Bool
has_text [] = false
has_text (c ∷ s) = not (is_space c) || has_text s

abbrev pub starts_with : Text → Text → Bool
starts_with [] t = true
starts_with (c ∷ s) [] = false
starts_with (c ∷ s) (d ∷ t) = if c == d then starts_with s t else false

-- part in s
unfoldable pub contains : Text → Text → Bool
contains part [] = starts_with part []
contains part (c ∷ s) = starts_with part (c ∷ s) || contains part s

-- str.lower for the letters of ASCII. Of the other letters only the Kelvin sign becomes one of them,
-- and no text that the code looks for has a k.
abbrev pub lower : Text → Text
lower [] = []
lower (c ∷ s) = (if leb 65 c && leb c 90 then c + 32 else c) ∷ lower s

abbrev pub member : Text → List Text → Bool
member c cs = is_some (first (text_eq c) cs)

-- dict.fromkeys(cs), in the order of the first occurrences
unfoldable pub unique : List Text → List Text
unique [] = []
unique (c ∷ cs) = c ∷ select (λ d. not (text_eq c d)) (unique cs)

-- The order of texts by code points.
unfoldable pub text_before : Text → Text → Bool
text_before [] t = true
text_before (c ∷ s) [] = false
text_before (c ∷ s) (d ∷ t) = let rest = text_before s t in ltb c d || (c == d && rest)
