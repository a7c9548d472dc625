-- ===== src/Text.antt =====
-- Texts as their code points, with the two ways in which the server trims them: PostgreSQL's
-- one-argument btrim, and normalize_correction_reason of
-- server/alembic/versions/0011_corrections.py.
use defiant_fleet_ops.Base.{
  ℕ, ◌≡◌, refl, Bool, true, false, not, ◌||◌, ◌&&◌, List, [], ◌∷◌, ltb, leb, ◌==◌, any, length,
}
use Prim.Native.Char.{code}
use Prim.Native.String.{String}
use mathlib.Core.List.{reverse}

abbrev pub Text : Type 0
Text = List ℕ

-- The code points of a literal.
abbrev pub codes : String → Text
codes String.[] = []
codes (String.◌∷◌ c s) = code c ∷ codes s

abbrev pub text_eq : Text → Text → Bool
text_eq [] [] = true
text_eq (a ∷ s) (b ∷ t) = (a == b) && text_eq s t
text_eq _ _ = false

-- btrim takes the listed characters off both ends.
drop_while : (ℕ → Bool) → Text → Text
drop_while p [] = []
drop_while p (c ∷ s) = elim (p c) [ true ↦ drop_while p s | false ↦ c ∷ s ]

unfoldable pub trim_by : (ℕ → Bool) → Text → Text
unfolding drop_while
trim_by p s = reverse (drop_while p (reverse (drop_while p s)))

unfoldable pub btrim : Text → Text
unfolding trim_by
btrim = trim_by (λ c. c == b' ')

-- The code points of `whitespace`.
unfoldable pub is_whitespace : ℕ → Bool
is_whitespace c =
    (leb 9 c && ltb c 14)
    || (leb 28 c && ltb c 33)
    || c == 133
    || c == 160
    || c == 5760
    || (leb 8192 c && ltb c 8203)
    || c == 8232
    || c == 8233
    || c == 8239
    || c == 8287
    || c == 12288

unfoldable pub normalize_correction_reason : Text → Text
unfolding trim_by is_whitespace
normalize_correction_reason = trim_by is_whitespace

-- `[[:space:]]` of a regular expression, in the C locale.
abbrev pub is_space : ℕ → Bool
is_space c = (leb 9 c && leb c 13) || c == 32

-- The CHECK of every history table: length(btrim(reason)) BETWEEN 1 AND 4000 AND
-- reason ~ '[^[:space:]]'.
unfoldable pub reason_admitted : Text → Bool
unfolding btrim
reason_admitted reason =
    leb 1 (length (btrim reason))
    && leb (length (btrim reason)) 4000
    && any (λ c. not (is_space c)) reason

-- The CHECK of asset_transitions, which asks for no visible character.
unfoldable pub reason_bounded : Text → Bool
unfolding btrim
reason_bounded reason = leb 1 (length (btrim reason)) && leb (length (btrim reason)) 4000

reason-trimmed : reason_admitted (codes "  moved ") ≡ true
unfolding reason_admitted
reason-trimmed = refl

reason-blank : reason_admitted (codes "   ") ≡ false
unfolding reason_admitted
reason-blank = refl

normalized : normalize_correction_reason (codes "\tlate entry \n") ≡ codes "late entry"
unfolding normalize_correction_reason
normalized = refl
