-- ===== src/Base/Text.antt =====
-- Texts as the code points that Python's `len`, `in` and the regular expressions of the source see.
use Prim.Native.Nat.{ℕ}
use Prim.Native.Char.{code}
use Prim.Native.String.{String}
use mathlib.Core.Bool.{Bool, true, false, ◌&&◌}
use mathlib.Core.List.{List, [], ◌∷◌}
use job_apply_pro.Base.Equality.{leb, nat_eq, ◌==◌}
use job_apply_pro.Base.Lists.{length, all}

abbrev pub codes : String → List ℕ
codes String.[] = []
codes (String.◌∷◌ c s) = code c ∷ codes s

-- `len(s)`
abbrev pub char_count : String → ℕ
char_count s = length (codes s)

-- `bool(s)`
abbrev pub is_nonempty : String → Bool
is_nonempty String.[] = false
is_nonempty (String.◌∷◌ c s) = true

abbrev pub is_digit : ℕ → Bool
is_digit c = leb b'0' c && leb c b'9'

abbrev pub is_lower : ℕ → Bool
is_lower c = leb b'a' c && leb c b'z'

abbrev pub is_upper : ℕ → Bool
is_upper c = leb b'A' c && leb c b'Z'

-- The rest of a text behind a literal prefix, tested for its length and its characters: the shape
-- `prefix[class]{low,high}` of a full match.
unfoldable pub matches_after : List ℕ → (ℕ → Bool) → ℕ → ℕ → List ℕ → Bool
unfolding nat_eq
matches_after [] p low high cs = leb low (length cs) && leb (length cs) high && all p cs
matches_after (x ∷ prefix) p low high [] = false
matches_after (x ∷ prefix) p low high (c ∷ cs) = c == x && matches_after prefix p low high cs
