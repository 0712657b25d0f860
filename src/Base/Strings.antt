-- ===== src/Base/Strings.antt =====
-- Python's operations on strings, over their code points.
use Prim.Native.Nat.{ℕ, zero, suc}
use Prim.Native.Char.{Char, code}
use Prim.Native.String
use Prim.Native.String.{String, [], ◌∷◌}
use mathlib.Core.Bool.{Bool, true, ◌&&◌, ◌||◌}
use mathlib.Core.List.{List, [], ◌∷◌}
use ai_proctor_engine.Base.Tests.{◌==◌, leb, if◌then◌else◌}
use ai_proctor_engine.Base.Lists.{any}

abbrev pub with_char : String → Char → String
with_char s c = String.◌++◌ s (c ∷ [])

abbrev pub joined_text : String → String → String
joined_text s t = String.◌++◌ s t

-- `s.split(sep)` for a separator of one character: `cur` is the part that is being read.
unfoldable pub split_from : ℕ → String → String → List String
split_from sep cur [] = cur ∷ []
split_from sep cur (c ∷ s) =
    let closed : List String = cur ∷ split_from sep "" s in
    let longer = split_from sep (with_char cur c) s in if code c == sep then closed else longer

unfoldable pub split_on : ℕ → String → List String
unfolding split_from
split_on sep s = split_from sep "" s

-- The characters that `str.strip` takes away (`str.isspace`).
unfoldable pub is_space : Char → Bool
is_space c =
    (leb 9 (code c) && leb (code c) 13)
    || ((leb 28 (code c) && leb (code c) 32)
        || ((leb 8192 (code c) && leb (code c) 8202)
            || any (λ n. code c == n) (133 ∷ 160 ∷ 5760 ∷ 8232 ∷ 8233 ∷ 8239 ∷ 8287 ∷ 12288 ∷ [])))

-- `s.lstrip()`, and `s.rstrip()` by way of the text that is kept and the spaces behind it.
unfoldable pub lstrip : String → String
lstrip [] = []
lstrip (c ∷ s) = let rest = lstrip s in if is_space c then rest else c ∷ s

rstrip_from : String → String → String → String
rstrip_from kept spaces [] = kept
rstrip_from kept spaces (c ∷ s) =
    let open_space = rstrip_from kept (with_char spaces c) s in
    let taken = rstrip_from (with_char (joined_text kept spaces) c) "" s in
    if is_space c then open_space else taken

unfoldable pub strip : String → String
unfolding lstrip rstrip_from
strip s = rstrip_from "" "" (lstrip s)

-- `s[n:]`
unfoldable pub skip : ℕ → String → String
skip zero s = s
skip (suc n) [] = []
skip (suc n) (c ∷ s) = skip n s

-- `s.isascii()`
unfoldable pub is_ascii : String → Bool
is_ascii [] = true
is_ascii (c ∷ s) = leb (code c) 127 && is_ascii s
