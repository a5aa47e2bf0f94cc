-- ===== src/Base/Text.antt =====
-- `str.strip`, `str.lower`, `str.replace` of one character, joining and decimal printing. Case and
-- white space are those of ASCII.
use Prim.Native.Nat.{ℕ, zero, suc, ◌+◌, ◌-◌, ◌*◌, ◌/◌, ◌%◌, ◌<◌}
use Prim.Native.Char.{Char, code}
use Prim.Native.String
pub use Prim.Native.String.{String, char_at}
use mathlib.Core.Path.{◌≡◌, refl, ap, ◌∙◌, sym}
use mathlib.Core.Bool.{Bool, true, false, ◌&&◌, ◌||◌}
use native.Mathlib.Omega.{arith}
use atsuite.Base.Tests.{ltb, leb, if◌then◌else◌}

-- `s + t`, and the joining of an f-string
infixr 65 ◌&◌
abbrev pub ◌&◌ : String → String → String
s & t = String.◌++◌ s t

-- `not s`
abbrev pub is_empty : String → Bool
is_empty String.[] = true
is_empty (String.◌∷◌ c s) = false

-- `s or default`
abbrev pub or_else : String → String → String
or_else s default = if is_empty s then default else s

-- `str.isspace` of one character
unfoldable pub is_space : Char → Bool
is_space c = (leb 9 (code c) && leb (code c) 13) || (leb 28 (code c) && leb (code c) 32)

unfoldable pub lstrip : String → String
unfolding is_space
lstrip String.[] = String.[]
lstrip (String.◌∷◌ c s) = let rest = lstrip s in if is_space c then rest else String.◌∷◌ c s

unfoldable pub rstrip : String → String
unfolding is_space
rstrip String.[] = String.[]
rstrip (String.◌∷◌ c s) =
    let rest = rstrip s in if is_space c && is_empty rest then String.[] else String.◌∷◌ c rest

-- `s.strip()`
unfoldable pub strip : String → String
unfolding lstrip rstrip
strip s = rstrip (lstrip s)

unfoldable pub lower_char : Char → Char
lower_char c =
    if leb 65 (code c) && leb (code c) 90
    then char_at "abcdefghijklmnopqrstuvwxyz" (code c - 65)
    else c

-- `s.lower()`
unfoldable pub lower : String → String
unfolding lower_char
lower String.[] = String.[]
lower (String.◌∷◌ c s) = String.◌∷◌ (lower_char c) (lower s)

-- `s.strip().lower()`
unfoldable pub fold_case : String → String
unfolding strip lower
fold_case s = lower (strip s)

-- `s.startswith(prefix)`
unfoldable pub starts_with : String → String → Bool
starts_with String.[] s = true
starts_with (String.◌∷◌ c prefix) String.[] = false
starts_with (String.◌∷◌ c prefix) (String.◌∷◌ d s) =
    leb (code c) (code d) && leb (code d) (code c) && starts_with prefix s

-- `s[n:]`
unfoldable pub drop : ℕ → String → String
drop zero s = s
drop (suc n) String.[] = String.[]
drop (suc n) (String.◌∷◌ c s) = drop n s

-- `s[:n]`
unfoldable pub take : ℕ → String → String
take zero s = String.[]
take (suc n) String.[] = String.[]
take (suc n) (String.◌∷◌ c s) = String.◌∷◌ c (take n s)

-- `s.split(sep)[0]` for one character
unfoldable pub before : ℕ → String → String
before a String.[] = String.[]
before a (String.◌∷◌ c s) =
    let rest = before a s in
    if leb a (code c) && leb (code c) a then String.[] else String.◌∷◌ c rest

-- `s.replace(a, b)` for single characters
unfoldable pub replace : ℕ → Char → String → String
replace a b String.[] = String.[]
replace a b (String.◌∷◌ c s) =
    String.◌∷◌ (if leb a (code c) && leb (code c) a then b else c) (replace a b s)

digit : ℕ → Char
digit d = char_at "0123456789" d

-- The digits of `n`, before `tail`; the fuel is one more than `n`.
show_from : ℕ → ℕ → String → String
unfolding digit
show_from zero n tail = tail
show_from (suc f) n tail =
    let front = show_from f (n / 10) (String.◌∷◌ (digit (n % 10)) tail) in
    if ltb n 10 then String.◌∷◌ (digit n) tail else front

-- `str(n)`
unfoldable pub show : ℕ → String
unfolding show_from
show n = show_from (suc n) n ""

-- The number that a text of digits, after digits worth `n`, stands for.
read_from : ℕ → String → ℕ
read_from n String.[] = n
read_from n (String.◌∷◌ c s) = read_from (n * 10 + (code c - 48)) s

code-digit : (d : ℕ) → d < 10 → code (digit d) - 48 ≡ d
unfolding digit
code-digit zero h = refl
code-digit (suc zero) h = refl
code-digit (suc (suc zero)) h = refl
code-digit (suc (suc (suc zero))) h = refl
code-digit (suc (suc (suc (suc zero)))) h = refl
code-digit (suc (suc (suc (suc (suc zero))))) h = refl
code-digit (suc (suc (suc (suc (suc (suc zero)))))) h = refl
code-digit (suc (suc (suc (suc (suc (suc (suc zero))))))) h = refl
code-digit (suc (suc (suc (suc (suc (suc (suc (suc zero)))))))) h = refl
code-digit (suc (suc (suc (suc (suc (suc (suc (suc (suc zero))))))))) h = refl
code-digit (suc (suc (suc (suc (suc (suc (suc (suc (suc (suc d)))))))))) h = absurd (omega arith)

read-show_from :
    (f n : ℕ) (tail : String) → n < f → read_from 0 (show_from f n tail) ≡ read_from n tail
unfolding show_from read_from
read-show_from zero n tail h = elim h [ ]
read-show_from (suc f) n tail h = ground (
  arith,
  code-digit n,
  code-digit (n % 10),
  read-show_from f (n / 10) (String.◌∷◌ (digit (n % 10)) tail),
)

-- Printing loses nothing, so equal texts come from equal numbers.
pub show_injective : (m n : ℕ) → show m ≡ show n → m ≡ n
unfolding show read_from
show_injective m n h =
    sym (read-show_from (suc m) m "" (omega arith))
    ∙ ap (read_from 0) h
    ∙ read-show_from (suc n) n "" (omega arith)

show_example : show 3070 ≡ "3070"
unfolding show
show_example = refl

fold_case_example : fold_case "  Index " ≡ "index"
unfolding fold_case
fold_case_example = refl
