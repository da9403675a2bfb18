-- ===== src/CString.antt =====
-- Bytes and C strings: the functions of ctype.h and string.h that the sources call, in the C
-- locale. A `char *` into a string is the list of the bytes from there to the terminating NUL.
use Prim.Native.Char.{code}
use Prim.Native.String.{String}
use tiny_proxy.Base.{
  ℕ, ◌+◌, ◌-◌, ◌≡◌, ap, ◌∙◌, Bool, true, false, ◌&&◌, ◌||◌, List, [], ◌∷◌, ◌++◌, arith, ◌==◌, leb,
  if◌then◌else◌, length, take, length-append, take-length-append, ◌↔◌,
}

abbrev pub Bytes : Type 0
Bytes = List ℕ

-- The bytes of a literal: every literal here is ASCII.
abbrev pub bytes : String → Bytes
bytes String.[] = []
bytes (String.◌∷◌ c s) = code c ∷ bytes s

abbrev within : ℕ → ℕ → ℕ → Bool
within lo hi c = leb lo c && leb c hi

unfoldable pub isspace : ℕ → Bool
isspace c = c == b' ' || within 9 13 c

unfoldable pub isdigit : ℕ → Bool
isdigit c = within b'0' b'9' c

unfoldable pub isalnum : ℕ → Bool
isalnum c = within b'0' b'9' c || within b'A' b'Z' c || within b'a' b'z' c

unfoldable pub isxdigit : ℕ → Bool
isxdigit c = within b'0' b'9' c || within b'A' b'F' c || within b'a' b'f' c

unfoldable pub tolower : ℕ → ℕ
tolower c = if within b'A' b'Z' c then c + 32 else c

-- `strcmp(a, b) == 0`
unfoldable pub str_eq : Bytes → Bytes → Bool
str_eq [] [] = true
str_eq (x ∷ xs) (y ∷ ys) = x == y && str_eq xs ys
str_eq _ _ = false

-- `strcasecmp(a, b) == 0`
unfoldable pub strcase_eq : Bytes → Bytes → Bool
unfolding tolower
strcase_eq [] [] = true
strcase_eq (x ∷ xs) (y ∷ ys) = tolower x == tolower y && strcase_eq xs ys
strcase_eq _ _ = false

-- The bytes between two pointers `start` and `end` into one string, `end` not before `start`.
abbrev pub span : Bytes → Bytes → Bytes
span start end = take (length start - length end) start

pub span-append : (w rest : Bytes) → span (w ++ rest) rest ≡ w
span-append w rest =
    ap (λ n. take n (w ++ rest)) (omega (arith, length-append w rest)) ∙ take-length-append w rest

pub str_eq_iff : (a b : Bytes) → (str_eq a b ≡ true) ↔ (a ≡ b)
unfolding str_eq
str_eq_iff (x ∷ a) (y ∷ b) = ground (arith, str_eq_iff a b)
str_eq_iff _ _ = ground arith
