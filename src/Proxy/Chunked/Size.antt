-- ===== src/Proxy/Chunked/Size.antt =====
-- The number at the start of a chunk's size line.
use tiny_proxy.Base.{
  ℕ, zero, ltb→lt, suc, ◌+◌, ◌-◌, ◌*◌, ◌^◌, ◌<◌, ◌≤◌, ◌≡◌, ap, ◌∙◌, true, false, not, ◌&&◌, Option,
  none, some, [], ◌∷◌, ◌++◌, if◌then◌else◌, length, All, ltb, leb, Bool-cases, inl, inr, arith,
}
use native.Mathlib.Nat.{pow-suc}
use tiny_proxy.Base.Int.{ℤ, pos, negsuc}
use tiny_proxy.CString.{Bytes, isxdigit}

unfoldable pub hex2num : ℕ → ℤ
hex2num ch =
    if leb b'0' ch && leb ch b'9'
    then pos (ch - b'0')
    else if leb b'a' ch && leb ch b'f'
    then pos (10 + ch - b'a')
    else if leb b'A' ch && leb ch b'F'
    then pos (10 + ch - b'A')
    else negsuc 0

-- The largest `int` and one.
abbrev pub int_limit : ℕ
int_limit = 2 ^ 31

-- `none` is the overflow of an `int`, which is undefined behaviour. The loop stops at the end of the
-- array.
unfoldable pub getchunksize_loop : ℕ → Bytes → Option ℤ
unfolding hex2num isxdigit
getchunksize_loop num [] = some (pos num)
getchunksize_loop num (ch ∷ buf) =
    if not (isxdigit ch) then some (pos num) else elim (ltb (num * 16) int_limit) [
      | false ↦ none
      | true ↦ elim (hex2num ch) [
        | negsuc _ ↦ some (negsuc 0)
        | pos digit ↦ elim (ltb (num * 16 + digit) int_limit) [
          | false ↦ none
          | true ↦ getchunksize_loop (num * 16 + digit) buf
        ]
      ]
    ]

unfoldable pub getchunksize : Bytes → Option ℤ
unfolding getchunksize_loop
getchunksize = getchunksize_loop 0

-- The value of one hexadecimal digit, and of a numeral by its places.
unfoldable pub digit_value : ℕ → ℕ
digit_value c = if leb b'a' c then c - b'W' else if leb b'A' c then c - b'7' else c - b'0'

unfoldable pub hex_value : Bytes → ℕ
hex_value [] = 0
hex_value (c ∷ cs) = digit_value c * 16 ^ length cs + hex_value cs

pub hex2num-digit : (c : ℕ) → isxdigit c ≡ true → hex2num c ≡ pos (digit_value c)
unfolding hex2num isxdigit digit_value
hex2num-digit c h = ground arith

digit_value-lt : (c : ℕ) → isxdigit c ≡ true → digit_value c < 16
unfolding isxdigit digit_value
digit_value-lt c h = ground arith

-- The byte behind the digits is no digit, or the array ends.
abbrev pub IsStop : Bytes → Type 0
IsStop [] = Unit
IsStop (c ∷ _) = isxdigit c ≡ false

abbrev pub checked : ℕ → Option ℤ
checked n = if ltb n int_limit then some (pos n) else none

getchunksize_loop-digit :
    (num c : ℕ) (buf : Bytes)
    → isxdigit c ≡ true
    → getchunksize_loop num (c ∷ buf) ≡ (
        if ltb (num * 16) int_limit then getchunksize_loop (num * 16 + digit_value c) buf else none)
unfolding getchunksize_loop
getchunksize_loop-digit num c buf h = ground (arith, hex2num-digit c h, digit_value-lt c h)

checked-some : (n m : ℕ) → n < int_limit → n ≡ m → some (pos n) ≡ checked m
checked-some n m h e = ground arith

checked-none : (m : ℕ) → int_limit ≤ m → none ≡ checked m
checked-none m h = ground arith

one-le-pow : (k : ℕ) → 1 ≤ 16 ^ k
one-le-pow zero = omega arith
one-le-pow (suc k) = omega (arith, one-le-pow k, pow-suc 16 k)

regroup : (num d p v q : ℕ) → q ≡ p * 16 → (num * 16 + d) * p + v ≡ num * q + (d * p + v)
regroup num d p v q e = rw e (omega arith)

too_large :
    (num d p v q : ℕ)
    → 1 ≤ p
    → int_limit ≤ num * 16
    → q ≡ p * 16
    → int_limit ≤ num * q + (d * p + v)
too_large num d p v q one large e = grind arith

getchunksize_loop-value :
    (num : ℕ) (ds rest : Bytes)
    → All (λ c. isxdigit c ≡ true) ds
    → IsStop rest
    → num < int_limit
    → getchunksize_loop num (ds ++ rest) ≡ checked (num * 16 ^ length ds + hex_value ds)
unfolding getchunksize_loop hex_value
getchunksize_loop-value num [] [] h s lt = checked-some num _ lt (omega arith)
getchunksize_loop-value num [] (c ∷ rest) h s lt = rw s (checked-some num _ lt (omega arith))
getchunksize_loop-value num (c ∷ ds) rest h s lt = elim (Bool-cases (ltb (num * 16) int_limit)) [
  | inl small ↦
      getchunksize_loop-digit num c (ds ++ rest) h.0
      ∙ rw small (
          getchunksize_loop-value (num * 16 + digit_value c) ds rest h.1 s
            (omega (arith, digit_value-lt c h.0, ltb→lt (num * 16) int_limit small))
          ∙ ap checked (
              regroup num (digit_value c) (16 ^ length ds) (hex_value ds) (16 ^ suc (length ds))
                (pow-suc 16 (length ds))))
  | inr large ↦
      getchunksize_loop-digit num c (ds ++ rest) h.0
      ∙ rw large (
          checked-none _ (
            too_large num (digit_value c) (16 ^ length ds) (hex_value ds) _ (one-le-pow (length ds))
              (ground arith) (pow-suc 16 (length ds))))
]

-- `getchunksize` reads the hexadecimal digits at the start of its buffer as a number, where
-- no further such digit stands behind them. Where that number is 2 ^ 31 or more the computation overflows.
pub getchunksize-hex_value :
    (ds rest : Bytes)
    → All (λ c. isxdigit c ≡ true) ds
    → IsStop rest
    → getchunksize (ds ++ rest)
      ≡ (if ltb (hex_value ds) int_limit then some (pos (hex_value ds)) else none)
unfolding getchunksize
getchunksize-hex_value ds rest h s =
    getchunksize_loop-value 0 ds rest h s (omega arith) ∙ ap checked (omega arith)
