-- ===== src/Proxy/Header.antt =====
-- The standard functions that take a header line apart, and the record of what the headers said
-- (proxy.h).
pub mod Scan
pub mod Decimal
pub mod Fields
use tiny_proxy.Base.{
  ℕ, zero, suc, ◌+◌, ◌-◌, ◌*◌, ◌^◌, Bool, true, false, not, ◌&&◌, ◌||◌, Option, none, some, [], ◌∷◌,
  ◌++◌, if◌then◌else◌, ltb, leb, ◌==◌, length,
}
use tiny_proxy.Base.Int.{ℤ, pos, negsuc}
use tiny_proxy.CString.{Bytes, bytes, isspace, isdigit}

-- The C strings in `headername` and `headerdata`.
pub record Header : Type 0 where
  pub headername : Bytes
  pub headerdata : Bytes

-- The longest prefix that passes the test, and what follows it.
unfoldable pub split_while : (ℕ → Bool) → Bytes → Bytes × Bytes
split_while test [] = ([], [])
split_while test (c ∷ s) =
    if test c then (let (a, b) = split_while test s in (c ∷ a, b)) else ([], c ∷ s)

abbrev pub word_or : Bytes → Bytes → Bytes
word_or old [] = old
word_or old (c ∷ w) = c ∷ w

-- `%s`: white space is skipped, and a word of at least one byte is stored.
abbrev pub scan_word : Bytes → Bytes → Bytes
scan_word old s = word_or old (split_while (λ c. not (isspace c)) (split_while isspace s).1).0

-- The rest of the format behind the name: ':' and white space, and a word.
abbrev pub scan_data : Bytes → Bytes → Bytes
scan_data old [] = old
scan_data old (c ∷ s) = if c == b':' then scan_word old s else old

abbrev pub scan_name : Header → Bytes × Bytes → Header
scan_name h ([], rest) = h
scan_name h (c ∷ w, rest) = record { headername = c ∷ w; headerdata = scan_data h.headerdata rest }

-- `sscanf(buf, "%[^:]: %s", headername, headerdata)`: an array that no conversion reaches keeps what
-- it held.
unfoldable pub sscanf_header : Bytes → Header → Header
unfolding split_while isspace
sscanf_header s h = scan_name h (split_while (λ c. not (c == b':')) s)

abbrev pub decimal : ℕ → Bytes → ℕ
decimal n [] = n
decimal n (c ∷ s) = decimal (n * 10 + (c - b'0')) s

abbrev pub signed : Bool → ℕ → ℤ
signed false n = pos n
signed true zero = pos 0
signed true (suc n) = negsuc n

-- `none` where the number is no `int`: then `atoi` is undefined.
abbrev pub to_int : Bool → Bytes → Option ℤ
to_int minus ds =
    let n = decimal 0 ds in
    if ltb n (2 ^ 31) || (minus && n == 2 ^ 31) then some (signed minus n) else none

abbrev pub to_int_signed : Bytes → Option ℤ
to_int_signed [] = some (pos 0)
to_int_signed (c ∷ s) =
    if c == b'-'
    then to_int true (split_while isdigit s).0
    else if c == b'+'
    then to_int false (split_while isdigit s).0
    else to_int false (split_while isdigit (c ∷ s)).0

unfoldable pub atoi : Bytes → Option ℤ
unfolding split_while isspace isdigit
atoi s = to_int_signed (split_while isspace s).1

abbrev pub typestrlen : ℕ
typestrlen = 96

-- The flags are `int`s that are only set to 1 and tested. The record is not initialised.
pub record ConnectionStatus : Type 0 where
  pub server_setclose : Bool
  pub client_setclose : Bool
  pub client_transfer_encoding : Bytes
  pub server_transfer_encoding : Bytes
  pub client_trailer : Bytes
  pub server_trailer : Bytes
  pub client_shuttingdown : Bool
  pub server_shuttingdown : Bool
  pub client_content_length : ℤ
  pub server_content_length : ℤ
  pub content_type : Bytes
