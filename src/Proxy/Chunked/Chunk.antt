-- ===== src/Proxy/Chunked/Chunk.antt =====
-- A chunked body as it is written, and its size line read back.
use tiny_proxy.Base.{
  ℕ, ◌+◌, ◌<◌, ◌≤◌, ◌≡◌, refl, ◌∙◌, drop, lt→ltb, true, false, List, some, [], ◌∷◌, ◌++◌, length,
  ◌==◌, All, arith, append_assoc,
}
use tiny_proxy.Base.Int.{pos}
use tiny_proxy.CString.{Bytes, bytes, str_eq, isxdigit}
use tiny_proxy.Proxy.Buffer.{overlay, terminated}
use tiny_proxy.Proxy.Rio.{Call, wrote, maxline}
use tiny_proxy.Proxy.Chunked.Size.{
  getchunksize, int_limit, hex_value, digit_value, IsStop, getchunksize-hex_value,
}

-- A chunk: the digits of its size, what else stands on that line, and its bytes.
pub record Chunk : Type 0 where
  pub digits : Bytes
  pub extension : Bytes
  pub content : Bytes

abbrev pub crlf : Bytes
crlf = bytes "\r\n"

abbrev pub size_line : Chunk → Bytes
size_line c = c.digits ++ c.extension

abbrev pub payload : Chunk → Bytes
payload c = c.content ++ crlf

-- The chunks as they are sent, with what follows them.
abbrev pub wire : List Chunk → Bytes → Bytes
wire [] rest = rest
wire (c ∷ cs) rest = size_line c ++ (b'\r' ∷ b'\n' ∷ (payload c ++ wire cs rest))

-- A line of text that fits in the array: no NUL, no line feed.
abbrev pub IsText : Bytes → Type 0
IsText l = All (λ c. ((c == 0) ≡ false) × ((c == b'\n') ≡ false)) l

pub record IsChunk (c : Chunk) : Type 0 where
  pub hex : All (λ x. isxdigit x ≡ true) c.digits
  pub stop : IsStop c.extension
  pub text : IsText (size_line c)
  pub short : length (size_line c) + 3 ≤ maxline
  pub size : hex_value c.digits ≡ length c.content
  pub nonempty : 0 < length c.content
  pub fits : length c.content + 2 ≤ maxline

-- What the loop writes to `fd` for the chunks.
abbrev pub payloads : ℕ → List Chunk → List Call
payloads fd [] = []
payloads fd (c ∷ cs) = wrote fd (payload c) ∷ payloads fd cs

abbrev pub sizes : List Chunk → ℕ
sizes [] = 0
sizes (c ∷ cs) = length c.content + sizes cs

digits_ne_last :
    (ds e : Bytes)
    → All (λ x. isxdigit x ≡ true) ds
    → 0 < hex_value ds
    → str_eq ((ds ++ e) ++ crlf) (bytes "0\r\n") ≡ false
unfolding str_eq hex_value digit_value isxdigit
digits_ne_last [] e h p = absurd (omega arith)
digits_ne_last (c ∷ []) e h p = ground arith
digits_ne_last (c ∷ d ∷ ds) e h p = ground arith

-- The line of a chunk with content is not the line of the last chunk.
pub line_ne_last : (c : Chunk) → IsChunk c → str_eq (size_line c ++ crlf) (bytes "0\r\n") ≡ false
line_ne_last c is = digits_ne_last c.digits c.extension is.hex (omega (arith, is.size, is.nonempty))

pub IsText-crlf : (l : Bytes) → IsText l → All (λ c. (c == 0) ≡ false) (l ++ crlf)
IsText-crlf [] h = (refl, (refl, tt))
IsText-crlf (c ∷ l) h = (h.0.0, IsText-crlf l h.1)

pub IsText-cr : (l : Bytes) → IsText l → All (λ c. (c == b'\n') ≡ false) (l ++ (b'\r' ∷ []))
IsText-cr [] h = (refl, tt)
IsText-cr (c ∷ l) h = (h.0.1, IsText-cr l h.1)

IsStop-append : (e rest : Bytes) → IsStop e → IsStop (e ++ (b'\r' ∷ rest))
unfolding isxdigit
IsStop-append [] rest h = refl
IsStop-append (c ∷ e) rest h = h

-- The size that is read from the array that holds the size line.
pub getchunksize_line :
    (c : Chunk) (buf : Bytes)
    → IsChunk c
    → getchunksize (overlay (terminated (size_line c ++ crlf)) buf) ≡ some (pos (length c.content))
getchunksize_line c buf is =
    let behind : Bytes = 0 ∷ drop (length (terminated (size_line c ++ crlf))) buf in
    rw
      (
        append_assoc (size_line c ++ crlf) (0 ∷ [])
            (drop (length (terminated (size_line c ++ crlf))) buf),
        append_assoc (size_line c) crlf behind,
        append_assoc c.digits c.extension (crlf ++ behind),
      )
      (getchunksize-hex_value c.digits (c.extension ++ (crlf ++ behind)) is.hex
          (IsStop-append c.extension (b'\n' ∷ behind) is.stop)
        ∙ rw (lt→ltb (hex_value c.digits) int_limit (omega (arith, is.size, is.fits)), is.size))

-- What follows the chunks: the line of the last chunk, the one line `t` of the trailer if the header
-- announced a trailer, and the empty line.
abbrev pub wire_trailer : Bytes → Bytes → Bytes → Bytes
wire_trailer [] t rest = rest
wire_trailer (_ ∷ _) t rest = t ++ (b'\r' ∷ b'\n' ∷ rest)

abbrev pub wire_end : Bytes → Bytes → Bytes → Bytes
wire_end trailer t rest =
    bytes "0" ++ (b'\r' ∷ b'\n' ∷ wire_trailer trailer t (b'\r' ∷ b'\n' ∷ rest))

abbrev pub sends_trailer : ℕ → Bytes → Bytes → List Call
sends_trailer fd [] t = wrote fd crlf ∷ []
sends_trailer fd (_ ∷ _) t = wrote fd (t ++ crlf) ∷ wrote fd crlf ∷ []

abbrev pub sends_end : ℕ → Bytes → Bytes → List Call
sends_end fd trailer t = wrote fd (bytes "0\r\n") ∷ sends_trailer fd trailer t
