-- ===== src/Proxy/Header/Fields.antt =====
-- The header fields of a request or a reply: which the proxy keeps to itself, and what the others
-- announce of the body.
use tiny_proxy.Base.{
  ℕ, ◌^◌, ◌<◌, ◌≡◌, ◌≢◌, refl, sym, ap, ◌∙◌, List, Bool, true, false, ◌&&◌, ◌||◌, some, [], ◌∷◌,
  ◌++◌, if◌then◌else◌, All, arith, append_assoc, Bool-cases, inl, inr,
}
use mathlib.Core.Bool.{or_assoc}
use tiny_proxy.Base.Int.{ℤ, pos}
use tiny_proxy.CString.{Bytes, bytes, str_eq, strcase_eq, isdigit}
use tiny_proxy.Proxy.Rio.{Call, wrote}
use tiny_proxy.Proxy.Header.{ConnectionStatus, decimal, atoi}
use tiny_proxy.Proxy.Header.Scan.{Field, IsField, field_line}
use tiny_proxy.Proxy.Header.Decimal.{atoi-decimal}
use tiny_proxy.Proxy.Chunked.Chunk.{crlf}
use tiny_proxy.Proxy.Request.{fits_type}

-- The two fields that the proxy keeps to itself. The case of their names counts.
abbrev pub is_hop : Field → Bool
is_hop f = str_eq f.name (bytes "Connection") || str_eq f.name (bytes "Proxy-Connection")

abbrev pub is_host : Field → Bool
is_host f = str_eq f.name (bytes "Host")

abbrev pub is_close : Field → Bool
is_close f = is_hop f && strcase_eq f.token (bytes "close")

abbrev pub any_field : (Field → Bool) → List Field → Bool
any_field test [] = false
any_field test (f ∷ fs) = test f || any_field test fs

-- The lines that are forwarded, in their order.
abbrev pub forwarded : ℕ → List Field → List Call
forwarded fd [] = []
forwarded fd (f ∷ fs) =
    if is_hop f then forwarded fd fs else wrote fd (field_line f ++ crlf) ∷ forwarded fd fs

abbrev pub wire_fields : List Field → Bytes → Bytes
wire_fields [] rest = b'\r' ∷ b'\n' ∷ rest
wire_fields (f ∷ fs) rest = field_line f ++ (b'\r' ∷ b'\n' ∷ wire_fields fs rest)

name_ne_empty : (n rest : Bytes) → n ≢ [] → str_eq (n ++ (b':' ∷ rest)) (bytes "\r\n") ≡ false
unfolding str_eq
name_ne_empty [] rest ne = absurd (ne refl)
name_ne_empty (c ∷ []) rest ne = ground arith
name_ne_empty (c ∷ d ∷ []) rest ne = ground arith
name_ne_empty (c ∷ d ∷ x ∷ n) rest ne = ground arith

-- The line of a field is not the empty line.
pub field_ne_empty : (f : Field) → IsField f → str_eq (field_line f ++ crlf) (bytes "\r\n") ≡ false
field_ne_empty f is =
    let value : Bytes = b' ' ∷ (f.token ++ f.tail) in
    ap (λ x. str_eq x (bytes "\r\n")) (append_assoc f.name (b':' ∷ value) crlf)
    ∙ name_ne_empty f.name (value ++ crlf) is.name_ne_nil

pub forwarded_cons :
    (fd : ℕ) (f : Field) (fs : List Field)
    → forwarded fd (f ∷ []) ++ forwarded fd fs ≡ forwarded fd (f ∷ fs)
forwarded_cons fd f fs = elim (Bool-cases (is_hop f)) [
  | inl hop ↦ rw hop refl
  | inr kept ↦ rw kept refl
]

-- What a header says of the body behind it.
pub record Announced : Type 0 where
  pub encoding : Bytes
  pub trailer : Bytes
  pub has_length : Bool
  pub content_length : ℤ

abbrev pub announce : Field → Announced → Announced
announce f a = if is_hop f then a else record {
  encoding = if str_eq f.name (bytes "Transfer-Encoding") then f.token else a.encoding;
  trailer = if strcase_eq f.name (bytes "Trailer") then f.token else a.trailer;
  has_length = a.has_length || str_eq f.name (bytes "Content-length");
  content_length =
      if str_eq f.name (bytes "Content-length") then pos (decimal 0 f.token) else a.content_length;
}

-- All fields in their order: the last one of a name decides.
abbrev pub announce_fields : List Field → Announced → Announced
announce_fields [] a = a
announce_fields (f ∷ fs) a = announce_fields fs (announce f a)

-- The status after a header of the client or of the server.
abbrev pub client_told : Announced → Bool → ConnectionStatus → ConnectionStatus
client_told a closes c = record c {
  client_transfer_encoding = a.encoding;
  client_trailer = a.trailer;
  client_content_length = a.content_length;
  client_setclose = c.client_setclose || closes;
}

abbrev pub server_told : Announced → Bool → ConnectionStatus → ConnectionStatus
server_told a closes c = record c {
  server_transfer_encoding = a.encoding;
  server_trailer = a.trailer;
  server_content_length = a.content_length;
  server_setclose = c.server_setclose || closes;
}

-- What is held before the header.
abbrev pub client_held : Bool → ConnectionStatus → Announced
client_held set c = record {
  encoding = c.client_transfer_encoding;
  trailer = c.client_trailer;
  has_length = set;
  content_length = c.client_content_length;
}

abbrev pub server_held : Bool → ConnectionStatus → Announced
server_held set c = record {
  encoding = c.server_transfer_encoding;
  trailer = c.server_trailer;
  has_length = set;
  content_length = c.server_content_length;
}

pub or_false : (b : Bool) → (b || false) ≡ b
or_false b = ground arith

pub client_told_nothing :
    (set : Bool) (c : ConnectionStatus) → client_told (client_held set c) false c ≡ c
client_told_nothing set c = ap (λ b. record c { client_setclose = b }) (or_false c.client_setclose)

pub server_told_nothing :
    (set : Bool) (c : ConnectionStatus) → server_told (server_held set c) false c ≡ c
server_told_nothing set c = ap (λ b. record c { server_setclose = b }) (or_false c.server_setclose)

pub client_told_twice :
    (a a' : Announced) (b b' : Bool) (c : ConnectionStatus)
    → client_told a' b' (client_told a b c) ≡ client_told a' (b || b') c
client_told_twice a a' b b' c =
    ap (λ x. client_told a' x (record c { client_setclose = false }))
      (or_assoc c.client_setclose b b')

pub server_told_twice :
    (a a' : Announced) (b b' : Bool) (c : ConnectionStatus)
    → server_told a' b' (server_told a b c) ≡ server_told a' (b || b') c
server_told_twice a a' b b' c =
    ap (λ x. server_told a' x (record c { server_setclose = false }))
      (or_assoc c.server_setclose b b')

-- A length is a number that fits in an `int`, a trailer or an encoding fits in its array.
pub record IsHeaderField (f : Field) : Type 0 where
  pub field : IsField f
  pub trailer : strcase_eq f.name (bytes "Trailer") ≡ true → fits_type f.token ≡ true
  pub digits :
      str_eq f.name (bytes "Content-length") ≡ true
      → All (λ c. isdigit c ≡ true) f.token × (decimal 0 f.token < 2 ^ 31)
  pub encoding : str_eq f.name (bytes "Transfer-Encoding") ≡ true → fits_type f.token ≡ true

pub atoi-token :
    (f : Field)
    → IsHeaderField f
    → str_eq f.name (bytes "Content-length") ≡ true
    → atoi f.token ≡ some (pos (decimal 0 f.token))
atoi-token f is e = atoi-decimal f.token is.field.token_ne_nil (is.digits e).0 (is.digits e).1

-- None of the fields that say how a body is sent.
pub record IsPlain (f : Field) : Type 0 where
  pub field : IsField f
  pub no_trailer : strcase_eq f.name (bytes "Trailer") ≡ false
  pub no_length : str_eq f.name (bytes "Content-length") ≡ false
  pub no_encoding : str_eq f.name (bytes "Transfer-Encoding") ≡ false

true_ne_false : true ≢ false
true_ne_false e = cc

true_if_false : {b c : Bool} → b ≡ false → b ≡ true → c ≡ true
true_if_false e e' = cc

pub IsPlain-IsHeaderField : {f : Field} → IsPlain f → IsHeaderField f
IsPlain-IsHeaderField is = record {
  field = is.field;
  trailer = true_if_false is.no_trailer;
  digits = λ e. absurd (true_ne_false (sym e ∙ is.no_length));
  encoding = true_if_false is.no_encoding;
}

pub All-IsHeaderField : (fs : List Field) → All IsPlain fs → All IsHeaderField fs
All-IsHeaderField [] h = tt
All-IsHeaderField (f ∷ fs) h = (IsPlain-IsHeaderField h.0, All-IsHeaderField fs h.1)

announce_plain : (f : Field) (a : Announced) → IsPlain f → announce f a ≡ a
announce_plain f a is = ground (arith, is.no_trailer, is.no_length, is.no_encoding)

-- Plain fields announce nothing.
pub announce_fields_plain :
    (fs : List Field) (a : Announced) → All IsPlain fs → announce_fields fs a ≡ a
announce_fields_plain [] a h = refl
announce_fields_plain (f ∷ fs) a h =
    ap (announce_fields fs) (announce_plain f a h.0) ∙ announce_fields_plain fs a h.1
