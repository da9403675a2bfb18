-- ===== src/RequestLine/Grammar.antt =====
-- What a request line is: the parts of one, how they are written, the fields that they stand for,
-- and the parts that `parse_requestline` takes. The comment in the source reads
-- [method][space](schema://)(host)(:port)[loc][space][version].
use tiny_proxy.Base.{
  ◌<◌, ◌≡◌, ◌≢◌, ◌⊎◌, true, false, ◌||◌, Option, none, some, [], ◌∷◌, ◌++◌, length, All, ◌==◌,
}
use tiny_proxy.CString.{Bytes, bytes, isspace, isdigit, isalnum}
use tiny_proxy.RequestLine.Step.{
  RequestlineData, rq_datalen, is_name, implemented, with_method, with_schema, with_host, with_port,
  with_loc, with_version,
}

-- `origin` is a path on this host, `remote` a schema, a host, a port and a path, with no colon in
-- the port and no "://" in the schema.
pub data Target : Type 0 where
  origin : (loc : Bytes) → Target
  remote : (schema : Option Bytes) (host : Bytes) (port loc : Option Bytes) → Target

-- A line with the blanks that may stand in it; `version` is what follows "HTTP/".
pub record RequestLine : Type 0 where
  pub leading : Bytes
  pub method : Bytes
  pub blanks : Bytes
  pub target : Target
  pub version : Bytes
  pub ending : Bytes

abbrev pub write_schema : Option Bytes → Bytes → Bytes
write_schema none rest = rest
write_schema (some s) rest = s ++ (b':' ∷ b'/' ∷ b'/' ∷ rest)

abbrev pub write_port : Option Bytes → Bytes → Bytes
write_port none rest = rest
write_port (some p) rest = b':' ∷ (p ++ rest)

abbrev pub write_loc : Option Bytes → Bytes → Bytes
write_loc none rest = rest
write_loc (some l) rest = l ++ rest

abbrev pub write_target : Target → Bytes → Bytes
write_target (origin l) rest = l ++ rest
write_target (remote s h p l) rest = write_schema s (h ++ write_port p (write_loc l rest))

abbrev pub write : RequestLine → Bytes
write r =
    r.leading
    ++ (r.method
        ++ (b' '
            ∷ (r.blanks
                ++ write_target r.target (b' ' ∷ (bytes "HTTP/" ++ (r.version ++ r.ending))))))

-- The fields that a part sets. One that the line lacks keeps what it held.
abbrev pub set_option :
    (RequestlineData → Bytes → RequestlineData) → Option Bytes → RequestlineData → RequestlineData
set_option field none d = d
set_option field (some b) d = field d b

abbrev pub set_target : Target → RequestlineData → RequestlineData
set_target (origin l) d = with_loc d l
set_target (remote s h p l) d =
    set_option with_loc l (set_option with_port p (with_host (set_option with_schema s d) h))

abbrev pub fields : RequestLine → RequestlineData → RequestlineData
fields r d =
    with_version (set_target r.target (with_method d r.method)) (bytes "HTTP/" ++ r.version)

abbrev pub Fits : Bytes → Type 0
Fits b = length b < rq_datalen

-- The first byte of a host or schema with no schema before it may be any but these two.
abbrev pub IsUri : Bytes → Type 0
IsUri [] = ⊥
IsUri (c ∷ w) = ((c == b' ') ≡ false) × ((c == b'/') ≡ false) × All (λ x. is_name x ≡ true) w

abbrev pub IsHost : Bytes → Type 0
IsHost [] = ⊥
IsHost (c ∷ w) = (isalnum c ≡ true) × All (λ x. is_name x ≡ true) w

abbrev pub IsPort : Bytes → Type 0
IsPort [] = ⊥
IsPort (c ∷ w) = (isdigit c ≡ true) × All (λ x. isdigit x ≡ true) w

abbrev pub IsLoc : Bytes → Type 0
IsLoc [] = ⊥
IsLoc (c ∷ w) = (c ≡ b'/') × All (λ x. isspace x ≡ false) w

abbrev pub IsVersion : Bytes → Type 0
IsVersion [] = ⊥
IsVersion (c ∷ w) = (isdigit c ≡ true) × All (λ x. (isdigit x || x == b'.') ≡ true) w

abbrev pub OptionAll : (Bytes → Type 0) → Option Bytes → Type 0
OptionAll P none = Unit
OptionAll P (some b) = P b

-- A host behind a schema is followed by a port or a path: the code takes no other.
abbrev pub IsTarget : Target → Type 0
IsTarget (origin l) = IsLoc l × Fits l
IsTarget (remote none h p l) =
    (IsUri h × Fits h) × OptionAll (λ b. IsPort b × Fits b) p × OptionAll (λ b. IsLoc b × Fits b) l
IsTarget (remote (some s) h p l) =
    (IsUri s × Fits s)
    × (IsHost h × Fits h)
    × OptionAll (λ b. IsPort b × Fits b) p
    × OptionAll (λ b. IsLoc b × Fits b) l
    × ((p ≢ none) ⊎ (l ≢ none))

-- The line ends, or goes on with a white-space byte: then nothing more is read.
abbrev pub IsEnding : Bytes → Type 0
IsEnding [] = Unit
IsEnding (c ∷ _) = isspace c ≡ true

pub record IsRequestLine (r : RequestLine) : Type 0 where
  pub leading : All (λ c. isspace c ≡ true) r.leading
  pub method : implemented r.method ≡ true
  pub blanks : All (λ c. c ≡ b' ') r.blanks
  pub target : IsTarget r.target
  pub version : IsVersion r.version
  pub version_fits : Fits (bytes "HTTP/" ++ r.version)
  pub ending : IsEnding r.ending
