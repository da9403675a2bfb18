-- ===== src/RequestLine/Step.antt =====
-- One round of the loop of `parse_requestline`: the `switch` on the state, a function for each
-- case or group of like cases.
use tiny_proxy.Base.{ℕ, Bool, not, ◌&&◌, ◌||◌, ◌∷◌, leb, ltb, ◌==◌, if◌then◌else◌, length}
use tiny_proxy.CString.{Bytes, bytes, isspace, isdigit, isalnum, str_eq, span}

abbrev pub rq_datalen : ℕ
rq_datalen = 1024

-- Each field holds the C string in that array.
pub record RequestlineData : Type 0 where
  pub method : Bytes
  pub schema : Bytes
  pub host : Bytes
  pub port : Bytes
  pub loc : Bytes
  pub version : Bytes

pub data ParseState : Type 0 where
  st_start st_method st_space_after_method st_uri st_colon_after_uri : ParseState
  st_schema_slash st_schema_slash_slash st_host st_colon_before_port st_port st_loc : ParseState
  st_space_before_version st_http_h st_http_ht st_http_htt st_http_http : ParseState
  st_http_slash st_http_slash_version st_done : ParseState

-- The local variables of the function, and the record that it fills.
pub record Scan : Type 0 where
  pub state : ParseState
  pub rc_start : Bytes
  pub rc_end : Bytes
  pub rqdata : RequestlineData

pub data Step : Type 0 where
  next : Scan → Step
  invalid : RequestlineData → Step
  overflow : Step

-- `break` with nothing changed but the state.
abbrev pub go : ParseState → Scan → Step
go st s = next (record s { state = st })

-- `state = st; rc_start = p - 1`
abbrev pub mark : ParseState → Bytes → Scan → Step
mark st here s = next (record s { state = st; rc_start = here })

abbrev pub fail : Scan → Step
fail s = invalid s.rqdata

abbrev pub with_method : RequestlineData → Bytes → RequestlineData
with_method d b = record d { method = b }

abbrev pub with_schema : RequestlineData → Bytes → RequestlineData
with_schema d b = record d { schema = b }

abbrev pub with_host : RequestlineData → Bytes → RequestlineData
with_host d b = record d { host = b }

abbrev pub with_port : RequestlineData → Bytes → RequestlineData
with_port d b = record d { port = b }

abbrev pub with_loc : RequestlineData → Bytes → RequestlineData
with_loc d b = record d { loc = b }

abbrev pub with_version : RequestlineData → Bytes → RequestlineData
with_version d b = record d { version = b }

-- `strncpy(field, rc_start, rc_end - rc_start); field[rc_end - rc_start] = '\0'` and what follows.
-- The terminator has to lie in the array. A negative length is a huge `size_t`, with which `strncpy`
-- writes past the field.
unfoldable pub store : (RequestlineData → Bytes → RequestlineData) → Scan → (Scan → Step) → Step
store field s k =
    let copied = span s.rc_start s.rc_end in
    if leb (length s.rc_end) (length s.rc_start) && ltb (length copied) rq_datalen
    then k (record s { rqdata = field s.rqdata copied })
    else overflow

-- `ch > 'Z' || ch < 'A'`
abbrev pub not_upper : ℕ → Bool
not_upper c = ltb b'Z' c || ltb c b'A'

unfoldable pub is_name : ℕ → Bool
unfolding isalnum
is_name c = isalnum c || c == b'.' || c == b'-'

unfoldable pub implemented : Bytes → Bool
implemented m =
    str_eq m (bytes "GET")
    || str_eq m (bytes "POST")
    || str_eq m (bytes "CONNECT")
    || str_eq m (bytes "HEAD")

pub step_start : Scan → ℕ → Bytes → Step
step_start s c p =
    if isspace c then go st_start s else if not_upper c then fail s else mark st_method (c ∷ p) s

-- `if(strcmp(method, "GET") && ...) return -1; break;`
abbrev pub check_method : Scan → Step
check_method s = if implemented s.rqdata.method then next s else fail s

pub step_method : Scan → ℕ → Bytes → Step
step_method s c p =
    if c == b' '
    then store with_method (record s { state = st_space_after_method; rc_end = c ∷ p }) check_method
    else if not_upper c
    then fail s
    else go st_method s

pub step_space_after_method : Scan → ℕ → Bytes → Step
step_space_after_method s c p =
    if c == b' '
    then go st_space_after_method s
    else if c == b'/'
    then mark st_loc (c ∷ p) s
    else mark st_uri (c ∷ p) s

pub step_uri : Scan → ℕ → Bytes → Step
step_uri s c p =
    if c == b':'
    then next (record s { state = st_colon_after_uri; rc_end = c ∷ p })
    else if c == b'/'
    then store with_host (record s { state = st_loc; rc_end = c ∷ p }) (mark st_loc (c ∷ p))
    else if is_name c
    then go st_uri s
    else if c == b' '
    then store with_host (record s { state = st_space_before_version; rc_end = c ∷ p }) next
    else fail s

pub step_colon_after_uri : Scan → ℕ → Bytes → Step
step_colon_after_uri s c p =
    if c == b'/'
    then store with_schema (record s { state = st_schema_slash }) next
    else if isdigit c
    then store with_host (record s { state = st_port }) (mark st_port (c ∷ p))
    else fail s

pub step_schema_slash : Scan → ℕ → Bytes → Step
step_schema_slash s c p = if c == b'/' then go st_schema_slash_slash s else fail s

pub step_schema_slash_slash : Scan → ℕ → Bytes → Step
unfolding isalnum
step_schema_slash_slash s c p = if isalnum c then mark st_host (c ∷ p) s else fail s

pub step_colon_before_port : Scan → ℕ → Bytes → Step
step_colon_before_port s c p = if isdigit c then mark st_port (c ∷ p) s else fail s

-- The branch for ' ' has no `break`: it goes on with the code of st_colon_before_port, where
-- ' ' is no digit.
pub step_host : Scan → ℕ → Bytes → Step
unfolding step_colon_before_port
step_host s c p =
    if is_name c
    then go st_host s
    else if c == b'/'
    then store with_host (record s { state = st_loc; rc_end = c ∷ p }) (mark st_loc (c ∷ p))
    else if c == b':'
    then store with_host (record s { state = st_colon_before_port; rc_end = c ∷ p }) next
    else if c == b' '
    then store with_host (record s { state = st_space_before_version; rc_end = c ∷ p })
        (λ q. step_colon_before_port q c p)
    else fail s

pub step_port : Scan → ℕ → Bytes → Step
step_port s c p =
    if c == b'/'
    then store with_port (record s { state = st_loc; rc_end = c ∷ p }) (mark st_loc (c ∷ p))
    else if c == b' '
    then store with_port (record s { state = st_space_before_version; rc_end = c ∷ p }) next
    else if isdigit c
    then go st_port s
    else fail s

pub step_loc : Scan → ℕ → Bytes → Step
step_loc s c p =
    if c == b' '
    then store with_loc (record s { state = st_space_before_version; rc_end = c ∷ p }) next
    else if not (isspace c)
    then go st_loc s
    else fail s

pub step_space_before_version : Scan → ℕ → Bytes → Step
step_space_before_version s c p = if c == b'H' then mark st_http_h (c ∷ p) s else fail s

-- The states that wait for one byte of "TTP/".
abbrev pub expect : ℕ → ParseState → Scan → ℕ → Step
expect b st s c = if c == b then go st s else fail s

pub step_http : ParseState → Scan → ℕ → Step
step_http st_http_h s c = expect b'T' st_http_ht s c
step_http st_http_ht s c = expect b'T' st_http_htt s c
step_http st_http_htt s c = expect b'P' st_http_http s c
step_http _ s c = expect b'/' st_http_slash s c

pub step_http_slash : Scan → ℕ → Bytes → Step
step_http_slash s c p = if isdigit c then go st_http_slash_version s else fail s

pub step_http_slash_version : Scan → ℕ → Bytes → Step
step_http_slash_version s c p =
    if isdigit c || c == b'.'
    then go st_http_slash_version s
    else if isspace c
    then store with_version (record s { state = st_done; rc_end = c ∷ p }) next
    else fail s

unfoldable pub step_in : ParseState → Scan → ℕ → Bytes → Step
unfolding step_start step_method step_space_after_method step_uri step_colon_after_uri
    step_schema_slash step_schema_slash_slash step_colon_before_port step_host step_port step_loc
    step_space_before_version step_http step_http_slash step_http_slash_version
step_in st_start s c p = step_start s c p
step_in st_method s c p = step_method s c p
step_in st_space_after_method s c p = step_space_after_method s c p
step_in st_uri s c p = step_uri s c p
step_in st_colon_after_uri s c p = step_colon_after_uri s c p
step_in st_schema_slash s c p = step_schema_slash s c p
step_in st_schema_slash_slash s c p = step_schema_slash_slash s c p
step_in st_host s c p = step_host s c p
step_in st_colon_before_port s c p = step_colon_before_port s c p
step_in st_port s c p = step_port s c p
step_in st_loc s c p = step_loc s c p
step_in st_space_before_version s c p = step_space_before_version s c p
step_in st_http_h s c p = step_http st_http_h s c
step_in st_http_ht s c p = step_http st_http_ht s c
step_in st_http_htt s c p = step_http st_http_htt s c
step_in st_http_http s c p = step_http st_http_http s c
step_in st_http_slash s c p = step_http_slash s c p
step_in st_http_slash_version s c p = step_http_slash_version s c p
step_in st_done s c p = next s
