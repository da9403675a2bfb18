-- ===== src/Tests/Proxy.antt =====
-- Tests and examples of the handlers.
use tiny_proxy.Base.{ℕ, Bool, not, All, ◌&&◌, ◌≡◌, refl, true, false, some, [], ◌∷◌, arith, ◌==◌}
use tiny_proxy.Base.Int.{negsuc, pos}
use tiny_proxy.CString.{Bytes, bytes, isspace, isxdigit, tolower, str_eq, strcase_eq}
use tiny_proxy.Proxy.Buffer.{cstr, terminated}
use tiny_proxy.Proxy.Rio.{wrote, Io, done, out_of_fuel}
use tiny_proxy.Proxy.Header.{ConnectionStatus, sscanf_header}
use tiny_proxy.Proxy.Header.Scan.{
  Field, IsField, no_colon, no_space, field_line, sscanf_header-field,
}
use tiny_proxy.Proxy.Chunked.Size.{getchunksize, getchunksize-hex_value, hex_value, digit_value}
use tiny_proxy.Proxy.Chunked.Loop.{forward_chunked}
use tiny_proxy.Proxy.Chunked.Chunk.{Chunk, IsChunk, crlf, IsText, size_line}
use tiny_proxy.Proxy.Chunked.Body.{forward_chunked-sends}
use tiny_proxy.Proxy.Chunked.Closed.{forward_chunked-never_ends}
use tiny_proxy.Proxy.Header.Fields.{IsPlain}
use tiny_proxy.Proxy.Header.{split_while}
use tiny_proxy.Proxy.Reply.{note_version, forward_reply}
use tiny_proxy.Proxy.Reply.Closed.{forward_reply-closed}
use tiny_proxy.Tests.Scripted.{scripted, peer}

abbrev pub all : (ℕ → Bool) → Bytes → Bool
all test [] = true
all test (c ∷ l) = test c && all test l

abbrev pub is_text_byte : ℕ → Bool
is_text_byte c = not (c == 0) && not (c == b'\n')

pub All-of : (test : ℕ → Bool) (l : Bytes) → all test l ≡ true → All (λ c. test c ≡ true) l
All-of test [] h = tt
All-of test (c ∷ l) h = (ground arith, All-of test l (ground arith))

pub IsText-of : (l : Bytes) → all is_text_byte l ≡ true → IsText l
IsText-of [] h = tt
IsText-of (c ∷ l) h = ((ground arith, ground arith), IsText-of l (ground arith))

abbrev pub arriving : Bytes → Io scripted
arriving bs = record { world = record { streams = λ rp. bs; fresh = 9 }; log = [] }

abbrev pub three : Chunk
three = record { digits = bytes "3"; extension = bytes ";x"; content = bytes "abc" }

pub three-IsChunk : IsChunk three
unfolding isxdigit hex_value digit_value
three-IsChunk = record {
  hex = (refl, tt);
  stop = refl;
  text = IsText-of (size_line three) refl;
  short = omega arith;
  size = refl;
  nonempty = omega arith;
  fits = omega arith;
}

abbrev body : Bytes
body = bytes "3;x\r\nabc\r\n0\r\n\r\nGET"

forward_chunked-sends_example :
    (n : ℕ) × (io : Io scripted) × (forward_chunked scripted 2 4 0 [] [] 7 (arriving body)
      ≡ done n io)
    × (io.log ≡ wrote 4 (bytes "abc\r\n") ∷ wrote 4 (bytes "0\r\n") ∷ wrote 4 crlf ∷ [])
    × (io.world.streams 0 ≡ bytes "GET")
unfolding peer
forward_chunked-sends_example =
    forward_chunked-sends scripted 0 (peer 0) 4 (three ∷ []) [] [] (bytes "GET") [] 7 0
      (arriving body) (three-IsChunk, tt) (tt, omega arith) refl

-- The array holds the size line of a chunk when the peer closes.
forward_chunked-never_ends_example :
    forward_chunked scripted 100 4 0 [] (terminated (bytes "5\r\n")) 0 (arriving []) ≡ out_of_fuel
unfolding peer getchunksize str_eq cstr
forward_chunked-never_ends_example =
    forward_chunked-never_ends scripted 0 (peer 0) 100 4 [] (terminated (bytes "5\r\n")) 0 5
      (arriving []) refl refl refl (omega arith)

getchunksize-hex_value_example : getchunksize (bytes "1aF\r\n") ≡ some (pos 431)
unfolding isxdigit hex_value digit_value
getchunksize-hex_value_example =
    getchunksize-hex_value (bytes "1aF") (bytes "\r\n") (refl, (refl, (refl, tt))) refl

abbrev pub accept : Field
accept = record { name = bytes "Accept"; token = bytes "a/b"; tail = bytes " c" }

abbrev pub hop : Field
hop = record { name = bytes "Connection"; token = bytes "close"; tail = [] }

abbrev pub host : Field
host = record { name = bytes "Host"; token = bytes "a.org"; tail = [] }

accept-IsField : IsField accept
unfolding isspace
accept-IsField = record {
  name_ne_nil = λ e. cc;
  name_chars = All-of no_colon accept.name refl;
  token_ne_nil = λ e. cc;
  token_chars = All-of no_space accept.token refl;
  tail_stops = refl;
  text = IsText-of (field_line accept) refl;
  short = omega arith;
}

hop-IsField : IsField hop
unfolding isspace
hop-IsField = record {
  name_ne_nil = λ e. cc;
  name_chars = All-of no_colon hop.name refl;
  token_ne_nil = λ e. cc;
  token_chars = All-of no_space hop.token refl;
  tail_stops = tt;
  text = IsText-of (field_line hop) refl;
  short = omega arith;
}

host-IsField : IsField host
unfolding isspace
host-IsField = record {
  name_ne_nil = λ e. cc;
  name_chars = All-of no_colon host.name refl;
  token_ne_nil = λ e. cc;
  token_chars = All-of no_space host.token refl;
  tail_stops = tt;
  text = IsText-of (field_line host) refl;
  short = omega arith;
}

pub request-IsPlain : All IsPlain (host ∷ hop ∷ accept ∷ [])
unfolding str_eq strcase_eq tolower
request-IsPlain = (
  record { field = host-IsField; no_trailer = refl; no_length = refl; no_encoding = refl },
  (
    record { field = hop-IsField; no_trailer = refl; no_length = refl; no_encoding = refl },
    (
      record { field = accept-IsField; no_trailer = refl; no_length = refl; no_encoding = refl },
      tt,
    ),
  ),
)

sscanf_header-field_example :
    sscanf_header (bytes "Accept: a/b c\r\n") (record { headername = []; headerdata = [] })
    ≡ record { headername = bytes "Accept"; headerdata = bytes "a/b" }
sscanf_header-field_example =
    sscanf_header-field accept (record { headername = []; headerdata = [] }) accept-IsField

-- What the record holds does not matter.
abbrev pub status : ConnectionStatus
status = record {
  server_setclose = false;
  client_setclose = false;
  client_transfer_encoding = [];
  server_transfer_encoding = [];
  client_trailer = [];
  server_trailer = [];
  client_shuttingdown = false;
  server_shuttingdown = false;
  client_content_length = pos 0;
  server_content_length = pos 0;
  content_type = [];
}

forward_reply-closed_example :
    (io : Io scripted) × (forward_reply scripted 1 5 0 [] []
        (record { headername = []; headerdata = [] })
        (λ n. [])
        []
        0
        status
        (arriving (bytes "HTTP/1.0 200 OK\r\n"))
      ≡ done
          (record status { server_setclose = true; client_shuttingdown = true }, some (negsuc 0))
          io)
    × (io.log ≡ wrote 5 (bytes "HTTP/1.0 200 OK\r\n") ∷ [])
unfolding peer note_version split_while isspace str_eq
forward_reply-closed_example =
    forward_reply-closed scripted 0 (peer 0) 5 0 (bytes "HTTP/1.0 200 OK") [] []
      (record { headername = []; headerdata = [] }) (λ n. []) [] 0 status
      (arriving (bytes "HTTP/1.0 200 OK\r\n")) (IsText-of (bytes "HTTP/1.0 200 OK") refl)
      (omega arith) refl
