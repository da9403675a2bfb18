-- ===== src/Tests/Exchange.antt =====
-- Examples of `doit` from a request line to the closing of the descriptors.
use tiny_proxy.Base.{true, length, ◌+◌, ◌≤◌, ◌≡◌, refl, some, inr, List, [], ◌∷◌, ◌++◌, arith}
use tiny_proxy.Base.Int.{pos}
use tiny_proxy.CString.{Bytes, bytes, isspace, isdigit, isalnum, str_eq, strcase_eq, tolower}
use tiny_proxy.RequestLine.Step.{is_name, implemented}
use tiny_proxy.RequestLine.Grammar.{RequestLine, IsRequestLine, fields, remote, IsVersion, Fits}
use tiny_proxy.Proxy.Rio.{opened, wrote, closed, controlled, delete, Io, done, maxline}
use tiny_proxy.Proxy.Chunked.Chunk.{crlf}
use tiny_proxy.Proxy.Reply.Once.{pieces, join}
use tiny_proxy.Proxy.Doit.{default_port, doit}
use tiny_proxy.Proxy.Doit.Start.{Requested}
use tiny_proxy.Proxy.Doit.Server.{Answers}
use tiny_proxy.Proxy.Doit.Once.{doit-once}
use tiny_proxy.Proxy.Doit.Refuse.{doit-bare_host, doit-unreachable, doit-head, doit-other_version}
use tiny_proxy.Tests.Scripted.{scripted, answering, unreachable, peer, kept, keep}
use tiny_proxy.Tests.Proxy.{host, hop, accept, request-IsPlain, IsText-of, all, is_text_byte}
use tiny_proxy.Tests.Doit.{from_peers, blank}

abbrev pub request : Bytes → Bytes → RequestLine
request method version = record {
  leading = [];
  method = method;
  blanks = [];
  target = remote (some (bytes "http")) (bytes "a.org") (some (bytes "80")) (some (bytes "/x"));
  version = version;
  ending = crlf;
}

abbrev get_once : Bytes
get_once = bytes "GET http://a.org:80/x HTTP/1.0"

abbrev three_fields : Bytes
three_fields = bytes "Host: a.org\r\nConnection: close\r\nAccept: a/b c\r\n\r\n"

pub request-IsRequestLine :
    (method version : Bytes)
    → implemented method ≡ true
    → IsVersion version
    → Fits (bytes "HTTP/" ++ version)
    → IsRequestLine (request method version)
unfolding isspace isdigit isalnum is_name
request-IsRequestLine method version known is fits = record {
  leading = tt;
  method = known;
  blanks = tt;
  target = (
    ((refl, refl, (refl, (refl, (refl, tt)))), omega arith),
    ((refl, (refl, (refl, (refl, (refl, tt))))), omega arith),
    ((refl, (refl, tt)), omega arith),
    ((refl, (refl, tt)), omega arith),
    inr (λ e. cc),
  );
  version = is;
  version_fits = fits;
  ending = refl;
}

pub answering-Answers :
    (method version reply : Bytes)
    → Answers
        (answering reply)
        (peer 5)
        (peer 9)
        (default_port (fields (request method version) blank.rqdata))
        9
        reply
unfolding peer
answering-Answers method version reply = record {
  connects = λ bs w here. (keep 9 reply w, keep 9 reply w, refl, refl, here, kept 9 reply w);
  line_apart = λ bs w h. h;
  block_apart = λ bs n w h. h;
}

-- A client that sends the line `l`, and then `rest`.
abbrev pub asking : Bytes → Bytes → Io scripted
asking l rest = from_peers (l ++ (b'\r' ∷ b'\n' ∷ rest)) []

pub answering-Requested :
    (l rest reply : Bytes)
    → all is_text_byte l ≡ true
    → length l + 3 ≤ maxline
    → Requested (answering reply) (peer 5) 5 l rest (asking l rest).world
unfolding peer
answering-Requested l rest reply text short = record {
  start = (asking l rest).world;
  init = refl;
  here = refl;
  text = IsText-of l text;
  short = short;
}

unreachable-Requested :
    (l rest : Bytes)
    → all is_text_byte l ≡ true
    → length l + 3 ≤ maxline
    → Requested unreachable (peer 5) 5 l rest (asking l rest).world
unfolding peer
unreachable-Requested l rest text short = record {
  start = (asking l rest).world;
  init = refl;
  here = refl;
  text = IsText-of l text;
  short = short;
}

doit-once_example :
    (ps : List Bytes) × (io : Io scripted) × (doit
        (answering (bytes "HTTP/1.0 200 OK\r\n\r\nhello"))
        5
        blank
        (pos 3)
        5
        (pos 4)
        (asking get_once three_fields)
      ≡ done tt io)
    × (io.log
        ≡ opened 9
          ∷ wrote 9 (bytes "GET /x HTTP/1.0\r\n")
          ∷ wrote 9 (bytes "Connection: close\r\n")
          ∷ wrote 9 (bytes "Proxy-Connection: close\r\n")
          ∷ wrote 9 (bytes "Host: a.org\r\n")
          ∷ wrote 9 (bytes "Accept: a/b c\r\n")
          ∷ wrote 9 crlf
          ∷ (pieces 5 ps ++ (controlled delete (pos 4) 5 ∷ closed (pos 9) ∷ closed (pos 5) ∷ [])))
    × (join ps ≡ bytes "HTTP/1.0 200 OK\r\n\r\nhello")
unfolding peer implemented isdigit str_eq strcase_eq tolower
doit-once_example =
    doit-once (peer 5) (peer 9) blank (pos 3) 5 (pos 4) 9 get_once []
      (bytes "HTTP/1.0 200 OK\r\n\r\nhello") (request (bytes "GET") (bytes "1.0"))
      (host ∷ hop ∷ accept ∷ []) 1 (asking get_once three_fields)
      (answering-Requested get_once three_fields _ refl (omega arith))
      (request-IsRequestLine (bytes "GET") (bytes "1.0") refl (refl, (refl, (refl, tt)))
        (omega arith))
      refl refl refl (refl, (refl, (refl, (refl, (refl, tt))))) request-IsPlain
      (answering-Answers _ _ _) (omega arith)

abbrev bare_host : Bytes
bare_host = bytes "GET http://a.org HTTP/1.1"

doit-bare_host_example :
    (io : Io scripted) × (doit unreachable 0 blank (pos 3) 5 (pos 4) (asking bare_host crlf)
      ≡ done tt io)
    × (io.log ≡ wrote 5 (bytes "HTTP/1.0 400 Bad request\r\n") ∷ closed (pos 5) ∷ [])
unfolding peer isspace isdigit isalnum is_name implemented str_eq
doit-bare_host_example =
    doit-bare_host (peer 5) 0 blank (pos 3) 5 (pos 4) bare_host crlf (asking bare_host crlf)
      (unreachable-Requested bare_host crlf refl (omega arith)) (bytes "GET") (bytes "http")
      (bytes "a.org") (bytes "HTTP/1.1\r\n") refl
      ((refl, refl, (refl, (refl, (refl, tt)))), omega arith)
      ((refl, (refl, (refl, (refl, (refl, tt))))), omega arith) refl

doit-unreachable_example :
    (io : Io scripted) × (doit unreachable 0 blank (pos 3) 5 (pos 4) (asking get_once three_fields)
      ≡ done tt io)
    × (io.log ≡ wrote 5 (bytes "HTTP/1.0 404 Not found\r\n") ∷ closed (pos 5) ∷ [])
unfolding peer implemented isdigit str_eq
doit-unreachable_example =
    doit-unreachable (peer 5) 0 blank (pos 3) 5 (pos 4) get_once three_fields
      (asking get_once three_fields)
      (unreachable-Requested get_once three_fields refl (omega arith))
      (request (bytes "GET") (bytes "1.0"))
      (request-IsRequestLine (bytes "GET") (bytes "1.0") refl (refl, (refl, (refl, tt)))
        (omega arith))
      refl (λ w h. refl)

abbrev head : Bytes
head = bytes "HEAD http://a.org:80/x HTTP/1.1"

doit-head_example :
    (io : Io scripted) × (doit (answering []) 0 blank (pos 3) 5 (pos 4) (asking head crlf)
      ≡ done tt io)
    × (io.log
        ≡ opened 9
          ∷ wrote 5 (bytes "HTTP/1.0 501 Not implemented\r\n")
          ∷ controlled delete (pos 4) 5
          ∷ closed (pos 9)
          ∷ closed (pos 5)
          ∷ [])
unfolding peer implemented isdigit str_eq
doit-head_example =
    doit-head (peer 5) 0 blank (pos 3) 5 (pos 4) head crlf (asking head crlf)
      (answering-Requested head crlf [] refl (omega arith)) (peer 9)
      (request (bytes "HEAD") (bytes "1.1")) 9 []
      (request-IsRequestLine (bytes "HEAD") (bytes "1.1") refl (refl, (refl, (refl, tt)))
        (omega arith))
      refl refl refl (answering-Answers _ _ _)

abbrev newer : Bytes
newer = bytes "GET http://a.org:80/x HTTP/2.0"

doit-other_version_example :
    (io : Io scripted) × (doit (answering []) 0 blank (pos 3) 5 (pos 4) (asking newer crlf)
      ≡ done tt io)
    × (io.log
        ≡ opened 9
          ∷ wrote 5 (bytes "HTTP/1.0 501 Not implemented\r\n")
          ∷ controlled delete (pos 4) 5
          ∷ closed (pos 5)
          ∷ closed (pos 9)
          ∷ [])
unfolding peer implemented isdigit str_eq
doit-other_version_example =
    doit-other_version (peer 5) 0 blank (pos 3) 5 (pos 4) newer crlf (asking newer crlf)
      (answering-Requested newer crlf [] refl (omega arith)) (peer 9)
      (request (bytes "GET") (bytes "2.0")) 9 []
      (request-IsRequestLine (bytes "GET") (bytes "2.0") refl (refl, (refl, (refl, tt)))
        (omega arith))
      refl refl refl (answering-Answers _ _ _)
