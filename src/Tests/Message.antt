-- ===== src/Tests/Message.antt =====
-- Examples of whole requests and replies.
use tiny_proxy.Base.{true, false, All, ◌≡◌, refl, Bool, none, some, inr, [], ◌∷◌, arith}
use tiny_proxy.Base.Int.{pos}
use tiny_proxy.CString.{Bytes, bytes, isspace, isdigit, tolower, str_eq, strcase_eq}
use tiny_proxy.RequestLine.Step.{implemented}
use tiny_proxy.Proxy.Rio.{opened, wrote, closed, controlled, rearm, Io, done}
use tiny_proxy.Proxy.Header.{split_while}
use tiny_proxy.Proxy.Header.Scan.{Field, no_colon, no_space, field_line}
use tiny_proxy.Proxy.Header.Fields.{IsHeaderField, All-IsHeaderField}
use tiny_proxy.Proxy.Body.{chunked, sized}
use tiny_proxy.Proxy.Chunked.Chunk.{crlf}
use tiny_proxy.Proxy.Request.{forward_requestheader}
use tiny_proxy.Proxy.Request.Whole.{forward_requestheader-sends}
use tiny_proxy.Proxy.Reply.{ReplyLines, note_version, reply_body, forward_reply}
use tiny_proxy.Proxy.Reply.Cut.{reply_body-cut}
use tiny_proxy.Proxy.Reply.Whole.{forward_reply-sends}
use tiny_proxy.Proxy.Doit.{doit}
use tiny_proxy.Proxy.Doit.Message.{Message, Answer}
use tiny_proxy.Proxy.Doit.Exchange.{doit-exchange}
use tiny_proxy.Tests.Scripted.{scripted, peer, answering}
use tiny_proxy.Tests.Proxy.{
  IsText-of, All-of, three, three-IsChunk, arriving, status, host, hop, accept, request-IsPlain,
}
use tiny_proxy.Tests.Doit.{blank}
use tiny_proxy.Tests.Exchange.{
  request, request-IsRequestLine, asking, answering-Requested, answering-Answers,
}

abbrev of_three : Field
of_three = record { name = bytes "Content-length"; token = bytes "3"; tail = [] }

abbrev in_chunks : Field
in_chunks = record { name = bytes "Transfer-Encoding"; token = bytes "chunked"; tail = [] }

is_false : {A : Type 0} {b : Bool} → b ≡ false → b ≡ true → A
is_false e e' = absurd (cc)

of_three-IsHeaderField : IsHeaderField of_three
unfolding isspace isdigit str_eq strcase_eq tolower
of_three-IsHeaderField = record {
  field = record {
    name_ne_nil = λ e. cc;
    name_chars = All-of no_colon of_three.name refl;
    token_ne_nil = λ e. cc;
    token_chars = All-of no_space of_three.token refl;
    tail_stops = tt;
    text = IsText-of (field_line of_three) refl;
    short = omega arith;
  };
  trailer = is_false refl;
  digits = λ e. ((refl, tt), omega arith);
  encoding = is_false refl;
}

in_chunks-IsHeaderField : IsHeaderField in_chunks
unfolding isspace isdigit str_eq strcase_eq tolower
in_chunks-IsHeaderField = record {
  field = record {
    name_ne_nil = λ e. cc;
    name_chars = All-of no_colon in_chunks.name refl;
    token_ne_nil = λ e. cc;
    token_chars = All-of no_space in_chunks.token refl;
    tail_stops = tt;
    text = IsText-of (field_line in_chunks) refl;
    short = omega arith;
  };
  trailer = is_false refl;
  digits = is_false refl;
  encoding = λ e. refl;
}

abbrev chunked_reply : Bytes
chunked_reply =
    bytes "HTTP/1.1 200 OK\r\nTransfer-Encoding: chunked\r\n\r\n3;x\r\nabc\r\n0\r\n\r\nHTTP"

forward_reply-sends_example :
    (io : Io scripted) × (forward_reply scripted 3 5 0 [] []
        (record { headername = []; headerdata = [] })
        (λ n. [])
        []
        0
        status
        (arriving chunked_reply)
      ≡ done (record status { server_transfer_encoding = bytes "chunked" }, none) io)
    × (io.log
        ≡ wrote 5 (bytes "HTTP/1.1 200 OK\r\n")
          ∷ wrote 5 (bytes "Transfer-Encoding: chunked\r\n")
          ∷ wrote 5 crlf
          ∷ wrote 5 (bytes "abc\r\n")
          ∷ wrote 5 (bytes "0\r\n")
          ∷ wrote 5 crlf
          ∷ [])
    × (io.world.streams 0 ≡ bytes "HTTP")
unfolding peer note_version split_while isspace str_eq strcase_eq tolower
forward_reply-sends_example =
    forward_reply-sends scripted 0 (peer 0) 5 (bytes "HTTP/1.1 200 OK") (in_chunks ∷ [])
      (chunked (three ∷ []) []) 0 (bytes "HTTP") [] [] (record { headername = []; headerdata = [] })
      (λ n. []) [] 0 status (arriving chunked_reply) (IsText-of (bytes "HTTP/1.1 200 OK") refl)
      (omega arith) (in_chunks-IsHeaderField, tt) (refl, (three-IsChunk, tt), tt, omega arith) refl

abbrev posted : Bytes
posted = bytes "Host: a.org\r\nContent-length: 3\r\n\r\na=bGET"

posted-IsHeader : All IsHeaderField (host ∷ of_three ∷ [])
posted-IsHeader =
    ((All-IsHeaderField (host ∷ hop ∷ accept ∷ []) request-IsPlain).0, (of_three-IsHeaderField, tt))

forward_requestheader-sends_example :
    (io : Io scripted) × (forward_requestheader scripted 3 5 0
        (bytes "a.org")
        (bytes "POST")
        []
        (record { headername = []; headerdata = [] })
        (λ n. [])
        []
        0
        status
        (arriving posted)
      ≡ done (record status { client_content_length = pos 3 }, pos 0) io)
    × (io.log
        ≡ wrote 5 (bytes "Connection: close\r\n")
          ∷ wrote 5 (bytes "Proxy-Connection: close\r\n")
          ∷ wrote 5 (bytes "Host: a.org\r\n")
          ∷ wrote 5 (bytes "Content-length: 3\r\n")
          ∷ wrote 5 crlf
          ∷ wrote 5 (bytes "a=b")
          ∷ [])
    × (io.world.streams 0 ≡ bytes "GET")
unfolding peer str_eq strcase_eq tolower
forward_requestheader-sends_example =
    forward_requestheader-sends scripted 0 (peer 0) 5 (host ∷ of_three ∷ [])
      (some (sized (bytes "a=b"))) 0 (bytes "a.org") (bytes "POST") (bytes "GET") []
      (record { headername = []; headerdata = [] }) (λ n. []) [] 0 status (arriving posted)
      (refl, (refl, (refl, (refl, (refl, tt))))) posted-IsHeader
      (refl, (refl, refl, refl, omega arith)) refl

abbrev post : Bytes
post = bytes "POST http://a.org:80/x HTTP/1.1"

abbrev post_message : Message
post_message = record { headers = host ∷ of_three ∷ []; content = some (sized (bytes "a=b")) }

abbrev chunked_answer : Answer
chunked_answer = record {
  status_line = bytes "HTTP/1.1 200 OK";
  reply_headers = in_chunks ∷ [];
  body = chunked (three ∷ []) [];
}

doit-exchange_example :
    (io : Io scripted) × (doit
        (answering chunked_reply)
        5
        blank
        (pos 3)
        5
        (pos 4)
        (asking post posted)
      ≡ done tt io)
    × (io.log
        ≡ opened 9
          ∷ wrote 9 (bytes "POST /x HTTP/1.1\r\n")
          ∷ wrote 9 (bytes "Connection: close\r\n")
          ∷ wrote 9 (bytes "Proxy-Connection: close\r\n")
          ∷ wrote 9 (bytes "Host: a.org\r\n")
          ∷ wrote 9 (bytes "Content-length: 3\r\n")
          ∷ wrote 9 crlf
          ∷ wrote 9 (bytes "a=b")
          ∷ wrote 5 (bytes "HTTP/1.1 200 OK\r\n")
          ∷ wrote 5 (bytes "Transfer-Encoding: chunked\r\n")
          ∷ wrote 5 crlf
          ∷ wrote 5 (bytes "abc\r\n")
          ∷ wrote 5 (bytes "0\r\n")
          ∷ wrote 5 crlf
          ∷ closed (pos 9)
          ∷ controlled rearm (pos 4) 5
          ∷ [])
unfolding peer implemented isdigit isspace str_eq strcase_eq tolower note_version split_while
doit-exchange_example =
    doit-exchange (peer 5) (peer 9) blank (pos 3) 5 (pos 4) 9 post (bytes "GET") (bytes "HTTP")
      (request (bytes "POST") (bytes "1.1")) post_message chunked_answer 0 (asking post posted)
      (answering-Requested post posted _ refl (omega arith))
      (request-IsRequestLine (bytes "POST") (bytes "1.1") refl (refl, (refl, (refl, tt)))
        (omega arith))
      refl refl (inr refl) (refl, (refl, (refl, (refl, (refl, tt)))))
      (record { fields_ok = posted-IsHeader; content_ok = (refl, (refl, refl, refl, omega arith)) })
      (record {
        text = IsText-of (bytes "HTTP/1.1 200 OK") refl;
        short = omega arith;
        fields_ok = (in_chunks-IsHeaderField, tt);
        body_ok = (refl, (three-IsChunk, tt), tt, omega arith);
      })
      (answering-Answers _ _ _)

abbrev short_lines : ReplyLines
short_lines = record {
  buf = [];
  header = record { headername = []; headerdata = [] };
  is_contentlength_set = true;
  cstatus = record status { server_content_length = pos 5 };
}

-- The array holds "secret".
reply_body-cut_example :
    (io : Io scripted) × (reply_body scripted 0 5 0
        (λ n. bytes "secret")
        []
        0
        short_lines
        (arriving (bytes "ab"))
      ≡ done (record status { server_content_length = pos 5 }, none) io)
    × (io.log ≡ wrote 5 (bytes "abcre") ∷ [])
    × (io.world.streams 0 ≡ [])
unfolding peer strcase_eq tolower
reply_body-cut_example =
    reply_body-cut scripted 0 (peer 0) 5 (λ n. bytes "secret") [] 0 (bytes "ab") 5 0 short_lines
      (arriving (bytes "ab")) refl refl refl (omega arith) (omega arith) (omega arith) refl
