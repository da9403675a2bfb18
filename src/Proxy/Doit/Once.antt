-- ===== src/Proxy/Doit/Once.antt =====
-- `doit` on a request of HTTP/1.0, from the request line to the closing of both descriptors.
use tiny_proxy.Base.{
  ℕ, suc, ◌+◌, ◌*◌, ◌<◌, ◌≡◌, refl, ap, ◌∙◌, subst, false, List, [], ◌∷◌, ◌++◌, length, All,
  append_assoc, arith,
}
use tiny_proxy.Base.Int.{ℤ, pos}
use tiny_proxy.CString.{Bytes, bytes, str_eq}
use tiny_proxy.RequestLine.Step.{RequestlineData}
use tiny_proxy.RequestLine.Grammar.{RequestLine, IsRequestLine, write, fields}
use tiny_proxy.Proxy.Rio.{
  Rio, Stream, Call, opened, wrote, closed, controlled, delete, Io, Run, done, send, and_then,
  maxline,
}
use tiny_proxy.Proxy.System.{System}
use tiny_proxy.Proxy.Header.{ConnectionStatus}
use tiny_proxy.Proxy.Header.Scan.{Field}
use tiny_proxy.Proxy.Chunked.Chunk.{crlf}
use tiny_proxy.Proxy.Header.Fields.{IsPlain, wire_fields}
use tiny_proxy.Proxy.Request.Forward.{IsString, header_sends, forward_requestheader-plain}
use tiny_proxy.Proxy.Reply.{reply_nonconnection}
use tiny_proxy.Proxy.Reply.Once.{pieces, join, reply_nonconnection-sends}
use tiny_proxy.Proxy.Frame.{Ensures}
use tiny_proxy.Proxy.Frame.Request.{forward_requestheader-Ensures}
use tiny_proxy.Proxy.Doit.{
  Uninitialised, default_port, request_line, close_both, forget, forward_request, serve_once, serve,
  doit,
}
use tiny_proxy.Proxy.Doit.Start.{Requested}
use tiny_proxy.Proxy.Doit.Server.{Answers, Answers-Keeps, doit-serve}
use tiny_proxy.Proxy.Doit.Refuse.{request_method, request_version}

-- The calls behind the reply.
abbrev pub both_closed : ℤ → (fd serverfd : ℕ) → List Call
both_closed epollfd fd serverfd =
    controlled delete epollfd fd ∷ closed (pos serverfd) ∷ closed (pos fd) ∷ []

-- The request line and the fields, to the server.
abbrev pub request_sends : ℕ → RequestlineData → List Field → List Call
request_sends serverfd d fs = wrote serverfd (request_line d) ∷ header_sends serverfd d.host fs

three :
    {A : Type 0} (l0 : List A) (a b c : A)
    → ((l0 ++ (a ∷ [])) ++ (b ∷ [])) ++ (c ∷ []) ≡ l0 ++ (a ∷ b ∷ c ∷ [])
three l0 a b c =
    append_assoc (l0 ++ (a ∷ [])) (b ∷ []) (c ∷ []) ∙ append_assoc l0 (a ∷ []) (b ∷ c ∷ [])

reply_lem :
    {rio : Rio} (rp_server : ℕ) (server : Stream rio rp_server) (fd m n : ℕ) (reply : Bytes)
    (i : Io rio)
    → length reply < n * maxline
    → server.At reply i.world
    → (ps : List Bytes) × (i' : Io rio) × (reply_nonconnection rio (m + suc n) fd rp_server i
        ≡ done tt i')
      × (i'.log ≡ i.log ++ pieces fd ps)
      × (join ps ≡ reply)
reply_lem {rio} rp_server server fd m n reply i small there =
    let (ps, i', e, log, j, _) =
      reply_nonconnection-sends rio rp_server server fd (m + n) reply i (omega (arith, small))
        there in
    let more : m + suc n ≡ suc (m + n) = omega arith in
    (ps, i', ap (λ k. reply_nonconnection rio k fd rp_server i) more ∙ e, log, j)

serve_version :
    (sys : System) (fuel : ℕ) (u : Uninitialised) (main_epollfd : ℤ) (fd : ℕ) (epollfd : ℤ)
    (rp serverfd rp_server : ℕ) (buf : Bytes) (d : RequestlineData) (i : Io sys.rio)
    → d.version ≡ bytes "HTTP/1.0"
    → serve sys fuel u main_epollfd fd epollfd rp serverfd rp_server buf d i
      ≡ serve_once sys fuel u fd epollfd rp serverfd rp_server d i
unfolding serve str_eq
serve_version sys fuel u main_epollfd fd epollfd rp serverfd rp_server buf d i e = rw e refl

module _ {sys : System} {rp rp_server : ℕ} (client : Stream sys.rio rp)
    (server : Stream sys.rio rp_server) (u : Uninitialised) (main_epollfd : ℤ) (fd : ℕ)
    (epollfd : ℤ) (serverfd : ℕ) where
  open sys use {rio}

  forward_lem :
      (d : RequestlineData) (fs : List Field) (n : ℕ) (rest reply : Bytes) (i : Io rio)
      → str_eq d.method (bytes "POST") ≡ false
      → IsString d.host
      → All IsPlain fs
      → Answers sys client server d serverfd reply
      → client.At (wire_fields fs rest) i.world
      → server.At reply i.world
      → (r : ConnectionStatus × ℤ) × (i' : Io rio) × (forward_request sys
            (length fs + suc n)
            u
            rp
            serverfd
            d
            i
          ≡ done r i')
        × (i'.log ≡ i.log ++ request_sends serverfd d fs)
        × server.At reply i'.world
  forward_lem d fs n rest reply i not_post is_string plain a here there =
      let g = u.request in
      let line = request_line d in
      let i1 : Io rio = send rio serverfd line i in
      let (i2, e, log, _) =
        forward_requestheader-plain rio rp client serverfd fs n d.host d.method rest g.buf g.header
          g.contents g.chunk_buf g.content_length u.cstatus i1 not_post is_string plain
          (client.write serverfd line _ i.world here) in
      (
        _,
        i2,
        e,
        log ∙ append_assoc i.log (wrote serverfd line ∷ []) (header_sends serverfd d.host fs),
        subst (λ x. Ensures (λ (j : Io rio). server.At reply j.world) x) e
            (forward_requestheader-Ensures (Answers-Keeps client server d serverfd reply serverfd a)
              (length fs + suc n) d.host d.method g.buf g.header g.contents g.chunk_buf
              g.content_length u.cstatus i1 (server.write serverfd line reply i.world there)),
      )

  serve_once_lem :
      (d : RequestlineData) (fs : List Field) (n : ℕ) (rest reply : Bytes) (i : Io rio)
      → str_eq d.method (bytes "POST") ≡ false
      → IsString d.host
      → All IsPlain fs
      → length reply < n * maxline
      → Answers sys client server d serverfd reply
      → client.At (wire_fields fs rest) i.world
      → server.At reply i.world
      → (ps : List Bytes) × (i' : Io rio) × (serve_once sys
            (length fs + suc n)
            u
            fd
            epollfd
            rp
            serverfd
            rp_server
            d
            i
          ≡ done tt i')
        × (i'.log
            ≡ i.log
              ++ (request_sends serverfd d fs ++ (pieces fd ps ++ both_closed epollfd fd serverfd)))
        × (join ps ≡ reply)
  unfolding serve_once
  serve_once_lem d fs n rest reply i not_post is_string plain small a here there =
      let fuel : ℕ = length fs + suc n in
      let (r, i1, e1, log1, there1) =
        forward_lem d fs n rest reply i not_post is_string plain a here there in
      let (ps, i2, e2, log2, j) =
        reply_lem rp_server server fd (length fs) n reply i1 small there1 in
      let finish : Run rio (Unit {0}) → Run rio (Unit {0}) = λ x.
        and_then rio x (λ _ k. done tt (close_both sys serverfd fd (forget sys epollfd fd k))) in
      (
        ps,
        close_both sys serverfd fd (forget sys epollfd fd i2),
        ap
              (λ (x : Run rio (ConnectionStatus × ℤ)).
                and_then rio x (λ _ k. finish (reply_nonconnection rio fuel fd rp_server k)))
              e1
            ∙ ap finish e2,
        three i2.log _ _ _
            ∙ ap (λ x. x ++ both_closed epollfd fd serverfd)
                (log2 ∙ ap (λ x. x ++ pieces fd ps) log1)
            ∙ append_assoc (i.log ++ request_sends serverfd d fs) (pieces fd ps)
                (both_closed epollfd fd serverfd)
            ∙ append_assoc i.log (request_sends serverfd d fs)
                (pieces fd ps ++ both_closed epollfd fd serverfd),
        j,
      )

  -- A client sends a request line of the grammar of HTTP/1.0 that fits in the array, with a
  -- method other than POST and a host without NUL bytes, and a header of plain fields; a
  -- connection to the host can be opened, and the server answers and closes. Then `doit` returns,
  -- if the fuel is the number of the fields and one more than a number of rounds that, at 8192
  -- bytes each, exceeds the length of the reply. Beside its reads, it has opened the server,
  -- written to it the request line and what `forward_requestheader` makes of the fields, written
  -- every byte of the reply to the client in order, taken the client's descriptor out of
  -- `epollfd`, closed the server's and then the client's, and has done nothing else.
  pub doit-once :
      (l rest reply : Bytes) (r : RequestLine) (fs : List Field) (n : ℕ) (io : Io rio)
      → Requested sys client fd l (wire_fields fs rest) io.world
      → IsRequestLine r
      → write r ≡ l ++ crlf
      → r.version ≡ bytes "1.0"
      → str_eq r.method (bytes "POST") ≡ false
      → IsString (default_port (fields r u.rqdata)).host
      → All IsPlain fs
      → Answers sys client server (default_port (fields r u.rqdata)) serverfd reply
      → length reply < n * maxline
      → (ps : List Bytes) × (io' : Io rio) × (doit sys
            (length fs + suc n)
            u
            main_epollfd
            fd
            epollfd
            io
          ≡ done tt io')
        × (io'.log
            ≡ io.log
              ++ (opened serverfd
                  ∷ (request_sends serverfd (default_port (fields r u.rqdata)) fs
                      ++ (pieces fd ps ++ both_closed epollfd fd serverfd))))
        × (join ps ≡ reply)
  doit-once l rest reply r fs n io asked is e v not_post is_string plain a small =
      let d : RequestlineData = default_port (fields r u.rqdata) in
      let fuel : ℕ = length fs + suc n in
      let (i, line, log, here, there) =
        doit-serve client server fuel u main_epollfd fd epollfd l (wire_fields fs rest) reply r
          serverfd io asked is e a in
      let (ps, i', e', log', j) =
        serve_once_lem d fs n rest reply i
          (ap (λ x. str_eq x (bytes "POST")) (request_method r u.rqdata) ∙ not_post) is_string plain
          small a here there in
      (
        ps,
        i',
        line
            ∙ serve_version sys fuel u main_epollfd fd epollfd rp serverfd rp_server _ d i
                (request_version r u.rqdata ∙ ap (bytes "HTTP/" ++◌) v)
            ∙ e',
        log'
            ∙ ap
                (λ x.
                  x
                  ++ (request_sends serverfd d fs
                      ++ (pieces fd ps ++ both_closed epollfd fd serverfd)))
                log
            ∙ append_assoc io.log (opened serverfd ∷ []) _,
        j,
      )
