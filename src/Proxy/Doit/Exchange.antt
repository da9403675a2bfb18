-- ===== src/Proxy/Doit/Exchange.antt =====
-- `doit` on a request of HTTP/1.1 and its reply.
use tiny_proxy.Base.{
  ℕ, suc, ◌+◌, ◌≡◌, refl, sym, ap, ◌∙◌, Bool, ◌⊎◌, inl, inr, subst, false, true, List, Option, none,
  [], ◌∷◌, ◌++◌, ◌||◌, if◌then◌else◌, append_assoc, arith,
}
use tiny_proxy.Base.Int.{ℤ, pos}
use tiny_proxy.CString.{Bytes, bytes, str_eq, strcase_eq, tolower}
use tiny_proxy.RequestLine.Step.{RequestlineData}
use tiny_proxy.RequestLine.Grammar.{RequestLine, IsRequestLine, write, fields}
use tiny_proxy.Proxy.Rio.{
  Stream, Call, opened, wrote, closed, controlled, delete, rearm, Io, Run, done, send, and_then,
}
use tiny_proxy.Proxy.System.{System, close, reset_oneshot}
use tiny_proxy.Proxy.Header.{ConnectionStatus}
use tiny_proxy.Proxy.Chunked.Chunk.{crlf}
use tiny_proxy.Proxy.Request.Forward.{IsString}
use tiny_proxy.Proxy.Request.Whole.{forward_requestheader-sends}
use tiny_proxy.Proxy.Reply.{forward_reply}
use tiny_proxy.Proxy.Reply.Whole.{forward_reply-sends}
use tiny_proxy.Proxy.Frame.{Ensures}
use tiny_proxy.Proxy.Frame.Request.{forward_requestheader-Ensures}
use tiny_proxy.Proxy.Doit.{
  Uninitialised, default_port, request_line, forget, forward_request, after_reply, serve_get, serve,
  doit,
}
use tiny_proxy.Proxy.Doit.Message.{
  Message, Answer, after_sends, message_sends, answer_sends, asked_status, answered_status,
  message_rounds, answer_rounds, wire_message, wire_answer, IsMessage, IsAnswer, exchange_sends,
}
use tiny_proxy.Proxy.Doit.Start.{Requested}
use tiny_proxy.Proxy.Doit.Server.{Answers, Answers-Keeps, doit-serve}
use tiny_proxy.Proxy.Doit.Refuse.{request_method, request_version}

module _ (sys : System) (fd : ℕ) (epollfd : ℤ) (serverfd : ℕ) where
  open sys use {rio}

  after_reply_if :
      (b : Bool) (i : Io rio)
      → (i' : Io rio) × ((if b
            then done tt (close sys (pos fd) (forget sys epollfd fd i))
            else done tt (reset_oneshot sys epollfd fd i))
          ≡ done tt i')
        × (i'.log
            ≡ i.log
              ++ (if b
                  then controlled delete epollfd fd ∷ closed (pos fd) ∷ []
                  else controlled rearm epollfd fd ∷ []))
  after_reply_if true i = (_, refl, append_assoc i.log (controlled delete epollfd fd ∷ []) _)
  after_reply_if false i = (_, refl, refl)

  after_reply_lem :
      (c : ConnectionStatus) (r : Option ℤ) (i : Io rio)
      → (i' : Io rio) × (after_reply sys epollfd fd serverfd (c, r) i ≡ done tt i')
        × (i'.log ≡ i.log ++ after_sends epollfd fd serverfd c)
  after_reply_lem c r i =
      let (i', e, log) =
        after_reply_if (c.client_setclose || c.client_shuttingdown) (close sys (pos serverfd) i) in
      (i', e, log ∙ append_assoc i.log (closed (pos serverfd) ∷ []) _)

module _ (sys : System) (u : Uninitialised) (main_epollfd : ℤ) (fd : ℕ) (epollfd : ℤ)
    (rp serverfd rp_server : ℕ) where
  open sys use {rio}

  serve_method :
      (fuel : ℕ) (buf : Bytes) (d : RequestlineData) (i : Io rio)
      → d.version ≡ bytes "HTTP/1.1"
      → (d.method ≡ bytes "GET") ⊎ (d.method ≡ bytes "POST")
      → serve sys fuel u main_epollfd fd epollfd rp serverfd rp_server buf d i
        ≡ serve_get sys fuel u fd epollfd rp serverfd rp_server d i
  unfolding serve str_eq strcase_eq tolower
  serve_method fuel buf d i v (inl m) = rw (v, m) refl
  serve_method fuel buf d i v (inr m) = rw (v, m) refl

module _ {sys : System} {rp rp_server : ℕ} (client : Stream sys.rio rp)
    (server : Stream sys.rio rp_server) (u : Uninitialised) (main_epollfd : ℤ) (fd : ℕ)
    (epollfd : ℤ) (serverfd : ℕ) where
  open sys use {rio}

  -- The request goes to the server, and the reply is still to be read.
  forward_lem :
      (d : RequestlineData) (m : Message) (n : ℕ) (rest reply : Bytes) (i : Io rio)
      → IsString d.host
      → IsMessage d.method m u.cstatus
      → Answers sys client server d serverfd reply
      → client.At (wire_message m u.cstatus rest) i.world
      → server.At reply i.world
      → (i' : Io rio) × (forward_request sys (message_rounds m + suc n) u rp serverfd d i
          ≡ done (asked_status m u.cstatus, pos 0) i')
        × (i'.log ≡ i.log ++ message_sends serverfd d m u.cstatus)
        × server.At reply i'.world
  forward_lem d m n rest reply i is_string is a here there =
      let g = u.request in
      let line = request_line d in
      let i1 : Io rio = send rio serverfd line i in
      let (i2, e, log, _) =
        forward_requestheader-sends rio rp client serverfd m.headers m.content n d.host d.method
          rest g.buf g.header g.contents g.chunk_buf g.content_length u.cstatus i1 is_string
          is.fields_ok is.content_ok (client.write serverfd line _ i.world here) in
      (
        i2,
        e,
        log ∙ append_assoc i.log (wrote serverfd line ∷ []) _,
        subst (λ x. Ensures (λ (j : Io rio). server.At reply j.world) x) e
            (forward_requestheader-Ensures (Answers-Keeps client server d serverfd reply serverfd a)
              (message_rounds m + suc n) d.host d.method g.buf g.header g.contents g.chunk_buf
              g.content_length u.cstatus i1 (server.write serverfd line reply i.world there)),
      )

  -- From the request on.
  serve_get_lem :
      (d : RequestlineData) (m : Message) (a : Answer) (n : ℕ) (rest more : Bytes) (i : Io rio)
      → IsString d.host
      → IsMessage d.method m u.cstatus
      → IsAnswer a (asked_status m u.cstatus)
      → Answers sys client server d serverfd (wire_answer a (asked_status m u.cstatus) more)
      → client.At (wire_message m u.cstatus rest) i.world
      → server.At (wire_answer a (asked_status m u.cstatus) more) i.world
      → (i' : Io rio) × (serve_get sys
            (message_rounds m + answer_rounds a + suc n)
            u
            fd
            epollfd
            rp
            serverfd
            rp_server
            d
            i
          ≡ done tt i')
        × (i'.log ≡ i.log ++ exchange_sends epollfd fd serverfd d m a u)
  unfolding serve_get
  serve_get_lem d m a n rest more i is_string is answer answers here there =
      let fuel : ℕ = message_rounds m + answer_rounds a + suc n in
      let c : ConnectionStatus = asked_status m u.cstatus in
      let g = u.reply in
      let (i1, e1, l1, there1) =
        forward_lem d m (answer_rounds a + n) rest _ i is_string is answers here there in
      let (i2, e2, l2, _) =
        forward_reply-sends rio rp_server server fd a.status_line a.reply_headers a.body
          (message_rounds m + n) more g.buf g.version g.header g.contents g.chunk_buf
          g.content_length c i1 answer.text answer.short answer.fields_ok answer.body_ok there1 in
      let c' : ConnectionStatus = answered_status a g.version c in
      let (i3, e3, l3) = after_reply_lem sys fd epollfd serverfd c' none i2 in
      let sent : List Call = message_sends serverfd d m u.cstatus in
      let replied : List Call = answer_sends fd a c in
      let finish : Run rio (ConnectionStatus × Option ℤ) → Run rio (Unit {0}) =
        λ x. and_then rio x (after_reply sys epollfd fd serverfd) in
      let reply : ℕ → Run rio (ConnectionStatus × Option ℤ) = λ k.
        forward_reply rio k fd rp_server g.buf g.version g.header g.contents g.chunk_buf
          g.content_length c i1 in
      (
        i3,
        ap
              (λ (x : Run rio (ConnectionStatus × ℤ)). and_then rio x (λ (s, _) k. finish (
                forward_reply rio fuel fd rp_server g.buf g.version g.header g.contents g.chunk_buf
                  g.content_length s k)))
              (ap (λ k. forward_request sys k u rp serverfd d i) (omega arith) ∙ e1)
            ∙ ap finish (ap reply (omega arith) ∙ e2)
            ∙ e3,
        l3
            ∙ ap (λ x. x ++ after_sends epollfd fd serverfd c') (l2 ∙ ap (λ x. x ++ replied) l1)
            ∙ append_assoc (i.log ++ sent) replied _
            ∙ append_assoc i.log sent _,
      )

  -- A client sends a request line of the grammar of HTTP/1.1 that fits in the array, with the method
  -- GET or POST and a host without NUL bytes, well-formed fields and, with a POST, the body that
  -- they announce or none; a connection to the host can be opened, and the server answers with a
  -- status line, well-formed fields and the body that they announce or none; a length
  -- that is announced is below 2^31 - 1. Then `doit` returns, if
  -- the fuel is more than the numbers of the fields and the chunks of both together. Beside its
  -- reads it has opened the server, written to it the request line and what
  -- `forward_requestheader` makes of the rest of the request, written to the client what
  -- `forward_reply` makes of the reply, and closed the server's descriptor; then, as the status after
  -- the reply says, it has taken the client's descriptor out of `epollfd` and closed it, or armed
  -- it again, and has done nothing else.
  pub doit-exchange :
      (l rest more : Bytes) (r : RequestLine) (m : Message) (a : Answer) (n : ℕ) (io : Io rio)
      → Requested sys client fd l (wire_message m u.cstatus rest) io.world
      → IsRequestLine r
      → write r ≡ l ++ crlf
      → r.version ≡ bytes "1.1"
      → (r.method ≡ bytes "GET") ⊎ (r.method ≡ bytes "POST")
      → IsString (default_port (fields r u.rqdata)).host
      → IsMessage r.method m u.cstatus
      → IsAnswer a (asked_status m u.cstatus)
      → Answers sys client server
          (default_port (fields r u.rqdata))
          serverfd
          (wire_answer a (asked_status m u.cstatus) more)
      → (io' : Io rio) × (doit sys
            (message_rounds m + answer_rounds a + suc n)
            u
            main_epollfd
            fd
            epollfd
            io
          ≡ done tt io')
        × (io'.log
            ≡ io.log
              ++ (opened serverfd
                  ∷ exchange_sends epollfd fd serverfd (default_port (fields r u.rqdata)) m a u))
  doit-exchange l rest more r m a n io asked is e v method is_string message answer answers =
      let d : RequestlineData = default_port (fields r u.rqdata) in
      let fuel : ℕ = message_rounds m + answer_rounds a + suc n in
      let (i, line, log, here, there) =
        doit-serve client server fuel u main_epollfd fd epollfd l (wire_message m u.cstatus rest) _
          r serverfd io asked is e answers in
      let named : d.method ≡ r.method = request_method r u.rqdata in
      let (i', e', log') =
        serve_get_lem d m a n rest more i is_string
          (subst (λ x. IsMessage x m u.cstatus) (sym named) message) answer answers here there in
      (
        i',
        line
            ∙ serve_method sys u main_epollfd fd epollfd rp serverfd rp_server fuel _ d i
                (request_version r u.rqdata ∙ ap (bytes "HTTP/" ++◌) v)
                (elim method [ inl x ↦ inl (named ∙ x) | inr x ↦ inr (named ∙ x) ])
            ∙ e',
        log'
            ∙ ap (λ x. x ++ exchange_sends epollfd fd serverfd d m a u) log
            ∙ append_assoc io.log (opened serverfd ∷ []) _,
      )
