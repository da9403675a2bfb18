-- ===== src/Proxy/Doit/Refuse.antt =====
-- `doit` where the request is refused: what is answered, and what is closed.
use tiny_proxy.Base.{
  ℕ, ◌≡◌, refl, ap, ◌∙◌, true, false, none, some, List, [], ◌∷◌, ◌++◌, append_assoc, Bool-cases,
  inl, inr,
}
use tiny_proxy.Base.Int.{ℤ, pos}
use tiny_proxy.CString.{Bytes, bytes, str_eq, strcase_eq, tolower}
use tiny_proxy.RequestLine.Step.{RequestlineData, implemented}
use tiny_proxy.RequestLine.Run.{rejected, parse_requestline}
use tiny_proxy.RequestLine.Grammar.{
  RequestLine, IsRequestLine, IsUri, IsHost, Fits, write, fields, Target, origin, remote,
  set_target,
}
use tiny_proxy.RequestLine.Reject.{parse_requestline-bare_host}
use tiny_proxy.Proxy.Rio.{Stream, Call, opened, wrote, closed, controlled, delete, Io, done}
use tiny_proxy.Proxy.System.{System}
use tiny_proxy.Proxy.Chunked.Chunk.{crlf}
use tiny_proxy.Proxy.Doit.{
  Uninitialised, default_port, after_parse, after_open, open_server, refuse_method, refuse_version,
  serve, doit,
}
use tiny_proxy.Proxy.Doit.Start.{Requested, array, doit-line, doit-request}
use tiny_proxy.Proxy.Doit.Server.{Answers, doit-serve}

pub default_port-version : (d : RequestlineData) → (default_port d).version ≡ d.version
default_port-version d = elim (Bool-cases (str_eq d.port [])) [
  | inl e ↦ rw e refl
  | inr e ↦ rw e refl
]

pub default_port-method : (d : RequestlineData) → (default_port d).method ≡ d.method
default_port-method d = elim (Bool-cases (str_eq d.port [])) [
  | inl e ↦ rw e refl
  | inr e ↦ rw e refl
]

set_target-method : (t : Target) (d : RequestlineData) → (set_target t d).method ≡ d.method
set_target-method (origin l) d = refl
set_target-method (remote none h none none) d = refl
set_target-method (remote none h none (some l)) d = refl
set_target-method (remote none h (some p) none) d = refl
set_target-method (remote none h (some p) (some l)) d = refl
set_target-method (remote (some s) h none none) d = refl
set_target-method (remote (some s) h none (some l)) d = refl
set_target-method (remote (some s) h (some p) none) d = refl
set_target-method (remote (some s) h (some p) (some l)) d = refl

-- What `doit` works with has the method of the line.
pub request_method :
    (r : RequestLine) (d : RequestlineData) → (default_port (fields r d)).method ≡ r.method
request_method r d = default_port-method (fields r d) ∙ set_target-method r.target _

pub request_version :
    (r : RequestLine) (d : RequestlineData)
    → (default_port (fields r d)).version ≡ bytes "HTTP/" ++ r.version
request_version r d = default_port-version (fields r d)

module _ {sys : System} {rp : ℕ} (client : Stream sys.rio rp) (fuel : ℕ) (u : Uninitialised)
    (main_epollfd : ℤ) (fd : ℕ) (epollfd : ℤ) (l rest : Bytes) (io : Io sys.rio)
    (asked : Requested sys client fd l rest io.world) where
  open sys use {rio}

  -- The answer, and the closing of the client's descriptor.
  abbrev pub refusal : Bytes → List Call
  refusal line = wrote fd line ∷ closed (pos fd) ∷ []

  rejected_lem :
      (buf : Bytes) (d : RequestlineData) (i : Io rio)
      → (io' : Io rio) × (after_parse sys fuel u main_epollfd fd epollfd rp buf i (rejected d)
          ≡ done tt io')
        × (io'.log ≡ i.log ++ refusal (bytes "HTTP/1.0 400 Bad request\r\n"))
  unfolding after_parse
  rejected_lem buf d i = (_, refl, append_assoc i.log _ _)

  doit-rejected :
      (d : RequestlineData)
      → parse_requestline u.rqdata (l ++ crlf) ≡ rejected d
      → (io' : Io rio) × (doit sys fuel u main_epollfd fd epollfd io ≡ done tt io')
        × (io'.log ≡ io.log ++ refusal (bytes "HTTP/1.0 400 Bad request\r\n"))
  doit-rejected d e =
      let (w, there, line) = doit-line client fuel u main_epollfd fd epollfd l rest io asked in
      let buf : Bytes = array client fuel u main_epollfd fd epollfd l rest io asked in
      let (io', e', log) = rejected_lem buf d (record io { world = w }) in
      (
        io',
        line
            ∙ ap (after_parse sys fuel u main_epollfd fd epollfd rp buf (record io { world = w })) e
            ∙ e',
        log,
      )

  -- If the client has sent a request line whose target is a schema and a host with neither port nor path,
  -- such as "GET http://host HTTP/1.1", and the line fits in the array, `doit` returns, after it
  -- has answered with the status 400 and closed the client's descriptor, and has done nothing else.
  pub doit-bare_host :
      (m s h behind : Bytes)
      → implemented m ≡ true
      → IsUri s × Fits s
      → IsHost h × Fits h
      → l ++ crlf ≡ m ++ (b' ' ∷ (s ++ (b':' ∷ b'/' ∷ b'/' ∷ (h ++ (b' ' ∷ behind)))))
      → (io' : Io rio) × (doit sys fuel u main_epollfd fd epollfd io ≡ done tt io')
        × (io'.log ≡ io.log ++ refusal (bytes "HTTP/1.0 400 Bad request\r\n"))
  doit-bare_host m s h behind known uri host e = doit-rejected _ (
      ap (parse_requestline u.rqdata) e
      ∙ parse_requestline-bare_host m s h behind u.rqdata known uri host)

  unreachable_lem :
      (buf : Bytes) (d : RequestlineData) (i : Io rio)
      → (sys.open_clientfd d.host d.port i.world).0 ≡ none
      → (io' : Io rio) × (after_open sys fuel u main_epollfd fd epollfd rp buf d
            (open_server sys d i)
          ≡ done tt io')
        × (io'.log ≡ i.log ++ refusal (bytes "HTTP/1.0 404 Not found\r\n"))
  unfolding after_open
  unreachable_lem buf d i e = rw e (_, refl, append_assoc i.log _ _)

  -- If the client has sent a request line of the grammar that fits in the array, and no connection to its host can be opened,
  -- `doit` returns, after it has answered with the status 404 and closed the client's descriptor,
  -- and has opened and written nothing else.
  pub doit-unreachable :
      (r : RequestLine)
      → IsRequestLine r
      → write r ≡ l ++ crlf
      → ((w : rio.World)
          → client.At rest w
          → (sys.open_clientfd
              (default_port (fields r u.rqdata)).host
              (default_port (fields r u.rqdata)).port
              w).0
            ≡ none)
      → (io' : Io rio) × (doit sys fuel u main_epollfd fd epollfd io ≡ done tt io')
        × (io'.log ≡ io.log ++ refusal (bytes "HTTP/1.0 404 Not found\r\n"))
  doit-unreachable r is e shut =
      let (w, there, line) =
        doit-request client fuel u main_epollfd fd epollfd l rest io asked r is e in
      let (io', e', log) = unreachable_lem _ _ (record io { world = w }) (shut w there) in
      (io', line ∙ e', log)

  -- The calls of `refuse_method` and `refuse_version`: the two descriptors are closed in the order of
  -- the arguments.
  abbrev pub refusal_closing : ℕ → ℕ → List Call
  refusal_closing a b =
      wrote fd (bytes "HTTP/1.0 501 Not implemented\r\n")
      ∷ controlled delete epollfd fd
      ∷ closed (pos a)
      ∷ closed (pos b)
      ∷ []

  four :
      {A : Type 0} (l0 : List A) (a b c d : A)
      → (((l0 ++ (a ∷ [])) ++ (b ∷ [])) ++ (c ∷ [])) ++ (d ∷ []) ≡ l0 ++ (a ∷ b ∷ c ∷ d ∷ [])
  four l0 a b c d =
      append_assoc ((l0 ++ (a ∷ [])) ++ (b ∷ [])) (c ∷ []) (d ∷ [])
      ∙ append_assoc (l0 ++ (a ∷ [])) (b ∷ []) (c ∷ d ∷ [])
      ∙ append_assoc l0 (a ∷ []) (b ∷ c ∷ d ∷ [])

  module _ {rp_server : ℕ} (server : Stream sys.rio rp_server) where
    serve_head :
        (serverfd : ℕ) (buf : Bytes) (d : RequestlineData) (i : Io rio)
        → d.version ≡ bytes "HTTP/1.1"
        → d.method ≡ bytes "HEAD"
        → serve sys fuel u main_epollfd fd epollfd rp serverfd rp_server buf d i
          ≡ refuse_method sys fd epollfd serverfd i
    unfolding serve str_eq strcase_eq tolower
    serve_head serverfd buf d i e e' = rw (e, e') refl

    serve_other :
        (serverfd : ℕ) (buf : Bytes) (d : RequestlineData) (i : Io rio)
        → str_eq d.version (bytes "HTTP/1.0") ≡ false
        → str_eq d.version (bytes "HTTP/1.1") ≡ false
        → serve sys fuel u main_epollfd fd epollfd rp serverfd rp_server buf d i
          ≡ refuse_version sys fd epollfd serverfd i
    unfolding serve
    serve_other serverfd buf d i e e' = rw (e, e') refl

    -- The parser takes the method HEAD, but a request line of the grammar with it and HTTP/1.1 is
    -- refused: if a connection to its host can be opened, `doit` returns, after it has opened the server, answered with the status 501, taken
    -- the client's descriptor out of `epollfd`, closed the server's and closed the client's, in this
    -- order, and has forwarded nothing.
    pub doit-head :
        (r : RequestLine) (serverfd : ℕ) (reply : Bytes)
        → IsRequestLine r
        → write r ≡ l ++ crlf
        → r.version ≡ bytes "1.1"
        → r.method ≡ bytes "HEAD"
        → Answers sys client server (default_port (fields r u.rqdata)) serverfd reply
        → (io' : Io rio) × (doit sys fuel u main_epollfd fd epollfd io ≡ done tt io')
          × (io'.log ≡ io.log ++ (opened serverfd ∷ refusal_closing serverfd fd))
    doit-head r serverfd reply is e v m a =
        let (i, line, log, _, _) =
          doit-serve client server fuel u main_epollfd fd epollfd l rest reply r serverfd io asked
            is e a in
        let version : (default_port (fields r u.rqdata)).version ≡ bytes "HTTP/1.1" =
          request_version r u.rqdata ∙ ap (bytes "HTTP/" ++◌) v in
        (
          _,
          line ∙ serve_head serverfd _ _ i version (request_method r u.rqdata ∙ m),
          four i.log _ _ _ _
              ∙ ap (λ x. x ++ refusal_closing serverfd fd) log
              ∙ append_assoc io.log (opened serverfd ∷ []) (refusal_closing serverfd fd),
        )

    -- A request line of the grammar with any version other than 1.0 and 1.1 is refused: if a connection
    -- to its host can be opened, `doit` returns, after it has opened the server, answered with the status 501, taken the client's
    -- descriptor out of `epollfd`, closed the client's and closed the server's, in this order, and
    -- has forwarded nothing.
    pub doit-other_version :
        (r : RequestLine) (serverfd : ℕ) (reply : Bytes)
        → IsRequestLine r
        → write r ≡ l ++ crlf
        → str_eq (bytes "HTTP/" ++ r.version) (bytes "HTTP/1.0") ≡ false
        → str_eq (bytes "HTTP/" ++ r.version) (bytes "HTTP/1.1") ≡ false
        → Answers sys client server (default_port (fields r u.rqdata)) serverfd reply
        → (io' : Io rio) × (doit sys fuel u main_epollfd fd epollfd io ≡ done tt io')
          × (io'.log ≡ io.log ++ (opened serverfd ∷ refusal_closing fd serverfd))
    doit-other_version r serverfd reply is e old new a =
        let (i, line, log, _, _) =
          doit-serve client server fuel u main_epollfd fd epollfd l rest reply r serverfd io asked
            is e a in
        let version = request_version r u.rqdata in
        (
          _,
          line
              ∙ serve_other serverfd _ _ i (ap (λ x. str_eq x (bytes "HTTP/1.0")) version ∙ old)
                  (ap (λ x. str_eq x (bytes "HTTP/1.1")) version ∙ new),
          four i.log _ _ _ _
              ∙ ap (λ x. x ++ refusal_closing fd serverfd) log
              ∙ append_assoc io.log (opened serverfd ∷ []) (refusal_closing fd serverfd),
        )
