-- ===== src/Proxy/Doit.antt =====
-- `doit` of proxy.c: one request of a client, from its request line to the closing of the
-- descriptors.
pub mod Start
pub mod Server
pub mod Refuse
pub mod Once
pub mod Message
pub mod Exchange
use tiny_proxy.Base.{
  ℕ, zero, suc, Bool, true, false, not, ◌&&◌, ◌||◌, Option, none, some, [], ◌∷◌, ◌++◌,
  if◌then◌else◌, length, ltb,
}
use tiny_proxy.Base.Int.{ℤ, pos}
use tiny_proxy.CString.{Bytes, bytes, str_eq, strcase_eq}
use tiny_proxy.RequestLine.Step.{RequestlineData, with_port}
use tiny_proxy.RequestLine.Run.{Parsed, accepted, rejected, overflowed, parse_requestline}
use tiny_proxy.Proxy.Buffer.{cstr}
use tiny_proxy.Proxy.Rio.{
  Read, got, eof, failed, Io, Run, done, fault, out_of_fuel, send, and_then, delete,
}
use tiny_proxy.Proxy.System.{System, note_new, close, control, reset_oneshot}
use tiny_proxy.Proxy.Header.{Header, ConnectionStatus}
use tiny_proxy.Proxy.Chunked.Loop.{fill_line, read_line}
use tiny_proxy.Proxy.Request.{clienterror, forward_requestheader}
use tiny_proxy.Proxy.Reply.{forward_reply, reply_nonconnection}
use tiny_proxy.Proxy.Relay.{connect_handler}

-- What the arrays and variables of `forward_requestheader` or `forward_reply`, and those of
-- `forward_chunked` below it, hold that are not initialised.
pub record Garbage : Type 0 where
  pub buf : Bytes
  pub version : Bytes
  pub header : Header
  pub contents : ℕ → Bytes
  pub chunk_buf : Bytes
  pub content_length : ℕ

-- The same of `doit` and what it calls; `positive` says whether `read_bytes` is.
pub record Uninitialised : Type 0 where
  pub line : Bytes
  pub positive : Bool
  pub rqdata : RequestlineData
  pub cstatus : ConnectionStatus
  pub request : Garbage
  pub reply : Garbage

-- `if(strlen(rqdata->port)==0) strcpy(rqdata->port, "80")`
abbrev pub default_port : RequestlineData → RequestlineData
default_port d = if str_eq d.port [] then with_port d (bytes "80") else d

-- The line that is sent to the server.
abbrev pub request_line : RequestlineData → Bytes
request_line d = d.method ++ (b' ' ∷ (d.loc ++ (b' ' ∷ (d.version ++ bytes "\r\n"))))

module _ (sys : System) where
  open sys use {rio}

  -- `Close` in the order of the arguments.
  abbrev pub close_both : (a b : ℕ) → Io rio → Io rio
  close_both a b io = close sys (pos b) (close sys (pos a) io)

  -- `epoll_ctl(epollfd, EPOLL_CTL_DEL, fd, NULL)`; an error is only printed.
  abbrev pub forget : ℤ → ℕ → Io rio → Io rio
  forget epollfd fd io = (control sys delete epollfd fd io).1

  -- The request line and the header of the request, to the server. The result of
  -- `forward_requestheader` is not used.
  abbrev pub forward_request :
      (fuel : ℕ)
      → Uninitialised
      → (rp serverfd : ℕ) → RequestlineData
      → Io rio
      → Run rio (ConnectionStatus × ℤ)
  forward_request fuel u rp serverfd d io =
      let g = u.request in
      forward_requestheader rio fuel serverfd rp d.host d.method g.buf g.header g.contents
        g.chunk_buf g.content_length u.cstatus (send rio serverfd (request_line d) io)

  -- HTTP/1.0
  unfoldable pub serve_once :
      (fuel : ℕ)
      → Uninitialised
      → (fd : ℕ) → ℤ
      → (rp serverfd rp_server : ℕ) → RequestlineData
      → Io rio
      → Run rio (Unit {0})
  unfolding forward_requestheader reply_nonconnection
  serve_once fuel u fd epollfd rp serverfd rp_server d io =
      and_then rio (forward_request fuel u rp serverfd d io) (λ _ i.
        and_then rio (reply_nonconnection rio fuel fd rp_server i)
          (λ _ j. done tt (close_both serverfd fd (forget epollfd fd j))))

  -- A return value that is greater than 0.
  abbrev pub read_positive : Read → Bool
  read_positive (got bs) = ltb 0 (length bs)
  read_positive eof = false
  read_positive (failed e bs) = false

  -- The loop that reads the rest of a CONNECT request.
  unfoldable pub skip_header : (fuel rp : ℕ) → Bytes → Bool → Io rio → Run rio (Unit {0})
  skip_header zero rp buf positive io = out_of_fuel
  skip_header (suc fuel) rp buf positive io =
      let (r, io') = read_line rio rp io in
      elim (not (str_eq (cstr buf) (bytes "\r\n")) && positive) [
        | true ↦ skip_header fuel rp (fill_line r buf) (read_positive r) io'
        | false ↦ done tt io
      ]

  unfoldable pub serve_connect :
      (fuel : ℕ)
      → Uninitialised
      → ℤ
      → (fd : ℕ) → ℤ
      → (rp serverfd : ℕ) → Bytes
      → Io rio
      → Run rio (Unit {0})
  unfolding skip_header connect_handler
  serve_connect fuel u main_epollfd fd epollfd rp serverfd buf io =
      and_then rio (skip_header fuel rp buf u.positive io) (λ _ i.
        connect_handler sys fuel main_epollfd fd serverfd
          (forget epollfd fd (send rio fd (bytes "HTTP/1.1 200 Connection established\r\n") i)))

  -- Behind the reply: the client's descriptor is closed or armed again.
  abbrev pub after_reply :
      ℤ → (fd serverfd : ℕ) → ConnectionStatus × Option ℤ → Io rio → Run rio (Unit {0})
  after_reply epollfd fd serverfd (c, _) io =
      let io' = close sys (pos serverfd) io in
      if c.client_setclose || c.client_shuttingdown
      then done tt (close sys (pos fd) (forget epollfd fd io'))
      else done tt (reset_oneshot sys epollfd fd io')

  -- GET or POST
  unfoldable pub serve_get :
      (fuel : ℕ)
      → Uninitialised
      → (fd : ℕ) → ℤ
      → (rp serverfd rp_server : ℕ) → RequestlineData
      → Io rio
      → Run rio (Unit {0})
  unfolding forward_requestheader forward_reply
  serve_get fuel u fd epollfd rp serverfd rp_server d io =
      and_then rio (forward_request fuel u rp serverfd d io) (λ (c, _) i.
        let g = u.reply in
        and_then rio
          (forward_reply rio fuel fd rp_server g.buf g.version g.header g.contents g.chunk_buf
            g.content_length c i)
          (after_reply epollfd fd serverfd))

  abbrev pub refuse_method : (fd : ℕ) → ℤ → (serverfd : ℕ) → Io rio → Run rio (Unit {0})
  refuse_method fd epollfd serverfd io = done tt (
      close_both serverfd fd
        (forget epollfd fd (clienterror rio fd (bytes "501") (bytes "Not implemented") io)))

  abbrev pub refuse_version : (fd : ℕ) → ℤ → (serverfd : ℕ) → Io rio → Run rio (Unit {0})
  refuse_version fd epollfd serverfd io = done tt (
      close_both fd serverfd
        (forget epollfd fd (clienterror rio fd (bytes "501") (bytes "Not implemented") io)))

  -- The version and the method.
  unfoldable pub serve :
      (fuel : ℕ)
      → Uninitialised
      → ℤ
      → (fd : ℕ) → ℤ
      → (rp serverfd rp_server : ℕ) → Bytes
      → RequestlineData
      → Io rio
      → Run rio (Unit {0})
  unfolding serve_once serve_connect serve_get
  serve fuel u main_epollfd fd epollfd rp serverfd rp_server buf d io =
      if str_eq d.version (bytes "HTTP/1.0")
      then serve_once fuel u fd epollfd rp serverfd rp_server d io
      else if str_eq d.version (bytes "HTTP/1.1")
      then (if strcase_eq d.method (bytes "CONNECT")
          then serve_connect fuel u main_epollfd fd epollfd rp serverfd buf io
          else if strcase_eq d.method (bytes "GET") || strcase_eq d.method (bytes "POST")
          then serve_get fuel u fd epollfd rp serverfd rp_server d io
          else refuse_method fd epollfd serverfd io)
      else refuse_version fd epollfd serverfd io

  abbrev pub start_server : ℕ → Io rio → ℕ × Io rio
  start_server fd io = let (rp, w) = sys.rio_readinitb fd io.world in (rp, record io { world = w })

  -- From what `open_clientfd` gave on.
  unfoldable pub after_open :
      (fuel : ℕ)
      → Uninitialised
      → ℤ
      → (fd : ℕ) → ℤ
      → (rp : ℕ) → Bytes
      → RequestlineData
      → Option ℕ × Io rio
      → Run rio (Unit {0})
  unfolding serve
  after_open fuel u main_epollfd fd epollfd rp buf d (none, io) =
      done tt (close sys (pos fd) (clienterror rio fd (bytes "404") (bytes "Not found") io))
  after_open fuel u main_epollfd fd epollfd rp buf d (some serverfd, io) =
      let (rp_server, io') = start_server serverfd io in
      serve fuel u main_epollfd fd epollfd rp serverfd rp_server buf d io'

  abbrev pub open_server : RequestlineData → Io rio → Option ℕ × Io rio
  open_server d io =
      let (r, w) = sys.open_clientfd d.host d.port io.world in
      (r, note_new sys r (record io { world = w }))

  -- From what `parse_requestline` gave on.
  unfoldable pub after_parse :
      (fuel : ℕ)
      → Uninitialised
      → ℤ
      → (fd : ℕ) → ℤ
      → (rp : ℕ) → Bytes
      → Io rio
      → Parsed
      → Run rio (Unit {0})
  unfolding after_open
  after_parse fuel u main_epollfd fd epollfd rp buf io overflowed = fault
  after_parse fuel u main_epollfd fd epollfd rp buf io (rejected d) =
      done tt (close sys (pos fd) (clienterror rio fd (bytes "400") (bytes "Bad request") io))
  after_parse fuel u main_epollfd fd epollfd rp buf io (accepted d) =
      let d' = default_port d in
      after_open fuel u main_epollfd fd epollfd rp buf d' (open_server d' io)

  -- From the read of the request line on. Its result is not tested.
  unfoldable pub after_request_line :
      (fuel : ℕ) → Uninitialised → ℤ → (fd : ℕ) → ℤ → (rp : ℕ) → Read × Io rio → Run rio (Unit {0})
  unfolding after_parse parse_requestline
  after_request_line fuel u main_epollfd fd epollfd rp (r, io) =
      let buf = fill_line r u.line in
      after_parse fuel u main_epollfd fd epollfd rp buf io (parse_requestline u.rqdata (cstr buf))

  -- The function, given the global `epollfd` as `main_epollfd`. `fuel` bounds each of the loops.
  unfoldable pub doit : (fuel : ℕ) → Uninitialised → ℤ → (fd : ℕ) → ℤ → Io rio → Run rio (Unit {0})
  unfolding after_request_line
  doit fuel u main_epollfd fd epollfd io =
      let (rp, io') = start_server fd io in
      after_request_line fuel u main_epollfd fd epollfd rp (read_line rio rp io')
