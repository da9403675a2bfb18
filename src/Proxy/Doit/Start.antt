-- ===== src/Proxy/Doit/Start.antt =====
-- `doit` up to its branches: a request line arrives and is parsed, and the server is opened.
use tiny_proxy.Base.{ℕ, ◌+◌, ◌≤◌, ◌≡◌, refl, sym, ap, ◌∙◌, ◌∷◌, ◌++◌, length}
use tiny_proxy.Base.Int.{ℤ}
use tiny_proxy.CString.{Bytes}
use tiny_proxy.RequestLine.Step.{RequestlineData}
use tiny_proxy.RequestLine.Run.{parse_requestline, accepted}
use tiny_proxy.RequestLine.Grammar.{RequestLine, IsRequestLine, write, fields}
use tiny_proxy.RequestLine.Complete.{parse_requestline-write}
use tiny_proxy.Proxy.Buffer.{overlay, terminated, cstr-overlay}
use tiny_proxy.Proxy.Rio.{Stream, got, Io, maxline}
use tiny_proxy.Proxy.System.{System}
use tiny_proxy.Proxy.Chunked.Loop.{read_line}
use tiny_proxy.Proxy.Chunked.Chunk.{crlf, IsText, IsText-crlf}
use tiny_proxy.Proxy.Chunked.Forward.{read_text, read_line_lem}
use tiny_proxy.Proxy.Doit.{
  Uninitialised, default_port, after_open, open_server, after_parse, after_request_line, doit,
}

-- On the descriptor `fd` the line `l`, which fits in the array, and then `rest` are to be read.
pub record Requested (sys : System) {rp : ℕ} (client : Stream sys.rio rp) (fd : ℕ) (l rest : Bytes)
    (w : sys.rio.World) : Type 0 where
  pub start : sys.rio.World
  pub init : sys.rio_readinitb fd w ≡ (rp, start)
  pub here : client.At (l ++ (b'\r' ∷ b'\n' ∷ rest)) start
  pub text : IsText l
  pub short : length l + 3 ≤ maxline

module _ {sys : System} {rp : ℕ} (client : Stream sys.rio rp) (fuel : ℕ) (u : Uninitialised)
    (main_epollfd : ℤ) (fd : ℕ) (epollfd : ℤ) (l rest : Bytes) (io : Io sys.rio)
    (asked : Requested sys client fd l rest io.world) where
  open sys use {rio}

  -- The array with the request line.
  abbrev pub array : Bytes
  array = overlay (terminated (l ++ crlf)) u.line

  unfold_doit :
      doit sys fuel u main_epollfd fd epollfd io
      ≡ after_request_line sys fuel u main_epollfd fd epollfd rp
          (read_line rio rp (record io { world = asked.start }))
  unfolding doit
  unfold_doit =
      ap
        (λ x.
          after_request_line sys fuel u main_epollfd fd epollfd x.0
            (read_line rio x.0 (record io { world = x.1 })))
        asked.init

  line_lem :
      (i : Io rio)
      → after_request_line sys fuel u main_epollfd fd epollfd rp (got (l ++ crlf), i)
        ≡ after_parse sys fuel u main_epollfd fd epollfd rp array i
            (parse_requestline u.rqdata (l ++ crlf))
  unfolding after_request_line
  line_lem i =
      ap
        (λ x.
          after_parse sys fuel u main_epollfd fd epollfd rp array i (parse_requestline u.rqdata x))
        (cstr-overlay (l ++ crlf) u.line (IsText-crlf l asked.text))

  pub doit-line :
      (w : rio.World) × client.At rest w
      × (doit sys fuel u main_epollfd fd epollfd io
          ≡ after_parse sys fuel u main_epollfd fd epollfd rp array
              (record io { world = w })
              (parse_requestline u.rqdata (l ++ crlf)))
  doit-line =
      let (w, e, there) =
        read_text rio rp client l rest asked.start asked.here asked.text asked.short in
      (
        w,
        there,
        unfold_doit
            ∙ ap (after_request_line sys fuel u main_epollfd fd epollfd rp)
                (read_line_lem rio rp client (record io { world = asked.start }) e)
            ∙ line_lem (record io { world = w }),
      )

  parsed :
      (d : RequestlineData) (i : Io rio)
      → after_parse sys fuel u main_epollfd fd epollfd rp array i (accepted d)
        ≡ after_open sys fuel u main_epollfd fd epollfd rp array
            (default_port d)
            (open_server sys (default_port d) i)
  unfolding after_parse
  parsed d i = refl

  -- The line is one of the grammar.
  pub doit-request :
      (r : RequestLine)
      → IsRequestLine r
      → write r ≡ l ++ crlf
      → (w : rio.World) × client.At rest w
        × (doit sys fuel u main_epollfd fd epollfd io
            ≡ after_open sys fuel u main_epollfd fd epollfd rp array
                (default_port (fields r u.rqdata))
                (open_server sys (default_port (fields r u.rqdata)) (record io { world = w })))
  doit-request r is e =
      let (w, there, d) = doit-line in
      (
        w,
        there,
        d
            ∙ ap (after_parse sys fuel u main_epollfd fd epollfd rp array (record io { world = w }))
                (ap (parse_requestline u.rqdata) (sym e) ∙ parse_requestline-write r u.rqdata is)
            ∙ parsed (fields r u.rqdata) (record io { world = w }),
      )
