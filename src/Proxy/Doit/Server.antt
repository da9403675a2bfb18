-- ===== src/Proxy/Doit/Server.antt =====
-- A server that `doit` can reach, and `doit` up to the test of the version.
use tiny_proxy.Base.{ℕ, ◌≡◌, refl, ap, ◌∙◌, some, List, [], ◌∷◌, ◌++◌}
use tiny_proxy.Base.Int.{ℤ}
use tiny_proxy.CString.{Bytes}
use tiny_proxy.RequestLine.Step.{RequestlineData}
use tiny_proxy.RequestLine.Grammar.{RequestLine, IsRequestLine, write, fields}
use tiny_proxy.Proxy.Rio.{Stream, Call, opened, Io}
use tiny_proxy.Proxy.System.{System, note_new}
use tiny_proxy.Proxy.Buffer.{overlay, terminated}
use tiny_proxy.Proxy.Frame.{Keeps}
use tiny_proxy.Proxy.Chunked.Chunk.{crlf}
use tiny_proxy.Proxy.Doit.{Uninitialised, default_port, after_open, open_server, serve, doit}
use tiny_proxy.Proxy.Doit.Start.{Requested, doit-request}

-- `open_clientfd` connects to the host and port of `d` and gives `serverfd`, on which `reply` is to be
-- read up to its end. Reads from the client are none from the server.
pub record Answers (sys : System) {rp rp_server : ℕ} (client : Stream sys.rio rp)
    (server : Stream sys.rio rp_server) (d : RequestlineData) (serverfd : ℕ) (reply : Bytes)
    : Type 0 where
  pub connects :
      (bs : Bytes) (w : sys.rio.World)
      → client.At bs w
      → (w1 w2 : sys.rio.World) × (sys.open_clientfd d.host d.port w ≡ (some serverfd, w1))
        × (sys.rio_readinitb serverfd w1 ≡ (rp_server, w2))
        × client.At bs w2
        × server.At reply w2
  pub line_apart :
      (bs : Bytes) (w : sys.rio.World)
      → server.At bs w
      → server.At bs (sys.rio.rio_readlineb rp w).1
  pub block_apart :
      (bs : Bytes) (n : ℕ) (w : sys.rio.World)
      → server.At bs w
      → server.At bs (sys.rio.rio_readnb rp n w).1

module _ {sys : System} {rp rp_server : ℕ} (client : Stream sys.rio rp)
    (server : Stream sys.rio rp_server) where
  open sys use {rio}

  -- What reads of the client and writes leave of the reply.
  pub Answers-Keeps :
      (d : RequestlineData) (serverfd : ℕ) (reply : Bytes) (fd : ℕ)
      → Answers sys client server d serverfd reply
      → Keeps rio rp fd (λ i. server.At reply i.world)
  Answers-Keeps d serverfd reply fd a = record {
    line = λ i h. a.line_apart reply i.world h;
    block = λ n i h. a.block_apart reply n i.world h;
    write = λ bs i h. server.write fd bs reply i.world h;
  }

  module _ (fuel : ℕ) (u : Uninitialised) (main_epollfd : ℤ) (fd : ℕ) (epollfd : ℤ) where
    opened_lem :
        (buf rest reply : Bytes) (d : RequestlineData) (serverfd : ℕ) (io : Io rio)
        → Answers sys client server d serverfd reply
        → client.At rest io.world
        → (io' : Io rio) × (after_open sys fuel u main_epollfd fd epollfd rp buf d
              (open_server sys d io)
            ≡ serve sys fuel u main_epollfd fd epollfd rp serverfd rp_server buf d io')
          × (io'.log ≡ io.log ++ (opened serverfd ∷ []))
          × client.At rest io'.world
          × server.At reply io'.world
    unfolding after_open
    opened_lem buf rest reply d serverfd io a here =
        let (w1, w2, e1, e2, c, s) = a.connects rest io.world here in
        let l : List Call = io.log ++ (opened serverfd ∷ []) in
        (
          record { world = w2; log = l },
          ap
                (λ x.
                  after_open sys fuel u main_epollfd fd epollfd rp buf d
                    (x.0, note_new sys x.0 (record io { world = x.1 })))
                e1
              ∙ ap
                  (λ x.
                    serve sys fuel u main_epollfd fd epollfd rp serverfd x.0 buf d
                      (record { world = x.1; log = l }))
                  e2,
          refl,
          c,
          s,
        )

    -- The request line is read, and the server is open.
    pub doit-serve :
        (l rest reply : Bytes) (r : RequestLine) (serverfd : ℕ) (io : Io rio)
        → Requested sys client fd l rest io.world
        → IsRequestLine r
        → write r ≡ l ++ crlf
        → Answers sys client server (default_port (fields r u.rqdata)) serverfd reply
        → (io' : Io rio) × (doit sys fuel u main_epollfd fd epollfd io
            ≡ serve sys fuel u main_epollfd fd epollfd rp serverfd rp_server
                (overlay (terminated (l ++ crlf)) u.line)
                (default_port (fields r u.rqdata))
                io')
          × (io'.log ≡ io.log ++ (opened serverfd ∷ []))
          × client.At rest io'.world
          × server.At reply io'.world
    doit-serve l rest reply r serverfd io asked is e a =
        let (w, there, d) =
          doit-request client fuel u main_epollfd fd epollfd l rest io asked r is e in
        let (io', e', log, c, s) =
          opened_lem (overlay (terminated (l ++ crlf)) u.line) rest reply
            (default_port (fields r u.rqdata)) serverfd (record io { world = w }) a there in
        (io', d ∙ e', log, c, s)
