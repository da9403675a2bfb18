-- ===== src/Proxy/Ledger/Handled.antt =====
-- What `doit` leaves open, among any descriptors that are open when it starts.
use tiny_proxy.Base.{
  ℕ, zero, suc, ◌≡◌, refl, Bool, true, false, not, ◌&&◌, ◌||◌, Option, none, some, List, [], ◌∷◌,
  ◌++◌, ◌⊎◌, inl, inr, ◌==◌, ==_same, ==_flip,
}
use tiny_proxy.Base.Int.{ℤ, pos, negsuc, ◌==ℤ◌}
use tiny_proxy.CString.{Bytes, bytes, str_eq, strcase_eq}
use tiny_proxy.RequestLine.Step.{RequestlineData}
use tiny_proxy.RequestLine.Run.{Parsed, accepted, rejected, overflowed}
use tiny_proxy.Proxy.Buffer.{cstr}
use tiny_proxy.Proxy.Rio.{Read, Call, controlled, rearm, delete, Io, send}
use tiny_proxy.Proxy.System.{System, note_new, close}
use tiny_proxy.Proxy.Request.{clienterror}
use tiny_proxy.Proxy.Reply.{Reply}
use tiny_proxy.Proxy.Frame.{
  Ensures, Keeps, Ensures-if, Ensures-elim, Ensures-weaken, Ensures-and_then,
}
use tiny_proxy.Proxy.Frame.Request.{forward_requestheader-Ensures}
use tiny_proxy.Proxy.Frame.Reply.{forward_reply-Ensures, reply_nonconnection-Ensures}
use tiny_proxy.Proxy.Doit.{
  Uninitialised, default_port, request_line, close_both, forget, forward_request, serve_once,
  skip_header, serve_connect, after_reply, serve_get, serve, after_open, after_parse,
  after_request_line, doit,
}
use tiny_proxy.Proxy.Ledger.{
  Descriptors, Ledger, Ledger-world, Ledger-same, Ledger-Keeps, Ledger-write, Ledger-control,
  Ledger-close, Ledger-open, new_lem, with_fd, without,
}
use tiny_proxy.Proxy.Ledger.Relay.{connect_handler-Ensures}
use tiny_proxy.Proxy.Ledger.Sets.{
  apart_from, server_closed, server_first_closed, client_first_closed,
}

-- Since `first`, when the descriptors of `start` were open: those of `mine` other than `fd` are still
-- open, and `fd` is, if it has been armed again at last.
abbrev pub Handled :
    {sys : System}
    → Descriptors sys
    → Io sys.rio
    → (start mine : ℕ → Bool) (fd : ℕ) → ℤ
    → Io sys.rio
    → Type 0
Handled ds first start mine fd epollfd io =
    Ledger ds first start (without mine fd) io
    ⊎ (Ledger ds first start mine io
        × (l : List Call) × (io.log ≡ l ++ (controlled rearm epollfd fd ∷ [])))

module _ {sys : System} (ds : Descriptors sys) (first : Io sys.rio) (start mine : ℕ → Bool) (fd : ℕ)
    (mine_open : mine fd ≡ true) (ep : ℕ) (ep_open : mine ep ≡ true)
    (creates : (w : sys.rio.World) → (e : ℕ) × ((sys.epoll_create1 w).0 ≡ pos e)) where
  open sys use {rio}

  abbrev epollfd : ℤ
  epollfd = pos ep

  abbrev Left : Io rio → Type 0
  Left = Handled ds first start mine fd epollfd

  module _ (rp : ℕ) (of_client : ds.fd_of rp ≡ fd) (server rp_server : ℕ)
      (of_server : ds.fd_of rp_server ≡ server) (new : mine server ≡ false) where
    abbrev now : ℕ → Bool
    now = with_fd mine server

    abbrev Now : Io rio → Type 0
    Now = Ledger ds first start now

    fd_open : now fd ≡ true
    fd_open = rw mine_open refl

    ep_still : now ep ≡ true
    ep_still = rw ep_open refl

    server_open : now server ≡ true
    server_open = rw (==_same server, new) refl

    differ : (server == fd) ≡ false
    differ = apart_from mine server fd mine_open new

    fd_left : without now server fd ≡ true
    fd_left = rw (mine_open, ==_flip server fd differ) refl

    server_left : without now fd server ≡ true
    server_left = rw (==_same server, new, differ) refl

    to_server : Keeps rio rp server Now
    to_server = Ledger-Keeps ds first start now rp fd server of_client fd_open server_open

    to_client : Keeps rio rp_server fd Now
    to_client = Ledger-Keeps ds first start now rp_server server fd of_server server_open fd_open

    answers : (bs : Bytes) (io : Io rio) → Now io → Now (send rio fd bs io)
    answers bs io l = Ledger-write ds first start now fd bs io fd_open l

    forget-Now : (io : Io rio) → Now io → Now (forget sys epollfd fd io)
    forget-Now io l = Ledger-control ds first start now delete ep fd io ep_still fd_open l

    server_first : (io : Io rio) → Now io → Left (close_both sys server fd io)
    server_first io l = inl (
        Ledger-same ds first start _ (without mine fd) _ (server_first_closed mine server fd new) (
          Ledger-close ds first start (without now server) fd _ fd_left
            (Ledger-close ds first start now server io server_open l)))

    client_first : (io : Io rio) → Now io → Left (close_both sys fd server io)
    client_first io l = inl (
        Ledger-same ds first start _ (without mine fd) _ (client_first_closed mine server fd new) (
          Ledger-close ds first start (without now fd) server _ server_left
            (Ledger-close ds first start now fd io fd_open l)))

    forward_request-Now :
        (fuel : ℕ) (u : Uninitialised) (d : RequestlineData) (io : Io rio)
        → Now io
        → Ensures Now (forward_request sys fuel u rp server d io)
    forward_request-Now fuel u d io l =
        let g = u.request in
        forward_requestheader-Ensures to_server fuel d.host d.method g.buf g.header g.contents
          g.chunk_buf g.content_length u.cstatus _ (to_server.write (request_line d) io l)

    serve_once-Handled :
        (fuel : ℕ) (u : Uninitialised) (d : RequestlineData) (io : Io rio)
        → Now io
        → Ensures Left (serve_once sys fuel u fd epollfd rp server rp_server d io)
    unfolding serve_once
    serve_once-Handled fuel u d io l =
        Ensures-and_then Now Left _ _ (forward_request-Now fuel u d io l) (λ _ i li.
          Ensures-and_then Now Left _ _ (reply_nonconnection-Ensures to_client fuel i li)
            (λ _ j lj. server_first _ (forget-Now j lj)))

    skip_header-Now :
        (fuel : ℕ) (buf : Bytes) (positive : Bool) (io : Io rio)
        → Now io
        → Ensures Now (skip_header sys fuel rp buf positive io)
    unfolding skip_header
    skip_header-Now zero buf positive io l = tt
    skip_header-Now (suc fuel) buf positive io l =
        Ensures-elim Now (not (str_eq (cstr buf) (bytes "\r\n")) && positive) _ _
          (skip_header-Now fuel _ _ _ (to_server.line io l)) l

    serve_connect-Handled :
        (fuel : ℕ) (u : Uninitialised) (main_epollfd : ℤ) (buf : Bytes) (io : Io rio)
        → (main_epollfd ==ℤ negsuc 0) ≡ false
        → Now io
        → Ensures Left (serve_connect sys fuel u main_epollfd fd epollfd rp server buf io)
    unfolding serve_connect
    serve_connect-Handled fuel u main_epollfd buf io made l =
        Ensures-and_then Now Left _ _ (skip_header-Now fuel buf u.positive io l) (λ _ i li.
          Ensures-weaken (Ledger ds first start (without (without now fd) server)) Left _
            (λ j lj. inl (
              Ledger-same ds first start _ (without mine fd) j
                (client_first_closed mine server fd new) lj))
            (connect_handler-Ensures ds first start now fd server fd_open server_open differ fuel
              main_epollfd (creates _).0 _ made (creates _).1 (forget-Now _ (answers _ i li))))

    close_server : (io : Io rio) → Now io → Ledger ds first start mine (close sys (pos server) io)
    close_server io l =
        Ledger-same ds first start (without now server) mine _ (server_closed mine server new)
          (Ledger-close ds first start now server io server_open l)

    after_reply-Handled :
        (r : Reply) (io : Io rio) → Now io → Ensures Left (after_reply sys epollfd fd server r io)
    after_reply-Handled (c, x) io l =
        Ensures-if Left (c.client_setclose || c.client_shuttingdown) _ _
          (inl (
            Ledger-close ds first start mine fd _ mine_open (
              Ledger-control ds first start mine delete ep fd _ ep_open mine_open
                (close_server io l))))
          (inr (
            Ledger-control ds first start mine rearm ep fd _ ep_open mine_open (close_server io l),
            _,
            refl,
          ))

    serve_get-Handled :
        (fuel : ℕ) (u : Uninitialised) (d : RequestlineData) (io : Io rio)
        → Now io
        → Ensures Left (serve_get sys fuel u fd epollfd rp server rp_server d io)
    unfolding serve_get
    serve_get-Handled fuel u d io l =
        Ensures-and_then Now Left _ _ (forward_request-Now fuel u d io l) (λ (c, _) i li.
          let g = u.reply in
          Ensures-and_then Now Left _ _
            (forward_reply-Ensures to_client fuel g.buf g.version g.header g.contents g.chunk_buf
              g.content_length c i li)
            after_reply-Handled)

    serve-Handled :
        (fuel : ℕ) (u : Uninitialised) (main_epollfd : ℤ) (buf : Bytes) (d : RequestlineData)
        (io : Io rio)
        → (main_epollfd ==ℤ negsuc 0) ≡ false
        → Now io
        → Ensures Left (serve sys fuel u main_epollfd fd epollfd rp server rp_server buf d io)
    unfolding serve
    serve-Handled fuel u main_epollfd buf d io made l =
        Ensures-if Left (str_eq d.version (bytes "HTTP/1.0")) _ _ (serve_once-Handled fuel u d io l)
          (Ensures-if Left (str_eq d.version (bytes "HTTP/1.1")) _ _
            (Ensures-if Left (strcase_eq d.method (bytes "CONNECT")) _ _
              (serve_connect-Handled fuel u main_epollfd buf io made l)
              (Ensures-if Left
                (strcase_eq d.method (bytes "GET") || strcase_eq d.method (bytes "POST")) _ _
                (serve_get-Handled fuel u d io l) (server_first _ (forget-Now _ (answers _ io l)))))
            (client_first _ (forget-Now _ (answers _ io l))))

  -- Before `open_clientfd`.
  abbrev Alone : Io rio → Type 0
  Alone = Ledger ds first start mine

  refused :
      (errnum shortmsg : Bytes) (io : Io rio)
      → Alone io
      → Left (close sys (pos fd) (clienterror rio fd errnum shortmsg io))
  refused errnum shortmsg io l = inl (
      Ledger-close ds first start mine fd _ mine_open
        (Ledger-write ds first start mine fd _ io mine_open l))

  after_open-Handled :
      (fuel : ℕ) (u : Uninitialised) (main_epollfd : ℤ) (rp : ℕ) (buf : Bytes) (d : RequestlineData)
      (r : Option ℕ) (io : Io rio)
      → (main_epollfd ==ℤ negsuc 0) ≡ false
      → ds.fd_of rp ≡ fd
      → (sys.open_clientfd d.host d.port io.world).0 ≡ r
      → Alone io
      → Ensures Left (
          after_open sys fuel u main_epollfd fd epollfd rp buf d (
            r,
            note_new sys r (record io { world = (sys.open_clientfd d.host d.port io.world).1 }),
          ))
  unfolding after_open
  after_open-Handled fuel u main_epollfd rp buf d none io made of e l =
      refused (bytes "404") (bytes "Not found") _ (
        Ledger-world ds first start mine io _ l (λ a. ds.after_open a d.host d.port io.world)
          (ds.sound_open d.host d.port io.world l.4))
  after_open-Handled fuel u main_epollfd rp buf d (some server) io made of e l =
      let (is_open, fresh) = ds.open_new d.host d.port io.world server e in
      let new = new_lem ds first start mine server io l fresh in
      let l' =
        Ledger-open ds first start mine server io _ l new is_open
          (λ a. ds.after_open a d.host d.port io.world)
          (ds.sound_open d.host d.port io.world l.4) in
      serve-Handled rp of server _ (ds.init_fd server _) new fuel u main_epollfd buf d _ made (
        Ledger-world ds first start (with_fd mine server) _ _ l' (λ a. ds.after_init a server _)
          (ds.sound_init server _ is_open l'.4))

  after_parse-Handled :
      (fuel : ℕ) (u : Uninitialised) (main_epollfd : ℤ) (rp : ℕ) (buf : Bytes) (io : Io rio)
      (r : Parsed)
      → (main_epollfd ==ℤ negsuc 0) ≡ false
      → ds.fd_of rp ≡ fd
      → Alone io
      → Ensures Left (after_parse sys fuel u main_epollfd fd epollfd rp buf io r)
  unfolding after_parse
  after_parse-Handled fuel u main_epollfd rp buf io overflowed made of l = tt
  after_parse-Handled fuel u main_epollfd rp buf io (rejected d) made of l =
      refused (bytes "400") (bytes "Bad request") io l
  after_parse-Handled fuel u main_epollfd rp buf io (accepted d) made of l =
      let d' = default_port d in
      after_open-Handled fuel u main_epollfd rp buf d' _ io made of refl l

  after_request_line-Handled :
      (fuel : ℕ) (u : Uninitialised) (main_epollfd : ℤ) (rp : ℕ) (q : Read × Io rio)
      → (main_epollfd ==ℤ negsuc 0) ≡ false
      → ds.fd_of rp ≡ fd
      → Alone q.1
      → Ensures Left (after_request_line sys fuel u main_epollfd fd epollfd rp q)
  unfolding after_request_line
  after_request_line-Handled fuel u main_epollfd rp (r, io) made of l =
      after_parse-Handled fuel u main_epollfd rp _ io _ made of l

  pub doit-Handled :
      (fuel : ℕ) (u : Uninitialised) (main_epollfd : ℤ) (io : Io rio)
      → (main_epollfd ==ℤ negsuc 0) ≡ false
      → Alone io
      → Ensures Left (doit sys fuel u main_epollfd fd epollfd io)
  unfolding doit
  doit-Handled fuel u main_epollfd io made l =
      let l0 =
        Ledger-world ds first start mine io _ l (λ a. ds.after_init a fd io.world)
          (ds.sound_init fd io.world (l.3 fd mine_open) l.4) in
      let of : ds.fd_of (sys.rio_readinitb fd io.world).0 ≡ fd = ds.init_fd fd io.world in
      after_request_line-Handled fuel u main_epollfd _ _ made of
        ((Ledger-Keeps ds first start mine _ fd fd of mine_open mine_open).line _ l0)
