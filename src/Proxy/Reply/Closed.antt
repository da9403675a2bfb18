-- ===== src/Proxy/Reply/Closed.antt =====
-- `forward_reply` when the server closes the connection before the end of the header.
use tiny_proxy.Base.{
  ℕ, suc, ◌+◌, ◌≤◌, ◌≡◌, refl, sym, ap, ◌∙◌, Bool, true, false, some, List, [], ◌∷◌, ◌++◌, length,
  append-nil, append_assoc, if◌then◌else◌,
}
use tiny_proxy.Base.Int.{negsuc}
use tiny_proxy.CString.{Bytes, bytes, str_eq}
use tiny_proxy.Proxy.Buffer.{overlay, terminated, cstr, cstr-overlay}
use tiny_proxy.Proxy.Rio.{Rio, Stream, got, Call, wrote, Io, Run, done, send, maxline}
use tiny_proxy.Proxy.Header.Fields.{server_held}
use tiny_proxy.Proxy.Header.{Header, scan_word, ConnectionStatus}
use tiny_proxy.Proxy.Chunked.Chunk.{IsText, IsText-crlf, crlf}
use tiny_proxy.Proxy.Chunked.Forward.{read_text, read_line_lem}
use tiny_proxy.Proxy.Request.{close_line, proxy_close_line}
use tiny_proxy.Proxy.Request.Fields.{}
use tiny_proxy.Proxy.Reply.{
  ReplyLines, Reply, note_version, after_status, after_first_read, after_reply_header, reply_loop,
  forward_reply, reply_body, close_lines,
}

-- What is written behind the status line for a client that closes.
abbrev pub closing_sends : ℕ → Bool → List Call
closing_sends fd false = []
closing_sends fd true = wrote fd close_line ∷ wrote fd proxy_close_line ∷ []

either_client :
    (b : Bool) (c : ConnectionStatus)
    → (if b then record c { server_setclose = true } else c).client_setclose ≡ c.client_setclose
either_client true c = refl
either_client false c = refl

pub note_version-client :
    (line version : Bytes) (c : ConnectionStatus)
    → (note_version line version c).client_setclose ≡ c.client_setclose
unfolding note_version
note_version-client line version c =
    either_client (str_eq (scan_word version line) (bytes "HTTP/1.0")) c

either_held :
    (b : Bool) (c : ConnectionStatus)
    → server_held false (if b then record c { server_setclose = true } else c) ≡ server_held false c
either_held true c = refl
either_held false c = refl

pub note_version-held :
    (line version : Bytes) (c : ConnectionStatus)
    → server_held false (note_version line version c) ≡ server_held false c
unfolding note_version
note_version-held line version c =
    either_held (str_eq (scan_word version line) (bytes "HTTP/1.0")) c

module _ (rio : Rio) (rp : ℕ) (s : Stream rio rp) (fd : ℕ) where
  open s use {At, write, line_end}

  pub close_lines_lem :
      (b : Bool) (buf rest : Bytes) (io : Io rio)
      → At rest io.world
      → ((close_lines rio fd b buf io).1.log ≡ io.log ++ closing_sends fd b)
        × At rest (close_lines rio fd b buf io).1.world
  unfolding cstr
  close_lines_lem false buf rest io here = (sym (append-nil io.log), here)
  close_lines_lem true buf rest io here = (
    append_assoc io.log (wrote fd close_line ∷ []) (wrote fd proxy_close_line ∷ []),
    write fd proxy_close_line rest _ (write fd close_line rest io.world here),
  )

  loop_ends :
      (fuel : ℕ) (leave : ReplyLines → Io rio → Run rio Reply) (v : ReplyLines) (io : Io rio)
      → At [] io.world
      → (io' : Io rio) × (reply_loop rio (suc fuel) fd rp leave v io
          ≡ done (record v.cstatus { client_shuttingdown = true }, some (negsuc 0)) io')
        × (io'.log ≡ io.log)
  unfolding reply_loop after_reply_header
  loop_ends fuel leave v io here =
      let (w, e, there) = line_end io.world here in
      (
        record io { world = w },
        ap (after_reply_header rio fd (λ u i. reply_loop rio fuel fd rp leave u i) leave v)
            (read_line_lem rio rp s io e),
        refl,
      )

  after_status_closed :
      (fuel : ℕ) (version : Bytes) (header : Header) (leave : ReplyLines → Io rio → Run rio Reply)
      (c : ConnectionStatus) (buf line : Bytes) (io : Io rio)
      → cstr buf ≡ line
      → At [] io.world
      → (io' : Io rio) × (after_status rio (suc fuel) fd rp version header leave c buf io
          ≡ done
              (record (note_version line version c) { client_shuttingdown = true }, some (negsuc 0))
              io')
        × (io'.log ≡ io.log ++ (wrote fd line ∷ closing_sends fd c.client_setclose))
  unfolding after_status
  after_status_closed fuel version header leave c buf line io text here =
      let c' : ConnectionStatus = note_version (cstr buf) version c in
      let b : Bool = c'.client_setclose in
      let io1 : Io rio = send rio fd (cstr buf) io in
      let (l2, at2) = close_lines_lem b buf [] io1 (write fd (cstr buf) [] io.world here) in
      let v : ReplyLines = record {
        buf = (close_lines rio fd b buf io1).0;
        header = header;
        is_contentlength_set = false;
        cstatus = c';
      } in
      let (io3, e3, l3) = loop_ends fuel leave v (close_lines rio fd b buf io1).1 at2 in
      (
        io3,
        e3
            ∙ ap
                (λ x.
                  done
                    (
                      record (note_version x version c) { client_shuttingdown = true },
                      some (negsuc 0),
                    )
                    io3)
                text,
        l3
            ∙ l2
            ∙ append_assoc io.log (wrote fd (cstr buf) ∷ []) (closing_sends fd b)
            ∙ ap (λ x. io.log ++ (wrote fd x ∷ closing_sends fd b)) text
            ∙ ap (λ x. io.log ++ (wrote fd line ∷ closing_sends fd x))
                (note_version-client (cstr buf) version c),
      )

pub first_got :
    (rio : Rio) (fuel fd rp : ℕ) (version : Bytes) (header : Header)
    (leave : ReplyLines → Io rio → Run rio Reply) (c : ConnectionStatus) (buf bs : Bytes)
    (io : Io rio)
    → after_first_read rio fuel fd rp version header leave c buf (got bs, io)
      ≡ after_status rio fuel fd rp version header leave c (overlay (terminated bs) buf) io
unfolding after_first_read
first_got rio fuel fd rp version header leave c buf bs io = refl

-- Where the server sends a status line that fits in the array and closes the connection, and the fuel
-- is not 0: the line is written to the client as it came, and behind it, if `client_setclose` is
-- set, "Connection: close" and "Proxy-Connection: close". The function returns -1 and sets
-- `client_shuttingdown`. Of the other fields of the status only `server_setclose` may change: it is
-- set if the first word of the line is HTTP/1.0, or if the line has no word and the array for it
-- happens to hold HTTP/1.0.
pub forward_reply-closed :
    (rio : Rio) (rp : ℕ) (s : Stream rio rp) (fd fuel : ℕ) (l buf version : Bytes) (header : Header)
    (garbage : ℕ → Bytes) (chunk_buf : Bytes) (n : ℕ) (c : ConnectionStatus) (io : Io rio)
    → IsText l
    → length l + 3 ≤ maxline
    → s.At (l ++ crlf) io.world
    → (io' : Io rio) × (forward_reply rio
          (suc fuel)
          fd
          rp
          buf
          version
          header
          garbage
          chunk_buf
          n
          c
          io
        ≡ done
            (
              record (note_version (l ++ crlf) version c) { client_shuttingdown = true },
              some (negsuc 0),
            )
            io')
      × (io'.log ≡ io.log ++ (wrote fd (l ++ crlf) ∷ closing_sends fd c.client_setclose))
unfolding forward_reply
forward_reply-closed rio rp s fd fuel l buf version header garbage chunk_buf n c io text short
      here =
    let (w, e, there) = read_text rio rp s l [] io.world here text short in
    let array : Bytes = overlay (terminated (l ++ crlf)) buf in
    let leave : ReplyLines → Io rio → Run rio Reply =
      λ v i. reply_body rio (suc fuel) fd rp garbage chunk_buf n v i in
    let (io', e', l') =
      after_status_closed rio rp s fd fuel version header leave c array (l ++ crlf)
        (record io { world = w }) (cstr-overlay (l ++ crlf) buf (IsText-crlf l text)) there in
    (
      io',
      ap (after_first_read rio (suc fuel) fd rp version header leave c buf)
            (read_line_lem rio rp s io e)
          ∙ first_got rio (suc fuel) fd rp version header leave c buf (l ++ crlf)
              (record io { world = w })
          ∙ e',
      l',
    )
