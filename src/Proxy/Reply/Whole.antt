-- ===== src/Proxy/Reply/Whole.antt =====
-- `forward_reply` on a whole reply.
use tiny_proxy.Base.{
  ℕ, suc, ◌+◌, ◌≤◌, ◌≡◌, sym, ap, ◌∙◌, subst, List, false, none, [], ◌∷◌, ◌++◌, length, All, arith,
  append_assoc,
}
use tiny_proxy.CString.{Bytes}
use tiny_proxy.Proxy.Buffer.{overlay, terminated, cstr, cstr-overlay}
use tiny_proxy.Proxy.Rio.{Rio, Stream, Call, wrote, Io, Run, done, send, maxline}
use tiny_proxy.Proxy.Header.{Header, ConnectionStatus}
use tiny_proxy.Proxy.Header.Scan.{Field}
use tiny_proxy.Proxy.Chunked.Chunk.{IsText, IsText-crlf, crlf}
use tiny_proxy.Proxy.Chunked.Forward.{read_text, read_line_lem}
use tiny_proxy.Proxy.Header.Fields.{
  Announced, announce_fields, any_field, is_close, forwarded, wire_fields, server_told, server_held,
  IsHeaderField,
}
use tiny_proxy.Proxy.Body.{Body, IsBody, wire_body, body_sends, body_status, body_rounds}
use tiny_proxy.Proxy.Reply.{
  ReplyLines, Reply, note_version, after_status, after_first_read, reply_loop, forward_reply,
  reply_body, close_lines,
}
use tiny_proxy.Proxy.Reply.Fields.{held}
use tiny_proxy.Proxy.Reply.Rounds.{reply_rounds, reply_end}
use tiny_proxy.Proxy.Reply.Body.{server_ended, bad_reply_line, reply_body-sends}
use tiny_proxy.Proxy.Reply.Closed.{
  closing_sends, close_lines_lem, note_version-client, note_version-held, first_got,
}

-- What the header announces.
abbrev pub reply_announced : List Field → ConnectionStatus → Announced
reply_announced fs c = announce_fields fs (server_held false c)

-- The status after the reply, of the status line `l` on.
abbrev pub reply_status : Bytes → List Field → Body → Bytes → ConnectionStatus → ConnectionStatus
reply_status l fs b version c = body_status server_ended b (
    server_told (reply_announced fs c) (any_field is_close fs) (note_version (l ++ crlf) version c))

-- What is written from the first field on.
abbrev pub rest_sends : ℕ → List Field → Announced → Body → List Call
rest_sends fd fs a b = forwarded fd fs ++ (wrote fd crlf ∷ body_sends fd bad_reply_line a b)

-- What is written for a reply.
abbrev pub reply_sends : ℕ → Bytes → List Field → Body → ConnectionStatus → List Call
reply_sends fd l fs b c =
    wrote fd (l ++ crlf)
    ∷ (closing_sends fd c.client_setclose ++ rest_sends fd fs (reply_announced fs c) b)

-- The reply as the server sends it, with what follows it.
abbrev pub wire_reply : Bytes → List Field → Body → ConnectionStatus → Bytes → Bytes
wire_reply l fs b c rest =
    l ++ (b'\r' ∷ b'\n' ∷ wire_fields fs (wire_body (reply_announced fs c) b rest))

module _ (rio : Rio) (rp : ℕ) (s : Stream rio rp) (fd : ℕ) where
  open s use {At, write}

  -- From the header lines on.
  header_and_body :
      (fs : List Field) (b : Body) (fuel : ℕ) (rest : Bytes) (garbage : ℕ → Bytes)
      (chunk_buf : Bytes) (n : ℕ) (v : ReplyLines) (io : Io rio)
      → All IsHeaderField fs
      → IsBody (announce_fields fs (held v)) b
      → At (wire_fields fs (wire_body (announce_fields fs (held v)) b rest)) io.world
      → (io' : Io rio) × (reply_loop rio
            (length fs + body_rounds b + suc fuel)
            fd
            rp
            (λ u i.
              reply_body rio (length fs + body_rounds b + suc fuel) fd rp garbage chunk_buf n u i)
            v
            io
          ≡ done
              (
                body_status server_ended b
                    (server_told (announce_fields fs (held v)) (any_field is_close fs) v.cstatus),
                none,
              )
              io')
        × (io'.log ≡ io.log ++ rest_sends fd fs (announce_fields fs (held v)) b)
        × At rest io'.world
  header_and_body fs b fuel rest garbage chunk_buf n v io is body here =
      let whole : ℕ = length fs + body_rounds b + suc fuel in
      let leave : ReplyLines → Io rio → Run rio Reply =
        λ u i. reply_body rio whole fd rp garbage chunk_buf n u i in
      let target : Announced = announce_fields fs (held v) in
      let (v1, io1, e1, n1, c1, l1, at1) =
        reply_rounds rio rp s fd leave fs (suc (body_rounds b + fuel)) _ v io is here in
      let (v2, io2, e2, n2, c2, l2, at2) =
        reply_end rio rp s fd leave (body_rounds b + fuel) _ v1 io1 at1 in
      let same : target ≡ held v2 = sym (n2 ∙ n1) in
      let (io3, e3, l3, at3) =
        reply_body-sends rio rp s fd garbage chunk_buf n b (length fs + fuel) rest v2 io2
          (subst (λ x. IsBody x b) same body)
          (subst (λ (x : Announced). At (wire_body x b rest) io2.world) same at2) in
      (
        io3,
        ap (λ x. reply_loop rio x fd rp leave v io) (omega arith)
            ∙ e1
            ∙ e2
            ∙ ap (λ x. reply_body rio x fd rp garbage chunk_buf n v2 io2) (omega arith)
            ∙ e3
            ∙ ap (λ (x : ConnectionStatus). done (body_status server_ended b x, none) io3)
                (c2 ∙ c1),
        l3
            ∙ ap (λ (x : Announced). io2.log ++ body_sends fd bad_reply_line x b) (sym same)
            ∙ ap (λ x. x ++ body_sends fd bad_reply_line target b)
                (l2 ∙ ap (λ x. x ++ (wrote fd crlf ∷ [])) l1)
            ∙ append_assoc (io.log ++ forwarded fd fs) (wrote fd crlf ∷ []) _
            ∙ append_assoc io.log (forwarded fd fs) _,
        at3,
      )

  -- From the status line on.
  after_status-sends :
      (l : Bytes) (fs : List Field) (b : Body) (fuel : ℕ) (rest version : Bytes) (header : Header)
      (garbage : ℕ → Bytes) (chunk_buf : Bytes) (n : ℕ) (c : ConnectionStatus) (buf : Bytes)
      (io : Io rio)
      → All IsHeaderField fs
      → IsBody (reply_announced fs c) b
      → cstr buf ≡ l ++ crlf
      → At (wire_fields fs (wire_body (reply_announced fs c) b rest)) io.world
      → (io' : Io rio) × (after_status rio
            (length fs + body_rounds b + suc fuel)
            fd
            rp
            version
            header
            (λ u i.
              reply_body rio (length fs + body_rounds b + suc fuel) fd rp garbage chunk_buf n u i)
            c
            buf
            io
          ≡ done (reply_status l fs b version c, none) io')
        × (io'.log ≡ io.log ++ reply_sends fd l fs b c)
        × At rest io'.world
  unfolding after_status
  after_status-sends l fs b fuel rest version header garbage chunk_buf n c buf io is body text
        here =
      let whole : ℕ = length fs + body_rounds b + suc fuel in
      let leave : ReplyLines → Io rio → Run rio Reply =
        λ u i. reply_body rio whole fd rp garbage chunk_buf n u i in
      let line : Bytes = l ++ crlf in
      let c' : ConnectionStatus = note_version line version c in
      let a : Announced = reply_announced fs c in
      let a' : Announced = reply_announced fs c' in
      let same : a ≡ a' = ap (announce_fields fs) (sym (note_version-held line version c)) in
      let io1 : Io rio = send rio fd line io in
      let (l1, at1) =
        close_lines_lem rio rp s fd c'.client_setclose buf _ io1 (write fd line _ io.world here) in
      let (buf', io2) = close_lines rio fd c'.client_setclose buf io1 in
      let v : ReplyLines = record {
        buf = buf';
        header = header;
        is_contentlength_set = false;
        cstatus = c';
      } in
      let (io3, e3, l3, at3) =
        header_and_body fs b fuel rest garbage chunk_buf n v io2 is
          (subst (λ (x : Announced). IsBody x b) same body)
          (subst (λ (x : Announced). At (wire_fields fs (wire_body x b rest)) io2.world) same
            at1) in
      (
        io3,
        ap
              (λ x.
                let y : ConnectionStatus = note_version x version c in
                let (b', i') = close_lines rio fd y.client_setclose buf (send rio fd x io) in
                reply_loop rio whole fd rp leave
                  (record { buf = b'; header = header; is_contentlength_set = false; cstatus = y })
                  i')
              text
            ∙ e3
            ∙ ap
                (λ (x : Announced).
                  done (body_status server_ended b (server_told x (any_field is_close fs) c'), none)
                    io3)
                (sym same),
        l3
            ∙ ap (λ (x : Announced). io2.log ++ rest_sends fd fs x b) (sym same)
            ∙ ap (λ x. x ++ rest_sends fd fs a b) l1
            ∙ append_assoc io1.log (closing_sends fd c'.client_setclose) _
            ∙ append_assoc io.log (wrote fd line ∷ []) _
            ∙ ap (λ x. io.log ++ (wrote fd line ∷ (closing_sends fd x ++ rest_sends fd fs a b)))
                (note_version-client line version c),
        at3,
      )

  -- On a whole reply, a status line, any well-formed fields and the body that they announce, chunked
  -- or of a given length below 2^31 - 1, or none: the function reads it to its end and no further,
  -- and returns, if the fuel is more than the numbers of the fields and the chunks together. It has
  -- written the status line, "Connection: close" and "Proxy-Connection: close" if
  -- `client_setclose` is set, the lines of all fields other than these two as they came and in their
  -- order, the empty line, and the body, of a chunked one without the size lines; in place of a body
  -- that is not announced, a status line with the code 400. The status holds what the fields said,
  -- the last one of each name; where no body was announced both sides are marked to be closed, and
  -- for a length of 0 the server is marked as shutting down.
  pub forward_reply-sends :
      (l : Bytes) (fs : List Field) (b : Body) (fuel : ℕ) (rest buf version : Bytes)
      (header : Header) (garbage : ℕ → Bytes) (chunk_buf : Bytes) (n : ℕ) (c : ConnectionStatus)
      (io : Io rio)
      → IsText l
      → length l + 3 ≤ maxline
      → All IsHeaderField fs
      → IsBody (reply_announced fs c) b
      → At (wire_reply l fs b c rest) io.world
      → (io' : Io rio) × (forward_reply rio
            (length fs + body_rounds b + suc fuel)
            fd
            rp
            buf
            version
            header
            garbage
            chunk_buf
            n
            c
            io
          ≡ done (reply_status l fs b version c, none) io')
        × (io'.log ≡ io.log ++ reply_sends fd l fs b c)
        × At rest io'.world
  unfolding forward_reply
  forward_reply-sends l fs b fuel rest buf version header garbage chunk_buf n c io text short is
        body here =
      let whole : ℕ = length fs + body_rounds b + suc fuel in
      let leave : ReplyLines → Io rio → Run rio Reply =
        λ u i. reply_body rio whole fd rp garbage chunk_buf n u i in
      let line : Bytes = l ++ crlf in
      let (w, e, there) = read_text rio rp s l _ io.world here text short in
      let io1 : Io rio = record io { world = w } in
      let (io', e', log, at) =
        after_status-sends l fs b fuel rest version header garbage chunk_buf n c
          (overlay (terminated line) buf) io1 is body (cstr-overlay line buf (IsText-crlf l text))
          there in
      (
        io',
        ap (after_first_read rio whole fd rp version header leave c buf)
              (read_line_lem rio rp s io e)
            ∙ first_got rio whole fd rp version header leave c buf line io1
            ∙ e',
        log,
        at,
      )
