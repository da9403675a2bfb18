-- ===== src/Proxy/Request/Forward.antt =====
-- What `forward_requestheader` forwards of the header of a request.
use tiny_proxy.Base.{
  ℕ, suc, ◌+◌, ◌≡◌, refl, ap, ◌∙◌, List, Bool, true, false, ◌||◌, [], ◌∷◌, ◌++◌, ◌==◌, length, All,
  arith, append_assoc,
}
use tiny_proxy.Base.Int.{ℤ, pos}
use tiny_proxy.CString.{Bytes, bytes, str_eq}
use tiny_proxy.Proxy.Rio.{Rio, Stream, Call, wrote, Io, Run, done, send}
use tiny_proxy.Proxy.Buffer.{overlay, terminated, cstr, cstr-overlay}
use tiny_proxy.Proxy.Header.{Header, ConnectionStatus}
use tiny_proxy.Proxy.Header.Scan.{Field}
use tiny_proxy.Proxy.Chunked.Chunk.{crlf}
use tiny_proxy.Proxy.Chunked.Forward.{read_text, read_line_lem}
use tiny_proxy.Proxy.Request.{
  Lines, close_line, proxy_close_line, on_line, after_header, request_loop, end_of_header,
  request_body, forward_requestheader,
}
use tiny_proxy.Proxy.Header.Fields.{
  is_host, is_close, IsPlain, IsHeaderField, All-IsHeaderField, any_field, forwarded, wire_fields,
  Announced, announce_fields, announce_fields_plain, client_told, client_held,
}
use tiny_proxy.Proxy.Request.Fields.{held}
use tiny_proxy.Proxy.Request.Rounds.{field_rounds}

-- What is written at the empty line.
abbrev pub ending : ℕ → Bytes → Bool → List Call
ending fd host true = wrote fd crlf ∷ []
ending fd host false = wrote fd (bytes "Host: " ++ host) ∷ wrote fd (bytes "Host: " ++ host) ∷ []

abbrev pub IsString : Bytes → Type 0
IsString b = All (λ c. (c == 0) ≡ false) b

cstr-host :
    (host buf : Bytes)
    → IsString host
    → cstr (overlay (terminated (bytes "Host: " ++ host)) buf) ≡ bytes "Host: " ++ host
cstr-host host buf h =
    cstr-overlay (bytes "Host: " ++ host) buf (refl, (refl, (refl, (refl, (refl, (refl, h))))))

module _ (rio : Rio) (rp : ℕ) (s : Stream rio rp) (fd : ℕ) (host : Bytes)
    (is_host : IsString host) where
  open s use {At, write}

  end_of_header_lem :
      (b : Bool) (v : Lines) (io : Io rio) (rest : Bytes)
      → v.is_host_set ≡ b
      → cstr v.buf ≡ crlf
      → At rest io.world
      → ((end_of_header rio fd host v io).log ≡ io.log ++ ending fd host b)
        × At rest (end_of_header rio fd host v io).world
  unfolding end_of_header
  end_of_header_lem true v io rest set text here =
      rw (set, text) (refl, write fd crlf rest io.world here)
  end_of_header_lem false v io rest set text here =
      let line : Bytes = bytes "Host: " ++ host in
      rw (set, cstr-host host v.buf is_host)
        (append_assoc io.log _ _, write fd line rest _ (write fd line rest io.world here))

  on_line_end :
      (k leave : Lines → Io rio → Run rio (ConnectionStatus × ℤ)) (v : Lines) (io : Io rio)
      → cstr v.buf ≡ crlf
      → on_line rio fd host k leave v io ≡ leave v (end_of_header rio fd host v io)
  unfolding on_line str_eq
  on_line_end k leave v io text =
      let last : str_eq (cstr v.buf) (bytes "\r\n") ≡ true =
        ap (λ x. str_eq x (bytes "\r\n")) text in
      rw last refl

  -- The round of the empty line.
  end_round :
      (fuel : ℕ) (leave : Lines → Io rio → Run rio (ConnectionStatus × ℤ)) (rest : Bytes)
      (v : Lines) (io : Io rio)
      → At (b'\r' ∷ b'\n' ∷ rest) io.world
      → (v' : Lines) × (io' : Io rio) × (request_loop rio (suc fuel) fd rp host leave v io
          ≡ leave v' io')
        × (held v' ≡ held v)
        × (v'.cstatus ≡ v.cstatus)
        × (v'.is_host_set ≡ v.is_host_set)
        × (io'.log ≡ io.log ++ ending fd host v.is_host_set)
        × At rest io'.world
  unfolding request_loop after_header on_line
  end_round fuel leave rest v io here =
      let (w, e, there) = read_text rio rp s [] rest io.world here tt (omega arith) in
      let u : Lines = record v { buf = overlay (terminated crlf) v.buf } in
      let io1 : Io rio = record io { world = w } in
      let k : Lines → Io rio → Run rio (ConnectionStatus × ℤ) =
        λ a i. request_loop rio fuel fd rp host leave a i in
      let text : cstr u.buf ≡ crlf = cstr-overlay crlf v.buf (refl, (refl, tt)) in
      let (l, at) = end_of_header_lem v.is_host_set u io1 rest refl text there in
      (
        u,
        end_of_header rio fd host u io1,
        ap (after_header rio fd host k leave v) (read_line_lem rio rp s io e)
            ∙ on_line_end k leave u io1 text,
        refl,
        refl,
        refl,
        l,
        at,
      )

-- What is written to the server for a request with these fields.
abbrev pub header_sends : ℕ → Bytes → List Field → List Call
header_sends fd host fs =
    wrote fd close_line
    ∷ wrote fd proxy_close_line
    ∷ (forwarded fd fs ++ ending fd host (any_field is_host fs))

-- What the header announces.
abbrev pub request_announced : List Field → ConnectionStatus → Announced
request_announced fs c = announce_fields fs (client_held false c)

request_body_plain :
    (rio : Rio) (fuel fd rp : ℕ) (method : Bytes) (garbage : ℕ → Bytes) (chunk_buf : Bytes) (n : ℕ)
    (v : Lines) (io : Io rio)
    → str_eq method (bytes "POST") ≡ false
    → request_body rio fuel fd rp method garbage chunk_buf n v io ≡ done (v.cstatus, pos 0) io
unfolding request_body
request_body_plain rio fuel fd rp method garbage chunk_buf n v io not_post = rw not_post refl

module _ (rio : Rio) (rp : ℕ) (s : Stream rio rp) (fd : ℕ) where
  open s use {At, write}

  -- Up to the empty line.
  pub forward_requestheader-header :
      (fs : List Field) (fuel : ℕ) (host method rest buf : Bytes) (header : Header)
      (garbage : ℕ → Bytes) (chunk_buf : Bytes) (n : ℕ) (c : ConnectionStatus) (io : Io rio)
      → IsString host
      → All IsHeaderField fs
      → At (wire_fields fs rest) io.world
      → (v : Lines) × (io' : Io rio) × (forward_requestheader rio
            (length fs + suc fuel)
            fd
            rp
            host
            method
            buf
            header
            garbage
            chunk_buf
            n
            c
            io
          ≡ request_body rio (length fs + suc fuel) fd rp method garbage chunk_buf n v io')
        × (held v ≡ request_announced fs c)
        × (v.cstatus ≡ client_told (request_announced fs c) (any_field is_close fs) c)
        × (io'.log ≡ io.log ++ header_sends fd host fs)
        × At rest io'.world
  unfolding forward_requestheader cstr
  forward_requestheader-header fs fuel host method rest buf header garbage chunk_buf n c io
        is_string is here =
      let leave : Lines → Io rio → Run rio (ConnectionStatus × ℤ) =
        λ v i. request_body rio (length fs + suc fuel) fd rp method garbage chunk_buf n v i in
      let io0 : Io rio = send rio fd proxy_close_line (send rio fd close_line io) in
      let v0 : Lines = record {
        buf = overlay (terminated proxy_close_line) (overlay (terminated close_line) buf);
        header = header;
        is_host_set = false;
        is_contentlength_set = false;
        cstatus = c;
      } in
      let here0 : At (wire_fields fs rest) io0.world =
        write fd proxy_close_line _ _ (write fd close_line _ io.world here) in
      let (v1, io1, e1, h1, n1, c1, l1, at1) =
        field_rounds rio rp s fd host leave fs (suc fuel) rest v0 io0 is here0 in
      let (v2, io2, e2, n2, c2, h2, l2, at2) =
        end_round rio rp s fd host is_string fuel leave rest v1 io1 at1 in
      let last : List Call = ending fd host (any_field is_host fs) in
      (
        v2,
        io2,
        e1 ∙ e2,
        n2 ∙ n1,
        c2 ∙ c1,
        l2
            ∙ ap (λ b. io1.log ++ ending fd host b) h1
            ∙ ap (λ x. x ++ last) l1
            ∙ append_assoc io0.log (forwarded fd fs) last
            ∙ append_assoc (io.log ++ (wrote fd close_line ∷ [])) (wrote fd proxy_close_line ∷ []) _
            ∙ append_assoc io.log (wrote fd close_line ∷ []) _,
        at2,
      )

  -- A request without a body, with any fields.
  pub forward_requestheader-bodiless :
      (fs : List Field) (fuel : ℕ) (host method rest buf : Bytes) (header : Header)
      (garbage : ℕ → Bytes) (chunk_buf : Bytes) (n : ℕ) (c : ConnectionStatus) (io : Io rio)
      → str_eq method (bytes "POST") ≡ false
      → IsString host
      → All IsHeaderField fs
      → At (wire_fields fs rest) io.world
      → (io' : Io rio) × (forward_requestheader rio
            (length fs + suc fuel)
            fd
            rp
            host
            method
            buf
            header
            garbage
            chunk_buf
            n
            c
            io
          ≡ done (client_told (request_announced fs c) (any_field is_close fs) c, pos 0) io')
        × (io'.log ≡ io.log ++ header_sends fd host fs)
        × At rest io'.world
  forward_requestheader-bodiless fs fuel host method rest buf header garbage chunk_buf n c io
        not_post is_string is here =
      let (v, io', e, _, told, log, at) =
        forward_requestheader-header fs fuel host method rest buf header garbage chunk_buf n c io
          is_string is here in
      (
        io',
        e
            ∙ request_body_plain rio (length fs + suc fuel) fd rp method garbage chunk_buf n v io'
                not_post
            ∙ ap (λ (x : ConnectionStatus). done (x, pos 0) io') told,
        log,
        at,
      )

  -- For a method other than POST and a header of plain fields that fit in the array, with more
  -- fuel than fields: the function reads the header to its empty line and no further and returns
  -- 0. It has written "Connection: close" and "Proxy-Connection: close", then the lines of all
  -- fields other than these two as they came and in their order, then the empty line if one of
  -- them was Host. If none was, it has written "Host: " and the host twice, and neither a line end
  -- nor the empty line. Of the status only `client_setclose` changes: it is set if one of the two
  -- fields has the value "close".
  pub forward_requestheader-plain :
      (fs : List Field) (fuel : ℕ) (host method rest buf : Bytes) (header : Header)
      (garbage : ℕ → Bytes) (chunk_buf : Bytes) (n : ℕ) (c : ConnectionStatus) (io : Io rio)
      → str_eq method (bytes "POST") ≡ false
      → IsString host
      → All IsPlain fs
      → At (wire_fields fs rest) io.world
      → (io' : Io rio) × (forward_requestheader rio
            (length fs + suc fuel)
            fd
            rp
            host
            method
            buf
            header
            garbage
            chunk_buf
            n
            c
            io
          ≡ done
              (record c { client_setclose = c.client_setclose || any_field is_close fs }, pos 0)
              io')
        × (io'.log ≡ io.log ++ header_sends fd host fs)
        × At rest io'.world
  forward_requestheader-plain fs fuel host method rest buf header garbage chunk_buf n c io not_post
        is_string plain here =
      let (io', e, log, at) =
        forward_requestheader-bodiless fs fuel host method rest buf header garbage chunk_buf n c io
          not_post is_string (All-IsHeaderField fs plain) here in
      (
        io',
        e
            ∙ ap (λ (a : Announced). done (client_told a (any_field is_close fs) c, pos 0) io')
                (announce_fields_plain fs (client_held false c) plain),
        log,
        at,
      )
