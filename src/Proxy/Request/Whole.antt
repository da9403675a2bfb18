-- ===== src/Proxy/Request/Whole.antt =====
-- `forward_requestheader` on a whole request.
use tiny_proxy.Base.{
  ℕ, suc, ◌+◌, ◌≡◌, sym, ap, ◌∙◌, subst, List, Option, none, some, true, false, [], ◌++◌, length,
  All, arith, append_assoc, append-nil,
}
use tiny_proxy.Base.Int.{pos}
use tiny_proxy.CString.{Bytes, bytes, str_eq}
use tiny_proxy.Proxy.Rio.{Rio, Stream, Call, Io, done}
use tiny_proxy.Proxy.Header.{Header, ConnectionStatus}
use tiny_proxy.Proxy.Header.Scan.{Field}
use tiny_proxy.Proxy.Header.Fields.{
  is_close, IsHeaderField, any_field, wire_fields, Announced, client_told,
}
use tiny_proxy.Proxy.Body.{Body, IsBody, wire_body, body_sends, body_status, body_rounds}
use tiny_proxy.Proxy.Request.{forward_requestheader, request_body}
use tiny_proxy.Proxy.Request.Fields.{held}
use tiny_proxy.Proxy.Request.Body.{client_ended, bad_request_line, request_body-sends}
use tiny_proxy.Proxy.Request.Forward.{
  IsString, header_sends, request_announced, forward_requestheader-header,
  forward_requestheader-bodiless,
}

-- A POST has a body, and another request has none.
abbrev pub IsContent : Bytes → Announced → Option Body → Type 0
IsContent method a none = str_eq method (bytes "POST") ≡ false
IsContent method a (some b) = (str_eq method (bytes "POST") ≡ true) × IsBody a b

abbrev pub wire_content : Announced → Option Body → Bytes → Bytes
wire_content a none rest = rest
wire_content a (some b) rest = wire_body a b rest

abbrev pub content_sends : ℕ → Announced → Option Body → List Call
content_sends fd a none = []
content_sends fd a (some b) = body_sends fd bad_request_line a b

abbrev pub content_rounds : Option Body → ℕ
content_rounds none = 0
content_rounds (some b) = body_rounds b

abbrev pub content_status : Option Body → ConnectionStatus → ConnectionStatus
content_status none c = c
content_status (some b) c = body_status client_ended b c

-- The status after the request.
abbrev pub request_status : List Field → Option Body → ConnectionStatus → ConnectionStatus
request_status fs b c =
    content_status b (client_told (request_announced fs c) (any_field is_close fs) c)

-- The header and the body, with what follows them.
abbrev pub wire_request : List Field → Option Body → ConnectionStatus → Bytes → Bytes
wire_request fs b c rest = wire_fields fs (wire_content (request_announced fs c) b rest)

-- What is written for them.
abbrev pub whole_sends : ℕ → Bytes → List Field → Option Body → ConnectionStatus → List Call
whole_sends fd host fs b c = header_sends fd host fs ++ content_sends fd (request_announced fs c) b

module _ (rio : Rio) (rp : ℕ) (s : Stream rio rp) (fd : ℕ) where
  open s use {At}

  -- On the rest of a request to a host without NUL bytes, any well-formed fields and, for a POST, the
  -- body that they announce, chunked or of a given length below 2^31 - 1, or none: the function reads
  -- it to its end and no further, and returns 0, if the fuel is more than the numbers of the
  -- fields and the chunks together. It has written "Connection: close" and
  -- "Proxy-Connection: close", the lines of all fields other than these two as they came and in
  -- their order, then the empty line if one of them was Host, else twice "Host: " and the host, and
  -- behind it the body, of a chunked one without the size lines. In place of the body of a POST that
  -- announces none it has written a status line with the code 400, to the same descriptor, and both
  -- sides are marked to be closed; for a length of 0 the client is marked as shutting down. The status
  -- holds what the fields said, the last one of each name.
  pub forward_requestheader-sends :
      (fs : List Field) (b : Option Body) (fuel : ℕ) (host method rest buf : Bytes)
      (header : Header) (garbage : ℕ → Bytes) (chunk_buf : Bytes) (n : ℕ) (c : ConnectionStatus)
      (io : Io rio)
      → IsString host
      → All IsHeaderField fs
      → IsContent method (request_announced fs c) b
      → At (wire_request fs b c rest) io.world
      → (io' : Io rio) × (forward_requestheader rio
            (length fs + content_rounds b + suc fuel)
            fd
            rp
            host
            method
            buf
            header
            garbage
            chunk_buf
            n
            c
            io
          ≡ done (request_status fs b c, pos 0) io')
        × (io'.log ≡ io.log ++ whole_sends fd host fs b c)
        × At rest io'.world
  forward_requestheader-sends fs none fuel host method rest buf header garbage chunk_buf n c io
        is_string is not_post here =
      let (io', e, log, at) =
        forward_requestheader-bodiless rio rp s fd fs fuel host method rest buf header garbage
          chunk_buf n c io not_post is_string is here in
      (
        io',
        ap (λ x. forward_requestheader rio x fd rp host method buf header garbage chunk_buf n c io)
              (omega arith)
            ∙ e,
        log ∙ ap (io.log ++◌) (sym (append-nil (header_sends fd host fs))),
        at,
      )
  forward_requestheader-sends fs (some b) fuel host method rest buf header garbage chunk_buf n c io
        is_string is (post, body) here =
      let a : Announced = request_announced fs c in
      let (v, io1, e1, announced, told, l1, at1) =
        forward_requestheader-header rio rp s fd fs (body_rounds b + fuel) host method _ buf header
          garbage chunk_buf n c io is_string is here in
      let same : a ≡ held v = sym announced in
      let (io2, e2, l2, at2) =
        request_body-sends rio rp s fd garbage chunk_buf n b (length fs + fuel) method rest v io1
          post (subst (λ (x : Announced). IsBody x b) same body)
          (subst (λ (x : Announced). At (wire_body x b rest) io1.world) same at1) in
      (
        io2,
        ap (λ x. forward_requestheader rio x fd rp host method buf header garbage chunk_buf n c io)
              (omega arith)
            ∙ e1
            ∙ ap (λ x. request_body rio x fd rp method garbage chunk_buf n v io1) (omega arith)
            ∙ e2
            ∙ ap (λ (x : ConnectionStatus). done (body_status client_ended b x, pos 0) io2) told,
        l2
            ∙ ap (λ (x : Announced). io1.log ++ body_sends fd bad_request_line x b) announced
            ∙ ap (λ x. x ++ body_sends fd bad_request_line a b) l1
            ∙ append_assoc io.log (header_sends fd host fs) _,
        at2,
      )
