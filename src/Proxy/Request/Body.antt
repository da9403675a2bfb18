-- ===== src/Proxy/Request/Body.antt =====
-- `forward_requestheader` behind the header: the body of a POST.
use tiny_proxy.Base.{
  ℕ, suc, ◌+◌, ◌<◌, ◌^◌, lt→ltb, ◌≡◌, refl, ap, ◌∙◌, Bool, true, false, not, ◌||◌, [], ◌∷◌, ◌++◌,
  length, drop, arith, take-length-append,
}
use tiny_proxy.Base.Int.{pos}
use tiny_proxy.CString.{Bytes, bytes, str_eq}
use tiny_proxy.Proxy.Rio.{Rio, Stream, Read, got, eof, wrote, Io, done, send}
use tiny_proxy.Proxy.Header.{ConnectionStatus}
use tiny_proxy.Proxy.Header.Fields.{or_false}
use tiny_proxy.Proxy.Body.{
  Body, chunked, sized, missing, IsBody, wire_body, body_sends, body_status, body_rounds, nonempty,
}
use tiny_proxy.Proxy.Chunked.Loop.{read_block}
use tiny_proxy.Proxy.Chunked.Forward.{read_block_lem}
use tiny_proxy.Proxy.Chunked.Body.{forward_chunked-sends}
use tiny_proxy.Proxy.Request.{
  Lines, error_line, after_content, request_content, return_chunked, request_body,
}
use tiny_proxy.Proxy.Request.Fields.{held}

abbrev pub bad_request_line : Bytes
bad_request_line = error_line (bytes "400") (bytes "Bad request")

abbrev pub client_ended : ConnectionStatus → ConnectionStatus
client_ended c = record c { client_shuttingdown = true }

or_true : (b : Bool) → (b || true) ≡ true
or_true b = ground arith

module _ (rio : Rio) (rp : ℕ) (s : Stream rio rp) (fd : ℕ) (garbage : ℕ → Bytes) (chunk_buf : Bytes)
    (n : ℕ) where
  open s use {At, block, no_bytes, write}

  content_lem :
      (c : ConnectionStatus) (k : ℕ) (io io1 io2 : Io rio) (r : Read) (b : Bool)
      → read_block rio rp k io ≡ (r, io1)
      → after_content rio fd k (garbage (k + 1)) (r, io1) ≡ (b, io2)
      → k + 1 < 2 ^ 31
      → request_content rio fd rp garbage c io (pos k)
        ≡ done (record c { client_shuttingdown = c.client_shuttingdown || not b }, pos 0) io2
  unfolding request_content
  content_lem c k io io1 io2 r b e e' small = rw (lt→ltb _ _ small) (
      ap
        (λ (x : Bool × Io rio).
          done (record c { client_shuttingdown = c.client_shuttingdown || not x.0 }, pos 0) x.1)
        (ap (after_content rio fd k (garbage (k + 1))) e ∙ e'))

  sized_lem :
      (bs rest : Bytes) (c : ConnectionStatus) (io : Io rio)
      → length bs + 1 < 2 ^ 31
      → At (bs ++ rest) io.world
      → (io' : Io rio) × (request_content rio fd rp garbage c io (pos (length bs))
          ≡ done (body_status client_ended (sized bs) c, pos 0) io')
        × (io'.log ≡ io.log ++ (wrote fd bs ∷ []))
        × At rest io'.world
  unfolding after_content
  sized_lem [] rest c io small here =
      let (w, e, there) = no_bytes rest io.world here in
      let io1 : Io rio = record io { world = w } in
      (
        send rio fd [] io1,
        content_lem c 0 io io1 (send rio fd [] io1) eof false (read_block_lem rio rp s 0 io e) refl
              small
            ∙ ap (λ x. done (record c { client_shuttingdown = x }, pos 0) (send rio fd [] io1))
                (or_true c.client_shuttingdown),
        refl,
        write fd [] rest w there,
      )
  sized_lem (x ∷ xs) rest c io small here =
      let bs : Bytes = x ∷ xs in
      let (w, e, there) = block bs rest io.world here (omega arith) in
      let io1 : Io rio = record io { world = w } in
      let g : Bytes = garbage (length bs + 1) in
      (
        send rio fd bs io1,
        content_lem c (length bs) io io1 (send rio fd bs io1) (got bs) true
              (read_block_lem rio rp s (length bs) io e)
              (rw (nonempty (length xs))
                (ap (λ y. (true, send rio fd y io1)) (take-length-append bs (drop (length bs) g))))
              small
            ∙ ap (λ b. done (record c { client_shuttingdown = b }, pos 0) (send rio fd bs io1))
                (or_false c.client_shuttingdown),
        refl,
        write fd bs rest w there,
      )

  pub request_body-sends :
      (b : Body) (fuel : ℕ) (method rest : Bytes) (v : Lines) (io : Io rio)
      → str_eq method (bytes "POST") ≡ true
      → IsBody (held v) b
      → At (wire_body (held v) b rest) io.world
      → (io' : Io rio) × (request_body rio
            (body_rounds b + suc fuel)
            fd
            rp
            method
            garbage
            chunk_buf
            n
            v
            io
          ≡ done (body_status client_ended b v.cstatus, pos 0) io')
        × (io'.log ≡ io.log ++ body_sends fd bad_request_line (held v) b)
        × At rest io'.world
  unfolding request_body
  request_body-sends (chunked cs t) fuel method rest v io post (is, chunks, text, short) here =
      let (m, io', e, log, at) =
        forward_chunked-sends rio rp s fd cs v.cstatus.client_trailer t rest chunk_buf n fuel io
          chunks (text, short) here in
      (io', rw (post, is) (ap (return_chunked rio v.cstatus) e), log, at)
  request_body-sends (sized bs) fuel method rest v io post (not_chunked, set, len, small) here =
      let (io', e, log, at) = sized_lem bs rest v.cstatus io small here in
      (
        io',
        rw (post, not_chunked, set) (ap (request_content rio fd rp garbage v.cstatus io) len ∙ e),
        log,
        at,
      )
  request_body-sends missing fuel method rest v io post (not_chunked, unset) here = (
    send rio fd bad_request_line io,
    rw (post, not_chunked, unset) refl,
    refl,
    write fd bad_request_line rest io.world here,
  )
