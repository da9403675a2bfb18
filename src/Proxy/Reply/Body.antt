-- ===== src/Proxy/Reply/Body.antt =====
-- `forward_reply` behind the header: the body of a reply.
use tiny_proxy.Base.{
  ℕ, suc, ◌+◌, ◌<◌, ◌^◌, lt→ltb, ◌≡◌, refl, ap, ◌∙◌, Bool, true, false, ◌||◌, none, [], ◌∷◌, ◌++◌,
  length, drop, arith, take-length-append,
}
use tiny_proxy.Base.Int.{pos}
use tiny_proxy.CString.{Bytes, bytes}
use tiny_proxy.Proxy.Rio.{Rio, Stream, Read, got, eof, wrote, Io, done, send}
use tiny_proxy.Proxy.Header.{ConnectionStatus}
use tiny_proxy.Proxy.Chunked.Loop.{read_block}
use tiny_proxy.Proxy.Header.Fields.{or_false}
use tiny_proxy.Proxy.Body.{
  Body, chunked, sized, missing, IsBody, wire_body, body_sends, body_status, body_rounds, nonempty,
}
use tiny_proxy.Proxy.Chunked.Forward.{read_block_lem}
use tiny_proxy.Proxy.Chunked.Body.{forward_chunked-sends}
use tiny_proxy.Proxy.Request.{error_line}
use tiny_proxy.Proxy.Reply.{
  ReplyLines, after_reply_content, reply_content, reply_chunked, reply_body,
}
use tiny_proxy.Proxy.Reply.Fields.{held}

abbrev pub bad_reply_line : Bytes
bad_reply_line = error_line (bytes "400") (bytes "Bad reply")

abbrev pub server_ended : ConnectionStatus → ConnectionStatus
server_ended c = record c { server_shuttingdown = true }

or_true : (b : Bool) → (b || true) ≡ true
or_true b = ground arith

module _ (rio : Rio) (rp : ℕ) (s : Stream rio rp) (fd : ℕ) (garbage : ℕ → Bytes) (chunk_buf : Bytes)
    (n : ℕ) where
  open s use {At, block, no_bytes, write}

  pub content_lem :
      (c : ConnectionStatus) (k : ℕ) (io io1 io2 : Io rio) (r : Read) (b : Bool)
      → read_block rio rp k io ≡ (r, io1)
      → after_reply_content rio fd k (garbage (k + 1)) (r, io1) ≡ (b, io2)
      → k + 1 < 2 ^ 31
      → reply_content rio fd rp garbage c io (pos k)
        ≡ done (record c { server_shuttingdown = c.server_shuttingdown || b }, none) io2
  unfolding reply_content
  content_lem c k io io1 io2 r b e e' small = rw (lt→ltb _ _ small) (
      ap
        (λ (x : Bool × Io rio).
          done (record c { server_shuttingdown = c.server_shuttingdown || x.0 }, none) x.1)
        (ap (after_reply_content rio fd k (garbage (k + 1))) e ∙ e'))

  sized_lem :
      (bs rest : Bytes) (c : ConnectionStatus) (io : Io rio)
      → length bs + 1 < 2 ^ 31
      → At (bs ++ rest) io.world
      → (io' : Io rio) × (reply_content rio fd rp garbage c io (pos (length bs))
          ≡ done (body_status server_ended (sized bs) c, none) io')
        × (io'.log ≡ io.log ++ (wrote fd bs ∷ []))
        × At rest io'.world
  unfolding after_reply_content
  sized_lem [] rest c io small here =
      let (w, e, there) = no_bytes rest io.world here in
      let io1 : Io rio = record io { world = w } in
      (
        send rio fd [] io1,
        content_lem c 0 io io1 (send rio fd [] io1) eof true (read_block_lem rio rp s 0 io e) refl
              small
            ∙ ap (λ x. done (record c { server_shuttingdown = x }, none) (send rio fd [] io1))
                (or_true c.server_shuttingdown),
        refl,
        write fd [] rest w there,
      )
  sized_lem (x ∷ xs) rest c io small here =
      let bs : Bytes = x ∷ xs in
      let (w, e, there) = block bs rest io.world here (omega arith) in
      let io1 : Io rio = record io { world = w } in
      let g : Bytes = garbage (length bs + 1) in
      (
        send rio fd bs io1,
        content_lem c (length bs) io io1 (send rio fd bs io1) (got bs) false
              (read_block_lem rio rp s (length bs) io e)
              (rw (nonempty (length xs))
                (ap (λ y. (false, send rio fd y io1)) (take-length-append bs (drop (length bs) g))))
              small
            ∙ ap (λ b. done (record c { server_shuttingdown = b }, none) (send rio fd bs io1))
                (or_false c.server_shuttingdown),
        refl,
        write fd bs rest w there,
      )

  pub reply_body-sends :
      (b : Body) (fuel : ℕ) (rest : Bytes) (v : ReplyLines) (io : Io rio)
      → IsBody (held v) b
      → At (wire_body (held v) b rest) io.world
      → (io' : Io rio) × (reply_body rio (body_rounds b + suc fuel) fd rp garbage chunk_buf n v io
          ≡ done (body_status server_ended b v.cstatus, none) io')
        × (io'.log ≡ io.log ++ body_sends fd bad_reply_line (held v) b)
        × At rest io'.world
  unfolding reply_body
  reply_body-sends (chunked cs t) fuel rest v io (is, chunks, text, short) here =
      let (m, io', e, log, at) =
        forward_chunked-sends rio rp s fd cs v.cstatus.server_trailer t rest chunk_buf n fuel io
          chunks (text, short) here in
      (io', rw is (ap (reply_chunked rio v.cstatus) e), log, at)
  reply_body-sends (sized bs) fuel rest v io (not_chunked, set, len, small) here =
      let (io', e, log, at) = sized_lem bs rest v.cstatus io small here in
      (
        io',
        rw (not_chunked, set) (ap (reply_content rio fd rp garbage v.cstatus io) len ∙ e),
        log,
        at,
      )
  reply_body-sends missing fuel rest v io (not_chunked, unset) here = (
    send rio fd bad_reply_line io,
    rw (not_chunked, unset) refl,
    refl,
    write fd bad_reply_line rest io.world here,
  )
