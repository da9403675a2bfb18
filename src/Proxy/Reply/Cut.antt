-- ===== src/Proxy/Reply/Cut.antt =====
-- `forward_reply` when the server closes inside a body of a given length.
use tiny_proxy.Base.{
  ℕ, zero, suc, ◌+◌, ◌-◌, ◌<◌, ◌^◌, ◌≡◌, refl, ap, ◌∙◌, true, false, none, [], ◌∷◌, ◌++◌, ◌==◌,
  length, take, drop, arith,
}
use tiny_proxy.Base.Int.{pos}
use tiny_proxy.CString.{Bytes, bytes, strcase_eq}
use tiny_proxy.Proxy.Rio.{Rio, Stream, got, wrote, Io, done, send}
use tiny_proxy.Proxy.Header.Fields.{or_false}
use tiny_proxy.Proxy.Chunked.Forward.{read_block_lem}
use tiny_proxy.Proxy.Reply.{ReplyLines, after_reply_content, reply_content, reply_body}
use tiny_proxy.Proxy.Reply.Body.{content_lem}

take-longer :
    (bs rest : Bytes) (k : ℕ)
    → length bs < k
    → take k (bs ++ rest) ≡ bs ++ take (k - length bs) rest
take-longer [] rest k h = ap (λ x. take x rest) (omega arith)
take-longer (c ∷ bs) rest zero h = absurd (omega (arith, h))
take-longer (c ∷ bs) rest (suc k) h =
    ap (◌∷◌ c) (take-longer bs rest k (omega (arith, h)))
    ∙ ap (λ x. (c ∷ bs) ++ take x rest) (omega arith)

nonzero : (n : ℕ) → 0 < n → (n == 0) ≡ false
nonzero n h = ground arith

module _ (rio : Rio) (rp : ℕ) (s : Stream rio rp) (fd : ℕ) (garbage : ℕ → Bytes) (chunk_buf : Bytes)
    (n : ℕ) where
  open s use {At, rest, write}

  -- Behind a header that gives a length below 2^31 - 1 and no encoding that is handled: when the server closes after at least
  -- one byte of the body and before all of them, the code writes to the client as many bytes as
  -- the header gave, the ones that came and behind them what its array held before, and returns
  -- with the status unchanged.
  pub reply_body-cut :
      (bs : Bytes) (k fuel : ℕ) (v : ReplyLines) (io : Io rio)
      → strcase_eq v.cstatus.server_transfer_encoding (bytes "chunked") ≡ false
      → v.is_contentlength_set ≡ true
      → v.cstatus.server_content_length ≡ pos k
      → 0 < length bs
      → length bs < k
      → k + 1 < 2 ^ 31
      → At bs io.world
      → (io' : Io rio) × (reply_body rio fuel fd rp garbage chunk_buf n v io
          ≡ done (v.cstatus, none) io')
        × (io'.log
            ≡ io.log
              ++ (wrote fd (bs ++ take (k - length bs) (drop (length bs) (garbage (k + 1)))) ∷ []))
        × At [] io'.world
  unfolding reply_body after_reply_content
  reply_body-cut bs k fuel v io not_chunked set len some_bytes short small here =
      let (w, e, there) = rest bs k io.world here some_bytes short in
      let io1 : Io rio = record io { world = w } in
      let sent : Bytes = bs ++ take (k - length bs) (drop (length bs) (garbage (k + 1))) in
      let io2 : Io rio = send rio fd sent io1 in
      (
        io2,
        rw (not_chunked, set)
            (ap (reply_content rio fd rp garbage v.cstatus io) len
              ∙ content_lem rio rp s fd garbage chunk_buf n v.cstatus k io io1 io2 (got bs) false
                  (read_block_lem rio rp s k io e)
                  (rw (nonzero (length bs) some_bytes) (
                    ap (λ x. (false, send rio fd x io1))
                      (take-longer bs (drop (length bs) (garbage (k + 1))) k short)))
                  small
              ∙ ap (λ b. done (record v.cstatus { server_shuttingdown = b }, none) io2)
                  (or_false v.cstatus.server_shuttingdown)),
        refl,
        write fd sent [] w there,
      )
