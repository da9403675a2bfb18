-- ===== src/Proxy/Chunked/Body.antt =====
-- `forward_chunked` on a whole body.
use tiny_proxy.Base.{
  ℕ, suc, ◌+◌, ◌≤◌, ◌≡◌, refl, ap, ◌∙◌, List, [], ◌∷◌, ◌++◌, length, All, arith, append_assoc,
}
use tiny_proxy.CString.{Bytes, bytes}
use tiny_proxy.Proxy.Buffer.{overlay, terminated}
use tiny_proxy.Proxy.Rio.{wrote, Rio, Stream, Io, Run, done, send, maxline}
use tiny_proxy.Proxy.Chunked.Loop.{trailers, after_line, after_trailer, forward_chunked}
use tiny_proxy.Proxy.Chunked.Chunk.{
  Chunk, IsChunk, IsText, crlf, wire, wire_end, wire_trailer, payloads, sends_end, sends_trailer,
}
use tiny_proxy.Proxy.Chunked.Forward.{
  read_text, read_line_lem, rounds, after_line_last, after_trailer_line, empty_line,
}

module _ (rio : Rio) (rp : ℕ) (s : Stream rio rp) (fd : ℕ) where
  open s use {At, write}

  -- The trailer, if the header announced one, and the empty line.
  trailers_lem :
      (trailer t rest buf : Bytes) (n : ℕ) (io : Io rio)
      → IsText t × (length t + 3 ≤ maxline)
      → At (wire_trailer trailer t (b'\r' ∷ b'\n' ∷ rest)) io.world
      → (io' : Io rio) × (trailers rio fd rp trailer buf n io ≡ done n io')
        × (io'.log ≡ io.log ++ sends_trailer fd trailer t)
        × At rest io'.world
  unfolding trailers
  trailers_lem [] t rest buf n io is here = empty_line rio rp s fd [] rest buf n io here
  trailers_lem (c ∷ cs) t rest buf n io is here =
      let (w, e, there) = read_text rio rp s t (b'\r' ∷ b'\n' ∷ rest) io.world here is.0 is.1 in
      let io1 : Io rio = record io { world = w } in
      let io2 : Io rio = send rio fd (t ++ crlf) io1 in
      let array : Bytes = overlay (terminated (t ++ crlf)) buf in
      let (io3, e3, l3, at3) =
        empty_line rio rp s fd (c ∷ cs) rest array n io2
          (write fd (t ++ crlf) (b'\r' ∷ b'\n' ∷ rest) w there) in
      (
        io3,
        ap (after_trailer rio fd rp buf n) (read_line_lem rio rp s io e)
            ∙ after_trailer_line rio rp s fd (c ∷ cs) t buf n io1
            ∙ e3,
        l3 ∙ append_assoc io.log _ _,
        at3,
      )

  -- A chunked body whose chunks fit in the buffer is read to its end and no further, if the fuel is
  -- more than the number of chunks. For each chunk its bytes and the line end behind them are
  -- written to `fd`, and not its size line; then the line of the last chunk, the trailer's one line
  -- if the header announced a trailer, and the empty line are written.
  pub forward_chunked-sends :
      (cs : List Chunk) (trailer t rest buf : Bytes) (n fuel : ℕ) (io : Io rio)
      → All IsChunk cs
      → IsText t × (length t + 3 ≤ maxline)
      → At (wire cs (wire_end trailer t rest)) io.world
      → (n' : ℕ) × (io' : Io rio) × (forward_chunked rio
            (length cs + suc fuel)
            fd
            rp
            trailer
            buf
            n
            io
          ≡ done n' io')
        × (io'.log ≡ io.log ++ (payloads fd cs ++ sends_end fd trailer t))
        × At rest io'.world
  unfolding forward_chunked
  forward_chunked-sends cs trailer t rest buf n fuel io chunks is here =
      let (b1, n1, io1, e1, l1, at1) =
        rounds rio rp s fd trailer cs (suc fuel) (wire_end trailer t rest) buf n io chunks here in
      let tail : Bytes = wire_trailer trailer t (b'\r' ∷ b'\n' ∷ rest) in
      let zero_line : Bytes = bytes "0\r\n" in
      let (w, e, there) =
        read_text rio rp s (bytes "0") tail io1.world at1 ((refl, refl), tt) (omega arith) in
      let io2 : Io rio = record io1 { world = w } in
      let io3 : Io rio = send rio fd zero_line io2 in
      let (io4, e4, l4, at4) =
        trailers_lem trailer t rest (overlay (terminated zero_line) b1) n1 io3 is
          (write fd zero_line tail w there) in
      let k : Bytes → ℕ → Io rio → Run rio ℕ =
        λ b m i. forward_chunked rio fuel fd rp trailer b m i in
      (
        n1,
        io4,
        e1
            ∙ ap (after_line rio fd rp trailer b1 n1 k) (read_line_lem rio rp s io1 e)
            ∙ after_line_last rio rp s fd trailer b1 n1 k io2
            ∙ e4,
        l4
            ∙ ap (λ x. (x ++ (wrote fd zero_line ∷ [])) ++ sends_trailer fd trailer t) l1
            ∙ append_assoc (io.log ++ payloads fd cs) _ _
            ∙ append_assoc io.log (payloads fd cs) (sends_end fd trailer t),
        at4,
      )
