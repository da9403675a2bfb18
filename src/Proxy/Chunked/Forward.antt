-- ===== src/Proxy/Chunked/Forward.antt =====
-- What `forward_chunked` forwards of a well-formed body.
use tiny_proxy.Base.{
  ℕ, suc, ◌+◌, ◌%◌, ◌^◌, ◌≤◌, ◌≡◌, refl, sym, ap, subst, ◌∙◌, drop, le→leb, lt→leb_false, List,
  some, [], ◌∷◌, ◌++◌, length, take, All, arith, append_assoc, append-nil, take-length-append,
  length-append,
}
use tiny_proxy.Base.Int.{pos}
use tiny_proxy.CString.{Bytes, bytes, str_eq}
use tiny_proxy.Proxy.Buffer.{overlay, cstr, terminated, cstr-overlay}
use tiny_proxy.Proxy.Rio.{wrote, Rio, Stream, Read, got, Io, Run, done, send, maxline}
use tiny_proxy.Proxy.Chunked.Size.{int_limit}
use tiny_proxy.Proxy.Chunked.Loop.{
  read_line, read_block, after_end, after_trailer, trailers, after_block, after_size, after_line,
  forward_chunked,
}
use tiny_proxy.Proxy.Chunked.Chunk.{
  Chunk, crlf, size_line, payload, wire, IsText, IsChunk, payloads, line_ne_last, IsText-crlf,
  IsText-cr, getchunksize_line,
}

module _ (rio : Rio) (rp : ℕ) (s : Stream rio rp) where
  open s use {At, line, block, write}

  pub read_line_lem :
      {r : Read} {w : rio.World} (io : Io rio)
      → rio.rio_readlineb rp io.world ≡ (r, w)
      → read_line rio rp io ≡ (r, record io { world = w })
  read_line_lem io e = ap (λ x. (x.0, record io { world = x.1 })) e

  pub read_block_lem :
      {r : Read} {w : rio.World} (n : ℕ) (io : Io rio)
      → rio.rio_readnb rp n io.world ≡ (r, w)
      → read_block rio rp n io ≡ (r, record io { world = w })
  read_block_lem n io e = ap (λ x. (x.0, record io { world = x.1 })) e

  -- A text line with its "\r\n" arrives whole.
  pub read_text :
      (l rest : Bytes) (w : rio.World)
      → At (l ++ (b'\r' ∷ b'\n' ∷ rest)) w
      → IsText l
      → length l + 3 ≤ maxline
      → (w' : rio.World) × (rio.rio_readlineb rp w ≡ (got (l ++ crlf), w')) × At rest w'
  read_text l rest w here text short =
      let (w', e, there) =
        line (l ++ (b'\r' ∷ [])) rest w (rw (append_assoc l (b'\r' ∷ []) (b'\n' ∷ rest)) here)
          (IsText-cr l text) (omega (arith, length-append l (b'\r' ∷ []))) in
      (w', e ∙ rw (append_assoc l (b'\r' ∷ []) (b'\n' ∷ [])), there)

  module _ (fd : ℕ) (trailer : Bytes) where
    after_line_chunk :
        (c : Chunk) (buf : Bytes) (n : ℕ) (k : Bytes → ℕ → Io rio → Run rio ℕ) (io : Io rio)
        → IsChunk c
        → after_line rio fd rp trailer buf n k (got (size_line c ++ crlf), io)
          ≡ after_size rio fd rp
              (overlay (terminated (size_line c ++ crlf)) buf)
              n
              io
              k
              (some (pos (length c.content)))
    unfolding after_line
    after_line_chunk c buf n k io is =
        rw
          (
            cstr-overlay (size_line c ++ crlf) buf (IsText-crlf (size_line c) is.text),
            line_ne_last c is,
          )
          (ap (after_size rio fd rp (overlay (terminated (size_line c ++ crlf)) buf) n io k)
            (getchunksize_line c buf is))

    after_size_block :
        (m : ℕ) (bs buf : Bytes) (n : ℕ) (k : Bytes → ℕ → Io rio → Run rio ℕ) (io io' : Io rio)
        → m + 2 ≤ maxline
        → length bs ≡ m + 2
        → read_block rio rp (m + 2) io ≡ (got bs, io')
        → after_size rio fd rp buf n io k (some (pos m))
          ≡ k (overlay bs buf) ((n + m) % 2 ^ 32) (send rio fd bs io')
    unfolding after_size
    after_size_block m bs buf n k io io' fits long e =
        rw (lt→leb_false int_limit (m + 2) (omega arith)) (
          ap (after_block rio fd buf n m k) e
          ∙ rw (le→leb (length bs) maxline (omega arith)) (
              ap (λ x. k (overlay bs buf) ((n + m) % 2 ^ 32) (send rio fd x io'))
                (take-length-append bs (drop (length bs) buf))))

    -- One round of the loop, on a chunk.
    round :
        (fuel : ℕ) (c : Chunk) (rest buf : Bytes) (n : ℕ) (io : Io rio)
        → IsChunk c
        → At (size_line c ++ (b'\r' ∷ b'\n' ∷ (payload c ++ rest))) io.world
        → (buf' : Bytes) × (n' : ℕ) × (io' : Io rio) × (forward_chunked rio
              (suc fuel)
              fd
              rp
              trailer
              buf
              n
              io
            ≡ forward_chunked rio fuel fd rp trailer buf' n' io')
          × (io'.log ≡ io.log ++ (wrote fd (payload c) ∷ []))
          × At rest io'.world
    unfolding forward_chunked
    round fuel c rest buf n io is here =
        let (w1, e1, at1) =
          read_text (size_line c) (payload c ++ rest) io.world here is.text is.short in
        let long : length (payload c) ≡ length c.content + 2 = length-append c.content crlf in
        let (w2, e2, at2) = block (payload c) rest w1 at1 (omega (arith, long)) in
        let buf1 : Bytes = overlay (terminated (size_line c ++ crlf)) buf in
        let buf2 : Bytes = overlay (payload c) buf1 in
        let k : Bytes → ℕ → Io rio → Run rio ℕ =
          λ b m i. forward_chunked rio fuel fd rp trailer b m i in
        let io1 : Io rio = record io { world = w1 } in
        let io2 : Io rio = record io { world = w2 } in
        (
          buf2,
          (n + length c.content) % 2 ^ 32,
          send rio fd (payload c) io2,
          ap (after_line rio fd rp trailer buf n k) (read_line_lem io e1)
              ∙ after_line_chunk c buf n k io1 is
              ∙ after_size_block (length c.content) (payload c) buf1 n k io1 io2 is.fits long (
                  read_block_lem (length c.content + 2) io1
                    (subst (λ x. rio.rio_readnb rp x w1 ≡ (got (payload c), w2)) long e2)),
          refl,
          write fd (payload c) rest w2 at2,
        )

    -- All rounds.
    pub rounds :
        (cs : List Chunk) (fuel : ℕ) (rest buf : Bytes) (n : ℕ) (io : Io rio)
        → All IsChunk cs
        → At (wire cs rest) io.world
        → (buf' : Bytes) × (n' : ℕ) × (io' : Io rio) × (forward_chunked rio
              (length cs + fuel)
              fd
              rp
              trailer
              buf
              n
              io
            ≡ forward_chunked rio fuel fd rp trailer buf' n' io')
          × (io'.log ≡ io.log ++ payloads fd cs)
          × At rest io'.world
    rounds [] fuel rest buf n io is here = (
      buf,
      n,
      io,
      ap (λ x. forward_chunked rio x fd rp trailer buf n io) (omega arith),
      sym (append-nil io.log),
      here,
    )
    rounds (c ∷ cs) fuel rest buf n io is here =
        let (b1, n1, io1, e1, l1, at1) =
          round (length cs + fuel) c (wire cs rest) buf n io is.0 here in
        let (b2, n2, io2, e2, l2, at2) = rounds cs fuel rest b1 n1 io1 is.1 at1 in
        (
          b2,
          n2,
          io2,
          ap (λ x. forward_chunked rio x fd rp trailer buf n io) (omega arith) ∙ e1 ∙ e2,
          l2 ∙ ap (λ x. x ++ payloads fd cs) l1 ∙ append_assoc io.log _ (payloads fd cs),
          at2,
        )

    pub after_line_last :
        (buf : Bytes) (n : ℕ) (k : Bytes → ℕ → Io rio → Run rio ℕ) (io : Io rio)
        → after_line rio fd rp trailer buf n k (got (bytes "0\r\n"), io)
          ≡ trailers rio fd rp trailer
              (overlay (terminated (bytes "0\r\n")) buf)
              n
              (send rio fd (bytes "0\r\n") io)
    unfolding after_line str_eq cstr
    after_line_last buf n k io = refl

    pub after_end_last :
        (buf : Bytes) (n : ℕ) (io : Io rio)
        → after_end rio fd buf n (got crlf, io) ≡ done n (send rio fd crlf io)
    unfolding after_end str_eq cstr
    after_end_last buf n io = refl

    pub after_trailer_line :
        (t buf : Bytes) (n : ℕ) (io : Io rio)
        → after_trailer rio fd rp buf n (got (t ++ crlf), io)
          ≡ after_end rio fd
              (overlay (terminated (t ++ crlf)) buf)
              n
              (read_line rio rp (send rio fd (t ++ crlf) io))
    unfolding after_trailer
    after_trailer_line t buf n io =
        let x : Bytes = t ++ crlf in
        let array : Bytes = overlay (terminated x) buf in
        ap (λ y. after_end rio fd array n (read_line rio rp (send rio fd y io)))
          (ap (take (length x)) (append_assoc x (0 ∷ []) (drop (length (terminated x)) buf))
            ∙ take-length-append x (0 ∷ drop (length (terminated x)) buf))

    -- The empty line.
    pub empty_line :
        (rest buf : Bytes) (n : ℕ) (io : Io rio)
        → At (b'\r' ∷ b'\n' ∷ rest) io.world
        → (io' : Io rio) × (after_end rio fd buf n (read_line rio rp io) ≡ done n io')
          × (io'.log ≡ io.log ++ (wrote fd crlf ∷ []))
          × At rest io'.world
    empty_line rest buf n io here =
        let (w, e, there) = read_text [] rest io.world here tt (omega arith) in
        (
          send rio fd crlf (record io { world = w }),
          ap (after_end rio fd buf n) (read_line_lem io e)
              ∙ after_end_last buf n (record io { world = w }),
          refl,
          write fd crlf rest w there,
        )
