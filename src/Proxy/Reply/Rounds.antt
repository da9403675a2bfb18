-- ===== src/Proxy/Reply/Rounds.antt =====
-- The rounds of `forward_reply` over the lines of the header.
use tiny_proxy.Base.{
  ℕ, suc, ◌+◌, ◌≡◌, refl, sym, ap, ◌∙◌, List, true, false, [], ◌∷◌, ◌++◌, if◌then◌else◌, length,
  All, arith, append_assoc, append-nil, Bool-cases, inl, inr,
}
use tiny_proxy.CString.{Bytes, bytes, str_eq}
use tiny_proxy.Proxy.Rio.{Rio, Stream, wrote, Io, Run, send}
use tiny_proxy.Proxy.Buffer.{overlay, terminated, cstr, cstr-overlay}
use tiny_proxy.Proxy.Header.Scan.{Field, field_line}
use tiny_proxy.Proxy.Chunked.Chunk.{IsText-crlf, crlf}
use tiny_proxy.Proxy.Chunked.Forward.{read_text, read_line_lem}
use tiny_proxy.Proxy.Header.Fields.{
  is_hop, is_close, any_field, forwarded, wire_fields, field_ne_empty, forwarded_cons, Announced,
  announce, announce_fields, server_told, server_told_nothing, server_told_twice, IsHeaderField,
}
use tiny_proxy.Proxy.Reply.{
  ReplyLines, Reply, drop_reply, forward_reply_line, act_reply, on_reply_line, after_reply_header,
  reply_loop,
}
use tiny_proxy.Proxy.Reply.Fields.{held, after_reply_field, reply_header_line-field}

module _ (rio : Rio) (rp : ℕ) (s : Stream rio rp) (fd : ℕ)
    (leave : ReplyLines → Io rio → Run rio Reply) where
  open s use {At, write}

  module _ (k : ReplyLines → Io rio → Run rio Reply) (f : Field) (v : ReplyLines) (io : Io rio)
      (is : IsHeaderField f) (text : cstr v.buf ≡ field_line f ++ crlf) where
    on_line-field :
        on_reply_line rio fd k leave v io
        ≡ act_reply rio fd k io (
            if is_hop f
            then drop_reply (after_reply_field f v)
            else forward_reply_line (after_reply_field f v))
    unfolding on_reply_line
    on_line-field =
        let empty : str_eq (cstr v.buf) (bytes "\r\n") ≡ false =
          ap (λ x. str_eq x (bytes "\r\n")) text ∙ field_ne_empty f is.field in
        rw empty (ap (act_reply rio fd k io) (reply_header_line-field f v is text))

    on_line_hop : is_hop f ≡ true → on_reply_line rio fd k leave v io ≡ k (after_reply_field f v) io
    on_line_hop hop =
        on_line-field
        ∙ ap
            (λ b. act_reply rio fd k io (
              if b
              then drop_reply (after_reply_field f v)
              else forward_reply_line (after_reply_field f v)))
            hop

    on_line_kept :
        is_hop f ≡ false
        → on_reply_line rio fd k leave v io
          ≡ k (after_reply_field f v) (send rio fd (field_line f ++ crlf) io)
    on_line_kept kept =
        on_line-field
        ∙ ap
            (λ b. act_reply rio fd k io (
              if b
              then drop_reply (after_reply_field f v)
              else forward_reply_line (after_reply_field f v)))
            kept
        ∙ ap (λ x. k (after_reply_field f v) (send rio fd x io)) text

  -- One field.
  field_round :
      (fuel : ℕ) (f : Field) (rest : Bytes) (v : ReplyLines) (io : Io rio)
      → IsHeaderField f
      → At (field_line f ++ (b'\r' ∷ b'\n' ∷ rest)) io.world
      → (v' : ReplyLines) × (io' : Io rio) × (reply_loop rio (suc fuel) fd rp leave v io
          ≡ reply_loop rio fuel fd rp leave v' io')
        × (held v' ≡ announce f (held v))
        × (v'.cstatus ≡ server_told (announce f (held v)) (is_close f) v.cstatus)
        × (io'.log ≡ io.log ++ forwarded fd (f ∷ []))
        × At rest io'.world
  unfolding reply_loop after_reply_header on_reply_line
  field_round fuel f rest v io is here =
      let (w, e, there) =
        read_text rio rp s (field_line f) rest io.world here is.field.text is.field.short in
      let line : Bytes = field_line f ++ crlf in
      let u : ReplyLines = record v { buf = overlay (terminated line) v.buf } in
      let io1 : Io rio = record io { world = w } in
      let k : ReplyLines → Io rio → Run rio Reply = λ a i. reply_loop rio fuel fd rp leave a i in
      let text : cstr u.buf ≡ line =
        cstr-overlay line v.buf (IsText-crlf (field_line f) is.field.text) in
      elim (Bool-cases (is_hop f)) [
        | inl hop ↦ (
          after_reply_field f u,
          io1,
          ap (after_reply_header rio fd k leave v) (read_line_lem rio rp s io e)
              ∙ on_line_hop k f u io1 is text hop,
          refl,
          refl,
          rw hop (sym (append-nil io.log)),
          there,
        )
        | inr kept ↦ (
          after_reply_field f u,
          send rio fd line io1,
          ap (after_reply_header rio fd k leave v) (read_line_lem rio rp s io e)
              ∙ on_line_kept k f u io1 is text kept,
          refl,
          refl,
          rw kept refl,
          write fd line rest w there,
        )
      ]

  -- All fields.
  pub reply_rounds :
      (fs : List Field) (fuel : ℕ) (rest : Bytes) (v : ReplyLines) (io : Io rio)
      → All IsHeaderField fs
      → At (wire_fields fs rest) io.world
      → (v' : ReplyLines) × (io' : Io rio) × (reply_loop rio (length fs + fuel) fd rp leave v io
          ≡ reply_loop rio fuel fd rp leave v' io')
        × (held v' ≡ announce_fields fs (held v))
        × (v'.cstatus ≡ server_told (announce_fields fs (held v)) (any_field is_close fs) v.cstatus)
        × (io'.log ≡ io.log ++ forwarded fd fs)
        × At (b'\r' ∷ b'\n' ∷ rest) io'.world
  reply_rounds [] fuel rest v io is here = (
    v,
    io,
    ap (λ x. reply_loop rio x fd rp leave v io) (omega arith),
    refl,
    sym (server_told_nothing v.is_contentlength_set v.cstatus),
    sym (append-nil io.log),
    here,
  )
  reply_rounds (f ∷ fs) fuel rest v io is here =
      let (v1, io1, e1, n1, c1, l1, at1) =
        field_round (length fs + fuel) f (wire_fields fs rest) v io is.0 here in
      let (v2, io2, e2, n2, c2, l2, at2) = reply_rounds fs fuel rest v1 io1 is.1 at1 in
      (
        v2,
        io2,
        ap (λ x. reply_loop rio x fd rp leave v io) (omega arith) ∙ e1 ∙ e2,
        n2 ∙ ap (announce_fields fs) n1,
        c2
            ∙ ap
                (λ (x : Announced).
                  server_told (announce_fields fs x) (any_field is_close fs) v1.cstatus)
                n1
            ∙ ap (server_told (announce_fields fs (announce f (held v))) (any_field is_close fs)) c1
            ∙ server_told_twice (announce f (held v)) (announce_fields fs (announce f (held v)))
                (is_close f) (any_field is_close fs) v.cstatus,
        l2
            ∙ ap (λ x. x ++ forwarded fd fs) l1
            ∙ append_assoc io.log _ (forwarded fd fs)
            ∙ ap (λ x. io.log ++ x) (forwarded_cons fd f fs),
        at2,
      )

  last_line :
      (k : ReplyLines → Io rio → Run rio Reply) (v : ReplyLines) (io : Io rio)
      → cstr v.buf ≡ crlf
      → on_reply_line rio fd k leave v io ≡ leave v (send rio fd crlf io)
  unfolding on_reply_line str_eq
  last_line k v io text =
      let last : str_eq (cstr v.buf) (bytes "\r\n") ≡ true =
        ap (λ x. str_eq x (bytes "\r\n")) text in
      rw last (ap (λ x. leave v (send rio fd x io)) text)

  -- The round of the empty line.
  pub reply_end :
      (fuel : ℕ) (rest : Bytes) (v : ReplyLines) (io : Io rio)
      → At (b'\r' ∷ b'\n' ∷ rest) io.world
      → (v' : ReplyLines) × (io' : Io rio) × (reply_loop rio (suc fuel) fd rp leave v io
          ≡ leave v' io')
        × (held v' ≡ held v)
        × (v'.cstatus ≡ v.cstatus)
        × (io'.log ≡ io.log ++ (wrote fd crlf ∷ []))
        × At rest io'.world
  unfolding reply_loop after_reply_header on_reply_line
  reply_end fuel rest v io here =
      let (w, e, there) = read_text rio rp s [] rest io.world here tt (omega arith) in
      let u : ReplyLines = record v { buf = overlay (terminated crlf) v.buf } in
      let io1 : Io rio = record io { world = w } in
      let k : ReplyLines → Io rio → Run rio Reply = λ a i. reply_loop rio fuel fd rp leave a i in
      let text : cstr u.buf ≡ crlf = cstr-overlay crlf v.buf (refl, (refl, tt)) in
      (
        u,
        send rio fd crlf io1,
        ap (after_reply_header rio fd k leave v) (read_line_lem rio rp s io e)
            ∙ last_line k u io1 text,
        refl,
        refl,
        refl,
        write fd crlf rest w there,
      )
