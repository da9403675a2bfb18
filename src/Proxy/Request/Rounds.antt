-- ===== src/Proxy/Request/Rounds.antt =====
-- The rounds of `forward_requestheader` over the lines of the fields.
use tiny_proxy.Base.{
  ℕ, suc, ◌+◌, ◌≡◌, refl, sym, ap, ◌∙◌, List, true, false, ◌||◌, [], ◌∷◌, ◌++◌, if◌then◌else◌,
  length, All, arith, append_assoc, append-nil, Bool-cases, inl, inr,
}
use mathlib.Core.Bool.{or_assoc}
use tiny_proxy.Base.Int.{ℤ}
use tiny_proxy.CString.{Bytes, bytes, str_eq}
use tiny_proxy.Proxy.Rio.{Rio, Stream, Io, Run, send}
use tiny_proxy.Proxy.Buffer.{overlay, terminated, cstr, cstr-overlay}
use tiny_proxy.Proxy.Header.{ConnectionStatus}
use tiny_proxy.Proxy.Header.Scan.{Field, field_line}
use tiny_proxy.Proxy.Chunked.Chunk.{IsText-crlf, crlf}
use tiny_proxy.Proxy.Chunked.Forward.{read_text, read_line_lem}
use tiny_proxy.Proxy.Request.{
  Lines, drop_line, forward_line, act, on_line, after_header, request_loop,
}
use tiny_proxy.Proxy.Header.Fields.{
  is_hop, is_host, is_close, any_field, forwarded, wire_fields, field_ne_empty, forwarded_cons,
  Announced, announce, announce_fields, client_told, client_told_nothing, client_told_twice,
  IsHeaderField,
}
use tiny_proxy.Proxy.Request.Fields.{held, after_field, header_line-field}

module _ (rio : Rio) (rp : ℕ) (s : Stream rio rp) (fd : ℕ) (host : Bytes)
    (leave : Lines → Io rio → Run rio (ConnectionStatus × ℤ)) where
  open s use {At, write}

  module _ (k : Lines → Io rio → Run rio (ConnectionStatus × ℤ)) (f : Field) (v : Lines)
      (io : Io rio) (is : IsHeaderField f) (text : cstr v.buf ≡ field_line f ++ crlf) where
    on_line-field :
        on_line rio fd host k leave v io
        ≡ act rio fd k io
            (if is_hop f then drop_line (after_field f v) else forward_line (after_field f v))
    unfolding on_line
    on_line-field =
        let empty : str_eq (cstr v.buf) (bytes "\r\n") ≡ false =
          ap (λ x. str_eq x (bytes "\r\n")) text ∙ field_ne_empty f is.field in
        rw empty (ap (act rio fd k io) (header_line-field f v is text))

    on_line_hop : is_hop f ≡ true → on_line rio fd host k leave v io ≡ k (after_field f v) io
    on_line_hop hop =
        on_line-field
        ∙ ap
            (λ b.
              act rio fd k io
                (if b then drop_line (after_field f v) else forward_line (after_field f v)))
            hop

    on_line_kept :
        is_hop f ≡ false
        → on_line rio fd host k leave v io
          ≡ k (after_field f v) (send rio fd (field_line f ++ crlf) io)
    on_line_kept kept =
        on_line-field
        ∙ ap
            (λ b.
              act rio fd k io
                (if b then drop_line (after_field f v) else forward_line (after_field f v)))
            kept
        ∙ ap (λ x. k (after_field f v) (send rio fd x io)) text

  -- One field.
  field_round :
      (fuel : ℕ) (f : Field) (rest : Bytes) (v : Lines) (io : Io rio)
      → IsHeaderField f
      → At (field_line f ++ (b'\r' ∷ b'\n' ∷ rest)) io.world
      → (v' : Lines) × (io' : Io rio) × (request_loop rio (suc fuel) fd rp host leave v io
          ≡ request_loop rio fuel fd rp host leave v' io')
        × (v'.is_host_set ≡ (v.is_host_set || is_host f))
        × (held v' ≡ announce f (held v))
        × (v'.cstatus ≡ client_told (announce f (held v)) (is_close f) v.cstatus)
        × (io'.log ≡ io.log ++ forwarded fd (f ∷ []))
        × At rest io'.world
  unfolding request_loop after_header on_line
  field_round fuel f rest v io is here =
      let (w, e, there) =
        read_text rio rp s (field_line f) rest io.world here is.field.text is.field.short in
      let line : Bytes = field_line f ++ crlf in
      let u : Lines = record v { buf = overlay (terminated line) v.buf } in
      let io1 : Io rio = record io { world = w } in
      let k : Lines → Io rio → Run rio (ConnectionStatus × ℤ) =
        λ a i. request_loop rio fuel fd rp host leave a i in
      let text : cstr u.buf ≡ line =
        cstr-overlay line v.buf (IsText-crlf (field_line f) is.field.text) in
      elim (Bool-cases (is_hop f)) [
        | inl hop ↦ (
          after_field f u,
          io1,
          ap (after_header rio fd host k leave v) (read_line_lem rio rp s io e)
              ∙ on_line_hop k f u io1 is text hop,
          refl,
          refl,
          refl,
          rw hop (sym (append-nil io.log)),
          there,
        )
        | inr kept ↦ (
          after_field f u,
          send rio fd line io1,
          ap (after_header rio fd host k leave v) (read_line_lem rio rp s io e)
              ∙ on_line_kept k f u io1 is text kept,
          refl,
          refl,
          refl,
          rw kept refl,
          write fd line rest w there,
        )
      ]

  -- All fields.
  pub field_rounds :
      (fs : List Field) (fuel : ℕ) (rest : Bytes) (v : Lines) (io : Io rio)
      → All IsHeaderField fs
      → At (wire_fields fs rest) io.world
      → (v' : Lines) × (io' : Io rio) × (request_loop rio (length fs + fuel) fd rp host leave v io
          ≡ request_loop rio fuel fd rp host leave v' io')
        × (v'.is_host_set ≡ (v.is_host_set || any_field is_host fs))
        × (held v' ≡ announce_fields fs (held v))
        × (v'.cstatus ≡ client_told (announce_fields fs (held v)) (any_field is_close fs) v.cstatus)
        × (io'.log ≡ io.log ++ forwarded fd fs)
        × At (b'\r' ∷ b'\n' ∷ rest) io'.world
  field_rounds [] fuel rest v io is here = (
    v,
    io,
    ap (λ x. request_loop rio x fd rp host leave v io) (omega arith),
    ground arith,
    refl,
    sym (client_told_nothing v.is_contentlength_set v.cstatus),
    sym (append-nil io.log),
    here,
  )
  field_rounds (f ∷ fs) fuel rest v io is here =
      let (v1, io1, e1, h1, n1, c1, l1, at1) =
        field_round (length fs + fuel) f (wire_fields fs rest) v io is.0 here in
      let (v2, io2, e2, h2, n2, c2, l2, at2) = field_rounds fs fuel rest v1 io1 is.1 at1 in
      (
        v2,
        io2,
        ap (λ x. request_loop rio x fd rp host leave v io) (omega arith) ∙ e1 ∙ e2,
        h2
            ∙ ap (λ x. x || any_field is_host fs) h1
            ∙ or_assoc v.is_host_set (is_host f) (any_field is_host fs),
        n2 ∙ ap (announce_fields fs) n1,
        c2
            ∙ ap
                (λ (x : Announced).
                  client_told (announce_fields fs x) (any_field is_close fs) v1.cstatus)
                n1
            ∙ ap (client_told (announce_fields fs (announce f (held v))) (any_field is_close fs)) c1
            ∙ client_told_twice (announce f (held v)) (announce_fields fs (announce f (held v)))
                (is_close f) (any_field is_close fs) v.cstatus,
        l2
            ∙ ap (λ x. x ++ forwarded fd fs) l1
            ∙ append_assoc io.log _ (forwarded fd fs)
            ∙ ap (λ x. io.log ++ x) (forwarded_cons fd f fs),
        at2,
      )
