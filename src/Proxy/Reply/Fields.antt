-- ===== src/Proxy/Reply/Fields.antt =====
-- What `forward_reply` does with the line of a header field.
use tiny_proxy.Base.{◌≡◌, ◌++◌, if◌then◌else◌, arith}
use tiny_proxy.Proxy.Buffer.{cstr}
use tiny_proxy.Proxy.Header.Scan.{Field, field_line, sscanf_header-field}
use tiny_proxy.Proxy.Header.Fields.{
  is_hop, is_close, Announced, announce, server_told, server_held, IsHeaderField, atoi-token,
}
use tiny_proxy.Proxy.Chunked.Chunk.{crlf}
use tiny_proxy.Proxy.Reply.{
  ReplyLines, drop_reply, forward_reply_line, set_reply_trailer, set_reply_length,
  set_reply_encoding, examine_reply, reply_header_line,
}

abbrev pub held : ReplyLines → Announced
held v = server_held v.is_contentlength_set v.cstatus

-- The variables after a line.
abbrev pub after_reply_field : Field → ReplyLines → ReplyLines
after_reply_field f v =
    let a : Announced = announce f (held v) in
    record v {
      header = record { headername = f.name; headerdata = f.token };
      is_contentlength_set = a.has_length;
      cstatus = server_told a (is_close f) v.cstatus;
    }

pub reply_header_line-field :
    (f : Field) (v : ReplyLines)
    → IsHeaderField f
    → cstr v.buf ≡ field_line f ++ crlf
    → reply_header_line v ≡ (
        if is_hop f
        then drop_reply (after_reply_field f v)
        else forward_reply_line (after_reply_field f v))
unfolding reply_header_line examine_reply set_reply_trailer set_reply_length set_reply_encoding
reply_header_line-field f v is text =
    rw (text, sscanf_header-field f v.header is.field)
      (ground (arith, is.trailer, is.encoding, atoi-token f is))
