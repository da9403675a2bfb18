-- ===== src/Proxy/Request/Fields.antt =====
-- What `forward_requestheader` does with the line of a header field.
use tiny_proxy.Base.{◌≡◌, ◌||◌, ◌++◌, if◌then◌else◌, arith}
use tiny_proxy.Proxy.Buffer.{cstr}
use tiny_proxy.Proxy.Header.Scan.{Field, field_line, sscanf_header-field}
use tiny_proxy.Proxy.Header.Fields.{
  is_hop, is_host, is_close, Announced, announce, client_told, client_held, IsHeaderField,
  atoi-token,
}
use tiny_proxy.Proxy.Chunked.Chunk.{crlf}
use tiny_proxy.Proxy.Request.{
  Lines, drop_line, forward_line, examine, header_line, set_trailer, set_length, set_encoding,
}

abbrev pub held : Lines → Announced
held v = client_held v.is_contentlength_set v.cstatus

-- The variables after a line.
abbrev pub after_field : Field → Lines → Lines
after_field f v =
    let a : Announced = announce f (held v) in
    record v {
      header = record { headername = f.name; headerdata = f.token };
      is_host_set = v.is_host_set || is_host f;
      is_contentlength_set = a.has_length;
      cstatus = client_told a (is_close f) v.cstatus;
    }

pub header_line-field :
    (f : Field) (v : Lines)
    → IsHeaderField f
    → cstr v.buf ≡ field_line f ++ crlf
    → header_line v
      ≡ (if is_hop f then drop_line (after_field f v) else forward_line (after_field f v))
unfolding header_line examine set_trailer set_length set_encoding
header_line-field f v is text =
    rw (text, sscanf_header-field f v.header is.field)
      (ground (arith, is.trailer, is.encoding, atoi-token f is))
