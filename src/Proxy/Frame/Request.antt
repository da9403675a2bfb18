-- ===== src/Proxy/Frame/Request.antt =====
-- What `forward_requestheader` leaves alone.
use tiny_proxy.Base.{ℕ, zero, suc, ◌+◌, ◌^◌, not, ltb}
use tiny_proxy.Base.Int.{ℤ, pos, negsuc}
use tiny_proxy.CString.{Bytes, bytes, str_eq, strcase_eq}
use tiny_proxy.Proxy.Buffer.{cstr}
use tiny_proxy.Proxy.Rio.{
  Rio, Read, got, eof, failed, again, hard, Io, Run, done, aborted, fault, out_of_fuel,
}
use tiny_proxy.Proxy.Header.{Header, ConnectionStatus}
use tiny_proxy.Proxy.Chunked.Loop.{read_line}
use tiny_proxy.Proxy.Request.{
  Lines, Action, drop_line, forward_line, bad, header_line, act, on_line, after_header,
  request_loop, end_of_header, request_content, return_chunked, request_body, forward_requestheader,
}
use tiny_proxy.Proxy.Frame.{Ensures, Keeps, Ensures-if, either}
use tiny_proxy.Proxy.Frame.Chunked.{forward_chunked-Ensures}

module _ {rio : Rio} {rp fd : ℕ} {P : Io rio → Type 0} (keeps : Keeps rio rp fd P) where
  return_chunked-Ensures :
      (c : ConnectionStatus) (r : Run rio ℕ) → Ensures P r → Ensures P (return_chunked rio c r)
  return_chunked-Ensures c (done n io) h = h
  return_chunked-Ensures c aborted h = tt
  return_chunked-Ensures c fault h = tt
  return_chunked-Ensures c out_of_fuel h = tt

  request_content-Ensures :
      (garbage : ℕ → Bytes) (c : ConnectionStatus) (io : Io rio) (size : ℤ)
      → P io
      → Ensures P (request_content rio fd rp garbage c io size)
  unfolding request_content
  request_content-Ensures garbage c io (negsuc _) h = tt
  request_content-Ensures garbage c io (pos n) h =
      Ensures-if P (ltb (n + 1) (2 ^ 31)) _ _ (keeps.write _ _ (keeps.block n io h)) tt

  request_body-Ensures :
      (fuel : ℕ) (method : Bytes) (garbage : ℕ → Bytes) (chunk_buf : Bytes) (n : ℕ) (v : Lines)
      (io : Io rio)
      → P io
      → Ensures P (request_body rio fuel fd rp method garbage chunk_buf n v io)
  unfolding request_body
  request_body-Ensures fuel method garbage chunk_buf n v io h =
      let c = v.cstatus in
      Ensures-if P (not (str_eq method (bytes "POST"))) _ _ h (
        Ensures-if P (strcase_eq c.client_transfer_encoding (bytes "chunked")) _ _
          (return_chunked-Ensures c _
            (forward_chunked-Ensures keeps fuel c.client_trailer chunk_buf n io h))
          (Ensures-if P v.is_contentlength_set _ _
            (request_content-Ensures garbage c io c.client_content_length h) (keeps.write _ io h)))

  end_of_header-keeps :
      (host : Bytes) (v : Lines) (io : Io rio) → P io → P (end_of_header rio fd host v io)
  unfolding end_of_header
  end_of_header-keeps host v io h =
      either P v.is_host_set _ _ (keeps.write _ io h) (keeps.write _ _ (keeps.write _ io h))

  module _ (k leave : Lines → Io rio → Run rio (ConnectionStatus × ℤ))
      (next : (v : Lines) (i : Io rio) → P i → Ensures P (k v i))
      (left : (v : Lines) (i : Io rio) → P i → Ensures P (leave v i)) where
    act-Ensures : (io : Io rio) (a : Action) → P io → Ensures P (act rio fd k io a)
    act-Ensures io (drop_line v) h = next v io h
    act-Ensures io (forward_line v) h = next v _ (keeps.write _ io h)
    act-Ensures io bad h = tt

    on_line-Ensures :
        (host : Bytes) (v : Lines) (io : Io rio)
        → P io
        → Ensures P (on_line rio fd host k leave v io)
    unfolding on_line
    on_line-Ensures host v io h =
        Ensures-if P (str_eq (cstr v.buf) (bytes "\r\n")) _ _
          (left v _ (end_of_header-keeps host v io h)) (act-Ensures io (header_line v) h)

    after_header-Ensures :
        (host : Bytes) (v : Lines) (q : Read × Io rio)
        → P q.1
        → Ensures P (after_header rio fd host k leave v q)
    unfolding after_header
    after_header-Ensures host v (got bs, io) h = on_line-Ensures host _ io h
    after_header-Ensures host v (eof, io) h = h
    after_header-Ensures host v (failed hard bs, io) h = next _ io h
    after_header-Ensures host v (failed again bs, io) h = on_line-Ensures host _ io h

  request_loop-Ensures :
      (fuel : ℕ) (host : Bytes) (leave : Lines → Io rio → Run rio (ConnectionStatus × ℤ))
      (left : (v : Lines) (i : Io rio) → P i → Ensures P (leave v i)) (v : Lines) (io : Io rio)
      → P io
      → Ensures P (request_loop rio fuel fd rp host leave v io)
  unfolding request_loop
  request_loop-Ensures zero host leave left v io h = tt
  request_loop-Ensures (suc fuel) host leave left v io h =
      after_header-Ensures (λ u i. request_loop rio fuel fd rp host leave u i) leave
        (λ u i hi. request_loop-Ensures fuel host leave left u i hi) left host v
        (read_line rio rp io) (keeps.line io h)

  -- Whatever the client sends and for any fuel: a predicate `P` of the state and the calls made so far,
  -- which holds at first and which reads of the stream `rp` and writes to `fd` keep, holds when the
  -- function returns.
  pub forward_requestheader-Ensures :
      (fuel : ℕ) (host method buf : Bytes) (header : Header) (garbage : ℕ → Bytes)
      (chunk_buf : Bytes) (n : ℕ) (c : ConnectionStatus) (io : Io rio)
      → P io
      → Ensures P
          (forward_requestheader rio fuel fd rp host method buf header garbage chunk_buf n c io)
  unfolding forward_requestheader
  forward_requestheader-Ensures fuel host method buf header garbage chunk_buf n c io h =
      request_loop-Ensures fuel host
        (λ v i. request_body rio fuel fd rp method garbage chunk_buf n v i)
        (λ v i hi. request_body-Ensures fuel method garbage chunk_buf n v i hi) _ _
        (keeps.write _ _ (keeps.write _ io h))
