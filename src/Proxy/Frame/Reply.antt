-- ===== src/Proxy/Frame/Reply.antt =====
-- What `forward_reply` and `reply_nonconnection` leave alone.
use tiny_proxy.Base.{ℕ, zero, suc, ◌+◌, ◌^◌, Bool, true, false, ltb}
use tiny_proxy.Base.Int.{ℤ, pos, negsuc}
use tiny_proxy.CString.{Bytes, bytes, str_eq, strcase_eq}
use tiny_proxy.Proxy.Buffer.{cstr}
use tiny_proxy.Proxy.Rio.{
  Rio, Read, got, eof, failed, again, hard, Io, Run, done, aborted, fault, out_of_fuel, maxline,
}
use tiny_proxy.Proxy.Header.{Header, ConnectionStatus}
use tiny_proxy.Proxy.Chunked.Loop.{read_line, read_block}
use tiny_proxy.Proxy.Reply.{
  ReplyLines, ReplyAction, drop_reply, forward_reply_line, bad_reply, Reply, reply_header_line,
  act_reply, on_reply_line, after_reply_header, reply_loop, reply_content, reply_chunked,
  reply_body, close_lines, after_status, after_first_read, forward_reply, after_piece,
  reply_nonconnection, note_version,
}
use tiny_proxy.Proxy.Frame.{Ensures, Keeps, Ensures-if}
use tiny_proxy.Proxy.Frame.Chunked.{forward_chunked-Ensures}

module _ {rio : Rio} {rp fd : ℕ} {P : Io rio → Type 0} (keeps : Keeps rio rp fd P) where
  reply_chunked-Ensures :
      (c : ConnectionStatus) (r : Run rio ℕ) → Ensures P r → Ensures P (reply_chunked rio c r)
  reply_chunked-Ensures c (done n io) h = h
  reply_chunked-Ensures c aborted h = tt
  reply_chunked-Ensures c fault h = tt
  reply_chunked-Ensures c out_of_fuel h = tt

  reply_content-Ensures :
      (garbage : ℕ → Bytes) (c : ConnectionStatus) (io : Io rio) (size : ℤ)
      → P io
      → Ensures P (reply_content rio fd rp garbage c io size)
  unfolding reply_content
  reply_content-Ensures garbage c io (negsuc _) h = tt
  reply_content-Ensures garbage c io (pos n) h =
      Ensures-if P (ltb (n + 1) (2 ^ 31)) _ _ (keeps.write _ _ (keeps.block n io h)) tt

  reply_body-Ensures :
      (fuel : ℕ) (garbage : ℕ → Bytes) (chunk_buf : Bytes) (n : ℕ) (v : ReplyLines) (io : Io rio)
      → P io
      → Ensures P (reply_body rio fuel fd rp garbage chunk_buf n v io)
  unfolding reply_body
  reply_body-Ensures fuel garbage chunk_buf n v io h =
      let c = v.cstatus in
      Ensures-if P (strcase_eq c.server_transfer_encoding (bytes "chunked")) _ _
        (reply_chunked-Ensures c _
          (forward_chunked-Ensures keeps fuel c.server_trailer chunk_buf n io h))
        (Ensures-if P v.is_contentlength_set _ _
          (reply_content-Ensures garbage c io c.server_content_length h) (keeps.write _ io h))

  module _ (k leave : ReplyLines → Io rio → Run rio Reply)
      (next : (v : ReplyLines) (i : Io rio) → P i → Ensures P (k v i))
      (left : (v : ReplyLines) (i : Io rio) → P i → Ensures P (leave v i)) where
    act_reply-Ensures : (io : Io rio) (a : ReplyAction) → P io → Ensures P (act_reply rio fd k io a)
    act_reply-Ensures io (drop_reply v) h = next v io h
    act_reply-Ensures io (forward_reply_line v) h = next v _ (keeps.write _ io h)
    act_reply-Ensures io bad_reply h = tt

    on_reply_line-Ensures :
        (v : ReplyLines) (io : Io rio) → P io → Ensures P (on_reply_line rio fd k leave v io)
    unfolding on_reply_line
    on_reply_line-Ensures v io h =
        Ensures-if P (str_eq (cstr v.buf) (bytes "\r\n")) _ _ (left v _ (keeps.write _ io h))
          (act_reply-Ensures io (reply_header_line v) h)

    after_reply_header-Ensures :
        (v : ReplyLines) (q : Read × Io rio)
        → P q.1
        → Ensures P (after_reply_header rio fd k leave v q)
    unfolding after_reply_header
    after_reply_header-Ensures v (got bs, io) h = on_reply_line-Ensures _ io h
    after_reply_header-Ensures v (eof, io) h = h
    after_reply_header-Ensures v (failed hard bs, io) h = next _ io h
    after_reply_header-Ensures v (failed again bs, io) h = on_reply_line-Ensures _ io h

  module _ (leave : ReplyLines → Io rio → Run rio Reply)
      (left : (v : ReplyLines) (i : Io rio) → P i → Ensures P (leave v i)) where
    reply_loop-Ensures :
        (fuel : ℕ) (v : ReplyLines) (io : Io rio)
        → P io
        → Ensures P (reply_loop rio fuel fd rp leave v io)
    unfolding reply_loop
    reply_loop-Ensures zero v io h = tt
    reply_loop-Ensures (suc fuel) v io h =
        after_reply_header-Ensures (λ u i. reply_loop rio fuel fd rp leave u i) leave
          (λ u i hi. reply_loop-Ensures fuel u i hi) left v (read_line rio rp io) (keeps.line io h)

    close_lines-keeps :
        (b : Bool) (buf : Bytes) (io : Io rio) → P io → P (close_lines rio fd b buf io).1
    close_lines-keeps false buf io h = h
    close_lines-keeps true buf io h = keeps.write _ _ (keeps.write _ io h)

    after_status-Ensures :
        (fuel : ℕ) (version : Bytes) (header : Header) (c : ConnectionStatus) (buf : Bytes)
        (io : Io rio)
        → P io
        → Ensures P (after_status rio fuel fd rp version header leave c buf io)
    unfolding after_status
    after_status-Ensures fuel version header c buf io h =
        let b = (note_version (cstr buf) version c).client_setclose in
        reply_loop-Ensures fuel _ _ (close_lines-keeps b buf _ (keeps.write _ io h))

    after_first_read-Ensures :
        (fuel : ℕ) (version : Bytes) (header : Header) (c : ConnectionStatus) (buf : Bytes)
        (q : Read × Io rio)
        → P q.1
        → Ensures P (after_first_read rio fuel fd rp version header leave c buf q)
    unfolding after_first_read
    after_first_read-Ensures fuel version header c buf (eof, io) h = h
    after_first_read-Ensures fuel version header c buf (got bs, io) h =
        after_status-Ensures fuel version header c _ io h
    after_first_read-Ensures fuel version header c buf (failed e bs, io) h =
        after_status-Ensures fuel version header c _ io h

  -- Whatever the server sends and for any fuel: a predicate `P` of the state and the calls made so far,
  -- which holds at first and which reads of the stream `rp` and writes to `fd` keep, holds when the
  -- function returns.
  pub forward_reply-Ensures :
      (fuel : ℕ) (buf version : Bytes) (header : Header) (garbage : ℕ → Bytes) (chunk_buf : Bytes)
      (n : ℕ) (c : ConnectionStatus) (io : Io rio)
      → P io
      → Ensures P (forward_reply rio fuel fd rp buf version header garbage chunk_buf n c io)
  unfolding forward_reply
  forward_reply-Ensures fuel buf version header garbage chunk_buf n c io h =
      after_first_read-Ensures (λ v i. reply_body rio fuel fd rp garbage chunk_buf n v i)
        (λ v i hi. reply_body-Ensures fuel garbage chunk_buf n v i hi) fuel version header c buf
        (read_line rio rp io) (keeps.line io h)

  after_piece-Ensures :
      (k : Io rio → Run rio (Unit {0})) (next : (i : Io rio) → P i → Ensures P (k i))
      (q : Read × Io rio)
      → P q.1
      → Ensures P (after_piece rio fd k q)
  after_piece-Ensures k next (got bs, io) h = next _ (keeps.write bs io h)
  after_piece-Ensures k next (eof, io) h = h
  after_piece-Ensures k next (failed e bs, io) h = tt

  pub reply_nonconnection-Ensures :
      (fuel : ℕ) (io : Io rio) → P io → Ensures P (reply_nonconnection rio fuel fd rp io)
  unfolding reply_nonconnection
  reply_nonconnection-Ensures zero io h = tt
  reply_nonconnection-Ensures (suc fuel) io h =
      after_piece-Ensures (λ i. reply_nonconnection rio fuel fd rp i)
        (λ i hi. reply_nonconnection-Ensures fuel i hi) (read_block rio rp maxline io)
        (keeps.block maxline io h)
