-- ===== src/Proxy/Reply.antt =====
-- `forward_reply` and `reply_nonconnection` of proxy.c.
pub mod Closed
pub mod Once
pub mod Fields
pub mod Rounds
pub mod Body
pub mod Whole
pub mod Cut
use tiny_proxy.Base.{
  ℕ, zero, suc, ◌+◌, ◌^◌, Bool, true, false, not, ◌||◌, Option, none, some, [], if◌then◌else◌, take,
  ltb, ◌==◌,
}
use tiny_proxy.Base.Int.{ℤ, pos, negsuc}
use tiny_proxy.CString.{Bytes, bytes, str_eq, strcase_eq}
use tiny_proxy.Proxy.Buffer.{overlay, cstr, terminated}
use tiny_proxy.Proxy.Rio.{
  Rio, Read, got, eof, failed, Errno, again, hard, Io, Run, done, aborted, fault, out_of_fuel, send,
  maxline,
}
use tiny_proxy.Proxy.Header.{Header, sscanf_header, scan_word, atoi, ConnectionStatus}
use tiny_proxy.Proxy.Chunked.Loop.{count, fill_line, stored, read_line, read_block, forward_chunked}
use tiny_proxy.Proxy.Request.{clienterror, close_line, proxy_close_line, fits_type, send_string}

-- The variables of the loop over the header lines.
pub record ReplyLines : Type 0 where
  pub buf : Bytes
  pub header : Header
  pub is_contentlength_set : Bool
  pub cstatus : ConnectionStatus

pub data ReplyAction : Type 0 where
  drop_reply : ReplyLines → ReplyAction
  forward_reply_line : ReplyLines → ReplyAction
  bad_reply : ReplyAction

abbrev pub close_server : ReplyLines → ReplyLines
close_server v =
    if strcase_eq v.header.headerdata (bytes "close")
    then record v { cstatus = record v.cstatus { server_setclose = true } }
    else v

unfoldable pub set_reply_trailer : ReplyLines → (ReplyLines → ReplyAction) → ReplyAction
set_reply_trailer v k =
    if strcase_eq v.header.headername (bytes "Trailer")
    then (if fits_type v.header.headerdata
        then k (record v { cstatus = record v.cstatus { server_trailer = v.header.headerdata } })
        else bad_reply)
    else k v

abbrev pub store_reply_length : ReplyLines → Option ℤ → (ReplyLines → ReplyAction) → ReplyAction
store_reply_length v none k = bad_reply
store_reply_length v (some n) k = k (record v {
  cstatus = record v.cstatus { server_content_length = n };
  is_contentlength_set = true;
})

unfoldable pub set_reply_length : ReplyLines → (ReplyLines → ReplyAction) → ReplyAction
set_reply_length v k =
    if str_eq v.header.headername (bytes "Content-length")
    then store_reply_length v (atoi v.header.headerdata) k
    else k v

unfoldable pub set_reply_encoding : ReplyLines → (ReplyLines → ReplyAction) → ReplyAction
set_reply_encoding v k =
    if str_eq v.header.headername (bytes "Transfer-Encoding")
    then (if fits_type v.header.headerdata
        then k (record v {
          cstatus = record v.cstatus { server_transfer_encoding = v.header.headerdata };
        })
        else bad_reply)
    else k v

-- The tests on the name of a header, in their order.
unfoldable pub examine_reply : ReplyLines → ReplyAction
unfolding set_reply_trailer set_reply_length set_reply_encoding
examine_reply v =
    let name = v.header.headername in
    if str_eq name (bytes "Connection")
    then drop_reply (close_server v)
    else if str_eq name (bytes "Proxy-Connection")
    then drop_reply (close_server v)
    else set_reply_trailer v
        (λ a. set_reply_length a (λ b. set_reply_encoding b forward_reply_line))

unfoldable pub reply_header_line : ReplyLines → ReplyAction
unfolding sscanf_header examine_reply
reply_header_line v = examine_reply (record v { header = sscanf_header (cstr v.buf) v.header })

-- `sscanf(buf, "%s %s %s", version, code, msg)`: only `version` is used afterwards.
unfoldable pub note_version : Bytes → Bytes → ConnectionStatus → ConnectionStatus
note_version line version c =
    if str_eq (scan_word version line) (bytes "HTTP/1.0")
    then record c { server_setclose = true }
    else c

-- What the function returns: `none` where it ends without a `return`.
abbrev pub Reply : Type 0
Reply = ConnectionStatus × Option ℤ

module _ (rio : Rio) where
  -- A body of `n` bytes, through an array of `n + 1` that is not initialised (`garbage`).
  unfoldable pub after_reply_content : ℕ → ℕ → Bytes → Read × Io rio → Bool × Io rio
  after_reply_content fd n garbage (r, io) = (
    elim (count r) [ none ↦ false | some k ↦ k == 0 ],
    send rio fd (take n (overlay (stored r) garbage)) io,
  )

  -- An array of no bytes or fewer is undefined, and so is the `int` sum of its size at the largest
  -- length.
  unfoldable pub reply_content : ℕ → ℕ → (ℕ → Bytes) → ConnectionStatus → Io rio → ℤ → Run rio Reply
  unfolding after_reply_content
  reply_content fd rp garbage c io (negsuc _) = fault
  reply_content fd rp garbage c io (pos n) =
      let (ended, io') = after_reply_content fd n (garbage (n + 1)) (read_block rio rp n io) in
      if ltb (n + 1) (2 ^ 31)
      then done (record c { server_shuttingdown = c.server_shuttingdown || ended }, none) io'
      else fault

  abbrev pub reply_chunked : ConnectionStatus → Run rio ℕ → Run rio Reply
  reply_chunked c (done n io) = done (c, none) io
  reply_chunked c aborted = aborted
  reply_chunked c fault = fault
  reply_chunked c out_of_fuel = out_of_fuel

  -- The body. `chunk_buf` and `content_length` are what `forward_chunked` finds in its variables.
  unfoldable pub reply_body :
      ℕ → ℕ → ℕ → (ℕ → Bytes) → Bytes → ℕ → ReplyLines → Io rio → Run rio Reply
  unfolding reply_content forward_chunked
  reply_body fuel fd rp garbage chunk_buf content_length v io =
      let c = v.cstatus in
      if strcase_eq c.server_transfer_encoding (bytes "chunked")
      then reply_chunked c
          (forward_chunked rio fuel fd rp c.server_trailer chunk_buf content_length io)
      else if v.is_contentlength_set
      then reply_content fd rp garbage c io c.server_content_length
      else done (record c { client_setclose = true; server_setclose = true }, none)
          (clienterror rio fd (bytes "400") (bytes "Bad reply") io)

  abbrev pub act_reply :
      ℕ → (ReplyLines → Io rio → Run rio Reply) → Io rio → ReplyAction → Run rio Reply
  act_reply fd k io (drop_reply v) = k v io
  act_reply fd k io (forward_reply_line v) = k v (send_string rio fd v.buf io)
  act_reply fd k io bad_reply = fault

  -- A line in the array: `k` goes on with the loop, `leave` with what stands behind it.
  unfoldable pub on_reply_line :
      ℕ → (k leave : ReplyLines → Io rio → Run rio Reply) → ReplyLines → Io rio → Run rio Reply
  unfolding reply_header_line
  on_reply_line fd k leave v io =
      if str_eq (cstr v.buf) (bytes "\r\n")
      then leave v (send_string rio fd v.buf io)
      else act_reply fd k io (reply_header_line v)

  -- One round, given the read.
  unfoldable pub after_reply_header :
      ℕ
      → (k leave : ReplyLines → Io rio → Run rio Reply) → ReplyLines
      → Read × Io rio
      → Run rio Reply
  unfolding on_reply_line
  after_reply_header fd k leave v (got bs, io) =
      on_reply_line fd k leave (record v { buf = fill_line (got bs) v.buf }) io
  after_reply_header fd k leave v (eof, io) =
      done (record v.cstatus { client_shuttingdown = true }, some (negsuc 0)) io
  after_reply_header fd k leave v (failed hard bs, io) =
      k (record v { buf = fill_line (failed hard bs) v.buf }) io
  after_reply_header fd k leave v (failed again bs, io) =
      on_reply_line fd k leave (record v { buf = fill_line (failed again bs) v.buf }) io

  unfoldable pub reply_loop :
      ℕ
      → ℕ
      → ℕ
      → (leave : ReplyLines → Io rio → Run rio Reply) → ReplyLines
      → Io rio
      → Run rio Reply
  unfolding after_reply_header
  reply_loop zero fd rp leave v io = out_of_fuel
  reply_loop (suc fuel) fd rp leave v io =
      after_reply_header fd (λ u i. reply_loop fuel fd rp leave u i) leave v (read_line rio rp io)

  -- The two lines for a client that closes, through the array.
  abbrev pub close_lines : ℕ → Bool → Bytes → Io rio → Bytes × Io rio
  close_lines fd false buf io = (buf, io)
  close_lines fd true buf io =
      let buf' = overlay (terminated close_line) buf in
      let buf'' = overlay (terminated proxy_close_line) buf' in
      (buf'', send_string rio fd buf'' (send_string rio fd buf' io))

  -- From the `sscanf` of the status line on, with that line in the array.
  unfoldable pub after_status :
      (fuel fd rp : ℕ) (version : Bytes)
      → Header
      → (leave : ReplyLines → Io rio → Run rio Reply) → ConnectionStatus
      → Bytes
      → Io rio
      → Run rio Reply
  unfolding note_version reply_loop
  after_status fuel fd rp version header leave c buf io =
      let c' = note_version (cstr buf) version c in
      let (buf', io') = close_lines fd c'.client_setclose buf (send_string rio fd buf io) in
      reply_loop fuel fd rp leave
        (record { buf = buf'; header = header; is_contentlength_set = false; cstatus = c' }) io'

  -- The status line: the read, and what follows.
  unfoldable pub after_first_read :
      (fuel fd rp : ℕ) (version : Bytes)
      → Header
      → (leave : ReplyLines → Io rio → Run rio Reply) → ConnectionStatus
      → Bytes
      → Read × Io rio
      → Run rio Reply
  unfolding after_status
  after_first_read fuel fd rp version header leave c buf (eof, io) =
      done (record c { server_shuttingdown = true }, some (pos 0)) io
  after_first_read fuel fd rp version header leave c buf (r, io) =
      after_status fuel fd rp version header leave c (fill_line r buf) io

  -- The function. `fuel` bounds each of its loops; `buf`, `version`, `header`, `garbage`, `chunk_buf`
  -- and `content_length` are what the arrays and variables hold that are not initialised.
  unfoldable pub forward_reply :
      (fuel fd rp : ℕ) (buf version : Bytes)
      → Header
      → (garbage : ℕ → Bytes) (chunk_buf : Bytes) (content_length : ℕ) → ConnectionStatus
      → Io rio
      → Run rio Reply
  unfolding after_first_read reply_body
  forward_reply fuel fd rp buf version header garbage chunk_buf content_length c io =
      after_first_read fuel fd rp version header
        (λ v i. reply_body fuel fd rp garbage chunk_buf content_length v i) c buf
        (read_line rio rp io)

  -- One round of the loop of `reply_nonconnection`, given the read. An error is -1, as a `size_t`
  -- the number of bytes to write.
  abbrev pub after_piece : ℕ → (Io rio → Run rio (Unit {0})) → Read × Io rio → Run rio (Unit {0})
  after_piece clientfd k (got bs, io) = k (send rio clientfd bs io)
  after_piece clientfd k (eof, io) = done tt io
  after_piece clientfd k (failed e bs, io) = fault

  unfoldable pub reply_nonconnection : ℕ → ℕ → ℕ → Io rio → Run rio (Unit {0})
  reply_nonconnection zero clientfd rp io = out_of_fuel
  reply_nonconnection (suc fuel) clientfd rp io =
      after_piece clientfd (λ i. reply_nonconnection fuel clientfd rp i)
        (read_block rio rp maxline io)
