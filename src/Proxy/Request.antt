-- ===== src/Proxy/Request.antt =====
-- `forward_requestheader` and `clienterror` of proxy.c.
pub mod Fields
pub mod Rounds
pub mod Body
pub mod Forward
pub mod Whole
use tiny_proxy.Base.{
  ℕ, zero, suc, ◌+◌, ◌*◌, ◌^◌, Bool, true, false, not, ◌&&◌, ◌||◌, Option, none, some, [], ◌∷◌,
  ◌++◌, if◌then◌else◌, length, take, ltb, leb, ◌==◌,
}
use tiny_proxy.Base.Int.{ℤ, pos, negsuc}
use tiny_proxy.CString.{Bytes, bytes, str_eq, strcase_eq}
use tiny_proxy.Proxy.Buffer.{overlay, cstr, terminated}
use tiny_proxy.Proxy.Rio.{
  Rio, Read, got, eof, failed, Errno, again, hard, Io, Run, done, aborted, fault, out_of_fuel, send,
  maxline,
}
use tiny_proxy.Proxy.Header.{Header, sscanf_header, atoi, ConnectionStatus, typestrlen}
use tiny_proxy.Proxy.Chunked.Loop.{count, fill_line, stored, read_line, read_block, forward_chunked}

-- The line that `clienterror` writes.
abbrev pub error_line : Bytes → Bytes → Bytes
error_line errnum shortmsg =
    bytes "HTTP/1.0 " ++ (errnum ++ (bytes " " ++ (shortmsg ++ bytes "\r\n")))

abbrev pub close_line : Bytes
close_line = bytes "Connection: close\r\n"

abbrev pub proxy_close_line : Bytes
proxy_close_line = bytes "Proxy-Connection: close\r\n"

-- The variables of the loop over the header lines.
pub record Lines : Type 0 where
  pub buf : Bytes
  pub header : Header
  pub is_host_set : Bool
  pub is_contentlength_set : Bool
  pub cstatus : ConnectionStatus

-- What one header line does: it is dropped or forwarded, with the new variables, or undefined.
pub data Action : Type 0 where
  drop_line : Lines → Action
  forward_line : Lines → Action
  bad : Action

abbrev pub close_client : Lines → Lines
close_client v =
    if strcase_eq v.header.headerdata (bytes "close")
    then record v { cstatus = record v.cstatus { client_setclose = true } }
    else v

-- `strcpy` into an array of 96 bytes.
abbrev pub fits_type : Bytes → Bool
fits_type b = ltb (length b) typestrlen

unfoldable pub set_trailer : Lines → (Lines → Action) → Action
set_trailer v k =
    if strcase_eq v.header.headername (bytes "Trailer")
    then (if fits_type v.header.headerdata
        then k (record v { cstatus = record v.cstatus { client_trailer = v.header.headerdata } })
        else bad)
    else k v

abbrev pub store_length : Lines → Option ℤ → (Lines → Action) → Action
store_length v none k = bad
store_length v (some n) k = k (record v {
  cstatus = record v.cstatus { client_content_length = n };
  is_contentlength_set = true;
})

unfoldable pub set_length : Lines → (Lines → Action) → Action
set_length v k =
    if str_eq v.header.headername (bytes "Content-length")
    then store_length v (atoi v.header.headerdata) k
    else k v

unfoldable pub set_encoding : Lines → (Lines → Action) → Action
set_encoding v k =
    if str_eq v.header.headername (bytes "Transfer-Encoding")
    then (if fits_type v.header.headerdata
        then k (record v {
          cstatus = record v.cstatus { client_transfer_encoding = v.header.headerdata };
        })
        else bad)
    else k v

-- The tests on the name of a header, in their order.
unfoldable pub examine : Lines → Action
unfolding set_trailer set_length set_encoding
examine v =
    let name = v.header.headername in
    let u : Lines = record v { is_host_set = v.is_host_set || str_eq name (bytes "Host") } in
    if str_eq name (bytes "Connection")
    then drop_line (close_client u)
    else if str_eq name (bytes "Proxy-Connection")
    then drop_line (close_client u)
    else set_trailer u (λ a. set_length a (λ b. set_encoding b forward_line))

-- One header line in the array: the `sscanf` and the tests.
unfoldable pub header_line : Lines → Action
unfolding sscanf_header examine
header_line v = examine (record v { header = sscanf_header (cstr v.buf) v.header })

module _ (rio : Rio) where
  -- The page that the function makes of its other arguments in `body` is not written.
  abbrev pub clienterror : ℕ → Bytes → Bytes → Io rio → Io rio
  clienterror fd errnum shortmsg io = send rio fd (error_line errnum shortmsg) io

  -- `rio_writen(fd, buf, strlen(buf))`
  abbrev pub send_string : ℕ → Bytes → Io rio → Io rio
  send_string fd buf io = send rio fd (cstr buf) io

  -- A body of `n` bytes, through an array of `n + 1` that is not initialised (`garbage`). The second
  -- result says whether anything came.
  unfoldable pub after_content : ℕ → ℕ → Bytes → Read × Io rio → Bool × Io rio
  after_content fd n garbage (r, io) = (
    elim (count r) [ none ↦ true | some k ↦ not (k == 0) ],
    send rio fd (take n (overlay (stored r) garbage)) io,
  )

  -- What is done with a body of the length that the header said. An array of no bytes or fewer is
  -- undefined, and so is the `int` sum of its size at the largest length.
  unfoldable pub request_content :
      ℕ → ℕ → (ℕ → Bytes) → ConnectionStatus → Io rio → ℤ → Run rio (ConnectionStatus × ℤ)
  unfolding after_content
  request_content fd rp garbage c io (negsuc _) = fault
  request_content fd rp garbage c io (pos n) =
      let (some_came, io') = after_content fd n (garbage (n + 1)) (read_block rio rp n io) in
      if ltb (n + 1) (2 ^ 31)
      then done (record c { client_shuttingdown = c.client_shuttingdown || not some_came }, pos 0)
          io'
      else fault

  abbrev pub return_chunked : ConnectionStatus → Run rio ℕ → Run rio (ConnectionStatus × ℤ)
  return_chunked c (done n io) = done (c, pos 0) io
  return_chunked c aborted = aborted
  return_chunked c fault = fault
  return_chunked c out_of_fuel = out_of_fuel

  -- The code behind the loop: the body of a POST. `chunk_buf` and `content_length` are what
  -- `forward_chunked` finds in its variables.
  unfoldable pub request_body :
      ℕ → ℕ → ℕ → Bytes → (ℕ → Bytes) → Bytes → ℕ → Lines → Io rio → Run rio (ConnectionStatus × ℤ)
  unfolding request_content forward_chunked
  request_body fuel fd rp method garbage chunk_buf content_length v io =
      let c = v.cstatus in
      if not (str_eq method (bytes "POST"))
      then done (c, pos 0) io
      else if strcase_eq c.client_transfer_encoding (bytes "chunked")
      then return_chunked c
          (forward_chunked rio fuel fd rp c.client_trailer chunk_buf content_length io)
      else if v.is_contentlength_set
      then request_content fd rp garbage c io c.client_content_length
      else done (record c { client_setclose = true; server_setclose = true }, pos 0)
          (clienterror fd (bytes "400") (bytes "Bad request") io)

  -- The empty line: a Host header is added if there was none, by a `sprintf` into the array whose
  -- string is then written once more.
  unfoldable pub end_of_header : ℕ → Bytes → Lines → Io rio → Io rio
  end_of_header fd host v io =
      if v.is_host_set
      then send_string fd v.buf io
      else let buf = overlay (terminated (bytes "Host: " ++ host)) v.buf in
        send_string fd buf (send_string fd buf io)

  abbrev pub act :
      ℕ
      → (Lines → Io rio → Run rio (ConnectionStatus × ℤ))
      → Io rio
      → Action
      → Run rio (ConnectionStatus × ℤ)
  act fd k io (drop_line v) = k v io
  act fd k io (forward_line v) = k v (send_string fd v.buf io)
  act fd k io bad = fault

  -- A line in the array: `k` goes on with the loop, `leave` with what stands behind it.
  unfoldable pub on_line :
      ℕ
      → Bytes
      → (k leave : Lines → Io rio → Run rio (ConnectionStatus × ℤ)) → Lines
      → Io rio
      → Run rio (ConnectionStatus × ℤ)
  on_line fd host k leave v io =
      if str_eq (cstr v.buf) (bytes "\r\n")
      then leave v (end_of_header fd host v io)
      else act fd k io (header_line v)

  -- One round, given the read. After an error other than the three that `errno` is compared with the
  -- loop goes on; after one of the three the array is taken for a line.
  unfoldable pub after_header :
      ℕ
      → Bytes
      → (k leave : Lines → Io rio → Run rio (ConnectionStatus × ℤ)) → Lines
      → Read × Io rio
      → Run rio (ConnectionStatus × ℤ)
  unfolding on_line
  after_header fd host k leave v (got bs, io) =
      on_line fd host k leave (record v { buf = fill_line (got bs) v.buf }) io
  after_header fd host k leave v (eof, io) =
      done (record v.cstatus { client_shuttingdown = true }, negsuc 0) io
  after_header fd host k leave v (failed hard bs, io) =
      k (record v { buf = fill_line (failed hard bs) v.buf }) io
  after_header fd host k leave v (failed again bs, io) =
      on_line fd host k leave (record v { buf = fill_line (failed again bs) v.buf }) io

  unfoldable pub request_loop :
      ℕ
      → ℕ
      → ℕ
      → Bytes
      → (leave : Lines → Io rio → Run rio (ConnectionStatus × ℤ)) → Lines
      → Io rio
      → Run rio (ConnectionStatus × ℤ)
  unfolding after_header
  request_loop zero fd rp host leave v io = out_of_fuel
  request_loop (suc fuel) fd rp host leave v io =
      after_header fd host (λ u i. request_loop fuel fd rp host leave u i) leave v
        (read_line rio rp io)

  -- The function. `fuel` bounds each of its loops; `buf`, `header`, `garbage`, `chunk_buf` and
  -- `content_length` are what the arrays and variables hold that are not initialised.
  unfoldable pub forward_requestheader :
      (fuel fd rp : ℕ) (host method buf : Bytes)
      → Header
      → (garbage : ℕ → Bytes) (chunk_buf : Bytes) (content_length : ℕ) → ConnectionStatus
      → Io rio
      → Run rio (ConnectionStatus × ℤ)
  unfolding request_loop request_body
  forward_requestheader fuel fd rp host method buf header garbage chunk_buf content_length c io =
      let buf' = overlay (terminated close_line) buf in
      let buf'' = overlay (terminated proxy_close_line) buf' in
      request_loop fuel fd rp host
        (λ v i. request_body fuel fd rp method garbage chunk_buf content_length v i)
        (record {
          buf = buf'';
          header = header;
          is_host_set = false;
          is_contentlength_set = false;
          cstatus = c;
        })
        (send_string fd buf'' (send_string fd buf' io))
