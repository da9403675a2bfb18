-- ===== src/Proxy/Chunked/Loop.antt =====
-- The loop of `forward_chunked` and what follows it.
use tiny_proxy.Base.{
  ℕ, zero, suc, ◌+◌, ◌-◌, ◌%◌, ◌^◌, Option, none, some, [], ◌∷◌, if◌then◌else◌, length, take, leb,
}
use tiny_proxy.Base.Int.{ℤ, pos, negsuc}
use tiny_proxy.CString.{Bytes, bytes, str_eq}
use tiny_proxy.Proxy.Buffer.{overlay, cstr, terminated}
use tiny_proxy.Proxy.Rio.{
  Rio, Read, got, eof, failed, Io, Run, done, aborted, fault, out_of_fuel, send, maxline,
}
use tiny_proxy.Proxy.Chunked.Size.{getchunksize, int_limit}

-- A return value of the package: a number of bytes, or `none` for -1.
abbrev pub count : Read → Option ℕ
count (got bs) = some (length bs)
count eof = some 0
count (failed e bs) = none

-- The array after `rio_readlineb`: a line is terminated, a failed read leaves the bytes that it got,
-- and the end of the stream leaves the array as it was.
abbrev pub fill_line : Read → Bytes → Bytes
fill_line (got bs) buf = overlay (terminated bs) buf
fill_line eof buf = buf
fill_line (failed e bs) buf = overlay bs buf

-- The array after `rio_readnb`.
abbrev pub fill_block : Read → Bytes → Bytes
fill_block (got bs) buf = overlay bs buf
fill_block eof buf = buf
fill_block (failed e bs) buf = overlay bs buf

-- The bytes that a read stores.
abbrev pub stored : Read → Bytes
stored (got bs) = bs
stored eof = []
stored (failed e bs) = bs

module _ (rio : Rio) where
  abbrev pub read_line : ℕ → Io rio → Read × Io rio
  read_line rp io = let (r, w) = rio.rio_readlineb rp io.world in (r, record io { world = w })

  abbrev pub read_block : ℕ → ℕ → Io rio → Read × Io rio
  read_block rp n io = let (r, w) = rio.rio_readnb rp n io.world in (r, record io { world = w })

  -- `rio_writen(fd, buf, read_bytes)` and what follows. A count of -1 is a size of 2 ^ 64 - 1.
  abbrev pub write_count :
      {A : Type 0} → ℕ → Bytes → Option ℕ → Io rio → (Io rio → Run rio A) → Run rio A
  write_count fd buf none io k = fault
  write_count fd buf (some n) io k = k (send rio fd (take n buf) io)

  -- Each of the functions that follow is the code behind one read, given the read and the array
  -- before it.

  -- The last line, "\r\n". `content_length` is the value that is returned, as a bit pattern.
  unfoldable pub after_end : ℕ → Bytes → ℕ → Read × Io rio → Run rio ℕ
  after_end fd buf content_length (r, io) =
      let buf' = fill_line r buf in
      if str_eq (cstr buf') (bytes "\r\n")
      then write_count fd buf' (count r) io (λ io'. done content_length io')
      else aborted

  -- The line of the trailer.
  unfoldable pub after_trailer : ℕ → ℕ → Bytes → ℕ → Read × Io rio → Run rio ℕ
  unfolding after_end
  after_trailer fd rp buf content_length (r, io) =
      let buf' = fill_line r buf in
      write_count fd buf' (count r) io (λ io'. after_end fd buf' content_length (read_line rp io'))

  -- From `if(strlen(trailer)!=0)` on.
  unfoldable pub trailers : ℕ → ℕ → Bytes → Bytes → ℕ → Io rio → Run rio ℕ
  unfolding after_end after_trailer
  trailers fd rp [] buf content_length io = after_end fd buf content_length (read_line rp io)
  trailers fd rp (_ ∷ _) buf content_length io =
      after_trailer fd rp buf content_length (read_line rp io)

  -- The bytes of a chunk. `k` goes on with the loop.
  unfoldable pub after_block :
      ℕ → Bytes → ℕ → ℕ → (Bytes → ℕ → Io rio → Run rio ℕ) → Read × Io rio → Run rio ℕ
  after_block fd buf content_length chunksize k (r, io) =
      let buf' = fill_block r buf in
      if leb (length (stored r)) maxline
      then write_count fd buf' (count r) io
          (λ io'. k buf' ((content_length + chunksize) % 2 ^ 32) io')
      else fault

  -- From the size of a chunk on: -1 is returned, a sum that overflows is undefined behaviour.
  unfoldable pub after_size :
      ℕ → ℕ → Bytes → ℕ → Io rio → (Bytes → ℕ → Io rio → Run rio ℕ) → Option ℤ → Run rio ℕ
  unfolding after_block
  after_size fd rp buf content_length io k none = fault
  after_size fd rp buf content_length io k (some (negsuc _)) = done (2 ^ 32 - 1) io
  after_size fd rp buf content_length io k (some (pos chunksize)) =
      if leb int_limit (chunksize + 2)
      then fault
      else after_block fd buf content_length chunksize k (read_block rp (chunksize + 2) io)

  -- The size line.
  unfoldable pub after_line :
      ℕ → ℕ → Bytes → Bytes → ℕ → (Bytes → ℕ → Io rio → Run rio ℕ) → Read × Io rio → Run rio ℕ
  unfolding trailers after_size
  after_line fd rp trailer buf content_length k (r, io) =
      let buf' = fill_line r buf in
      if str_eq (cstr buf') (bytes "0\r\n")
      then write_count fd buf' (count r) io (λ io'. trailers fd rp trailer buf' content_length io')
      else after_size fd rp buf' content_length io k (getchunksize buf')

  -- `buf` and `content_length` are not initialised: their first values are arguments.
  unfoldable pub forward_chunked : ℕ → ℕ → ℕ → Bytes → Bytes → ℕ → Io rio → Run rio ℕ
  unfolding after_line
  forward_chunked zero fd rp trailer buf content_length io = out_of_fuel
  forward_chunked (suc fuel) fd rp trailer buf content_length io =
      after_line fd rp trailer buf content_length
        (λ b n i. forward_chunked fuel fd rp trailer b n i) (read_line rp io)
