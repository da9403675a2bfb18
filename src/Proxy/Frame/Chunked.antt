-- ===== src/Proxy/Frame/Chunked.antt =====
-- What `forward_chunked` leaves alone.
use tiny_proxy.Base.{ℕ, zero, suc, ◌+◌, length, Option, none, some, [], ◌∷◌, leb}
use tiny_proxy.Base.Int.{ℤ, pos, negsuc}
use tiny_proxy.CString.{Bytes, bytes, str_eq}
use tiny_proxy.Proxy.Buffer.{cstr}
use tiny_proxy.Proxy.Rio.{Rio, Read, Io, Run, maxline}
use tiny_proxy.Proxy.Chunked.Size.{getchunksize, int_limit}
use tiny_proxy.Proxy.Chunked.Loop.{
  count, fill_line, stored, read_line, read_block, after_end, after_trailer, trailers, after_block,
  after_size, after_line, forward_chunked,
}
use tiny_proxy.Proxy.Frame.{Ensures, Keeps, Ensures-if, Ensures-write_count}

module _ {rio : Rio} {rp fd : ℕ} {P : Io rio → Type 0} (keeps : Keeps rio rp fd P) where
  after_end-Ensures :
      (buf : Bytes) (n : ℕ) (q : Read × Io rio) → P q.1 → Ensures P (after_end rio fd buf n q)
  unfolding after_end
  after_end-Ensures buf n (r, io) h =
      Ensures-if P (str_eq (cstr (fill_line r buf)) (bytes "\r\n")) _ _
        (Ensures-write_count P keeps _ (count r) io _ h (λ i hi. hi)) tt

  after_trailer-Ensures :
      (buf : Bytes) (n : ℕ) (q : Read × Io rio)
      → P q.1
      → Ensures P (after_trailer rio fd rp buf n q)
  unfolding after_trailer
  after_trailer-Ensures buf n (r, io) h =
      Ensures-write_count P keeps _ (count r) io _ h
        (λ i hi. after_end-Ensures (fill_line r buf) n (read_line rio rp i) (keeps.line i hi))

  trailers-Ensures :
      (trailer buf : Bytes) (n : ℕ) (io : Io rio)
      → P io
      → Ensures P (trailers rio fd rp trailer buf n io)
  unfolding trailers
  trailers-Ensures [] buf n io h = after_end-Ensures buf n (read_line rio rp io) (keeps.line io h)
  trailers-Ensures (c ∷ cs) buf n io h =
      after_trailer-Ensures buf n (read_line rio rp io) (keeps.line io h)

  module _ (k : Bytes → ℕ → Io rio → Run rio ℕ)
      (next : (b : Bytes) (n : ℕ) (i : Io rio) → P i → Ensures P (k b n i)) where
    after_block-Ensures :
        (buf : Bytes) (n size : ℕ) (q : Read × Io rio)
        → P q.1
        → Ensures P (after_block rio fd buf n size k q)
    unfolding after_block
    after_block-Ensures buf n size (r, io) h =
        Ensures-if P (leb (length (stored r)) maxline) _ _
          (Ensures-write_count P keeps _ (count r) io _ h (λ i hi. next _ _ i hi)) tt

    after_size-Ensures :
        (buf : Bytes) (n : ℕ) (io : Io rio) (size : Option ℤ)
        → P io
        → Ensures P (after_size rio fd rp buf n io k size)
    unfolding after_size
    after_size-Ensures buf n io none h = tt
    after_size-Ensures buf n io (some (negsuc _)) h = h
    after_size-Ensures buf n io (some (pos size)) h =
        Ensures-if P (leb int_limit (size + 2)) _ _ tt (
          after_block-Ensures buf n size (read_block rio rp (size + 2) io)
            (keeps.block (size + 2) io h))

    after_line-Ensures :
        (trailer buf : Bytes) (n : ℕ) (q : Read × Io rio)
        → P q.1
        → Ensures P (after_line rio fd rp trailer buf n k q)
    unfolding after_line
    after_line-Ensures trailer buf n (r, io) h =
        Ensures-if P (str_eq (cstr (fill_line r buf)) (bytes "0\r\n")) _ _
          (Ensures-write_count P keeps _ (count r) io _ h
            (λ i hi. trailers-Ensures trailer (fill_line r buf) n i hi))
          (after_size-Ensures (fill_line r buf) n io (getchunksize (fill_line r buf)) h)

  pub forward_chunked-Ensures :
      (fuel : ℕ) (trailer buf : Bytes) (n : ℕ) (io : Io rio)
      → P io
      → Ensures P (forward_chunked rio fuel fd rp trailer buf n io)
  unfolding forward_chunked
  forward_chunked-Ensures zero trailer buf n io h = tt
  forward_chunked-Ensures (suc fuel) trailer buf n io h =
      after_line-Ensures (λ b m i. forward_chunked rio fuel fd rp trailer b m i)
        (λ b m i hi. forward_chunked-Ensures fuel trailer b m i hi) trailer buf n
        (read_line rio rp io) (keeps.line io h)
