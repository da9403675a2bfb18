-- ===== src/Proxy/Chunked/Closed.antt =====
-- `forward_chunked` when the peer closes the connection inside the body.
use tiny_proxy.Base.{
  ℕ, zero, suc, ◌+◌, ◌<◌, ◌%◌, ◌^◌, ◌≡◌, refl, ap, ◌∙◌, false, some, [], lt→leb_false,
}
use tiny_proxy.Base.Int.{pos}
use tiny_proxy.CString.{Bytes, bytes, str_eq}
use tiny_proxy.Proxy.Buffer.{cstr}
use tiny_proxy.Proxy.Rio.{Rio, Stream, Io, Run, out_of_fuel, send}
use tiny_proxy.Proxy.Chunked.Size.{getchunksize, int_limit}
use tiny_proxy.Proxy.Chunked.Loop.{after_line, after_size, after_block, forward_chunked}
use tiny_proxy.Proxy.Chunked.Forward.{read_line_lem, read_block_lem}

-- Once the stream has ended, while the array holds a line that is not that of the last chunk and
-- that reads as a size from 0 to 2 ^ 31 - 3, the loop goes round for ever, whatever the fuel: the
-- array keeps what it held, and each round takes it for the size line of one more chunk.
pub forward_chunked-never_ends :
    (rio : Rio) (rp : ℕ) (s : Stream rio rp) (fuel fd : ℕ) (trailer buf : Bytes) (n m : ℕ)
    (io : Io rio)
    → s.At [] io.world
    → str_eq (cstr buf) (bytes "0\r\n") ≡ false
    → getchunksize buf ≡ some (pos m)
    → m + 2 < int_limit
    → forward_chunked rio fuel fd rp trailer buf n io ≡ out_of_fuel
unfolding forward_chunked after_line after_size after_block
forward_chunked-never_ends rio rp s zero fd trailer buf n m io closed line size small = refl
forward_chunked-never_ends rio rp s (suc fuel) fd trailer buf n m io closed line size small =
    let (w1, e1, at1) = s.line_end io.world closed in
    let (w2, e2, at2) = s.block_end (m + 2) w1 at1 in
    let k : Bytes → ℕ → Io rio → Run rio ℕ =
      λ b j i. forward_chunked rio fuel fd rp trailer b j i in
    let io1 : Io rio = record io { world = w1 } in
    let io2 : Io rio = record io { world = w2 } in
    ap (after_line rio fd rp trailer buf n k) (read_line_lem rio rp s io e1)
    ∙ rw line (
        ap (after_size rio fd rp buf n io1 k) size
        ∙ rw (lt→leb_false int_limit (m + 2) small) (
            ap (after_block rio fd buf n m k) (read_block_lem rio rp s (m + 2) io1 e2)
            ∙ forward_chunked-never_ends rio rp s fuel fd trailer buf ((n + m) % 2 ^ 32) m
                (send rio fd [] io2) (s.write fd [] [] w2 at2) line size small))
