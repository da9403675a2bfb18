-- ===== src/Proxy/Connect.antt =====
-- `do_connect` of proxy.c, the earlier tunnel: it serves one event of a descriptor whose other side
-- stands in the hash map of pairs.
pub mod Tunnel
use tiny_proxy.Base.{ℕ, zero, suc, Option, none, some, if◌then◌else◌, length, ltb}
use tiny_proxy.Base.Int.{ℤ, pos, negsuc}
use tiny_proxy.CString.{Bytes}
use tiny_proxy.Hashmap.Ops.{Chmap, hashmap_get, hashmap_remove}
use tiny_proxy.Proxy.Rio.{
  Read, got, eof, failed, Io, Run, done, fault, out_of_fuel, send, maxline, delete,
}
use tiny_proxy.Proxy.System.{System, close, control, reset_oneshot, read_some}

-- `hash_capacity` is the global variable of the hash map.
module _ (sys : System) (hash_capacity : ℕ) (epollfd : ℤ) where
  open sys use {rio}

  -- -1 stands for a descriptor that is not in the map: the calls on it fail, and nothing tests them.
  abbrev pub write_to : ℤ → Bytes → Io rio → Io rio
  write_to (pos fd) bs io = send rio fd bs io
  write_to (negsuc _) bs io = io

  abbrev pub forget_fd : ℤ → Io rio → Io rio
  forget_fd (pos fd) io = (control sys delete epollfd fd io).1
  forget_fd (negsuc _) io = io

  -- The peer has closed.
  unfoldable pub end_tunnel : (clientfd : ℕ) (serverfd : ℤ) → Chmap → Io rio → Run rio Chmap
  unfolding hashmap_remove
  end_tunnel clientfd serverfd fdmap io = elim (hashmap_remove hash_capacity fdmap (pos clientfd)) [
    | none ↦ fault
    | some (without_client, _) ↦ elim (hashmap_remove hash_capacity without_client serverfd) [
      | none ↦ fault
      | some (without_both, _) ↦ done without_both (
          close sys serverfd
            (close sys (pos clientfd) (forget_fd serverfd (forget_fd (pos clientfd) io))))
    ]
  ]

  abbrev pub rearm_client : ℕ → Chmap → Io rio → Run rio Chmap
  rearm_client clientfd fdmap io = done fdmap (reset_oneshot sys epollfd clientfd io)

  -- One round, given the read.
  abbrev pub after_tunnel_read :
      (clientfd : ℕ) (serverfd : ℤ)
      → Chmap
      → (Io rio → Run rio Chmap)
      → Read × Io rio
      → Run rio Chmap
  after_tunnel_read clientfd serverfd fdmap k (eof, io) = end_tunnel clientfd serverfd fdmap io
  after_tunnel_read clientfd serverfd fdmap k (failed e bs, io) = rearm_client clientfd fdmap io
  after_tunnel_read clientfd serverfd fdmap k (got bs, io) =
      let io' = write_to serverfd bs io in
      if ltb (length bs) maxline then rearm_client clientfd fdmap io' else k io'

  unfoldable pub tunnel_loop : (fuel clientfd : ℕ) (serverfd : ℤ) → Chmap → Io rio → Run rio Chmap
  unfolding end_tunnel
  tunnel_loop zero clientfd serverfd fdmap io = out_of_fuel
  tunnel_loop (suc fuel) clientfd serverfd fdmap io =
      after_tunnel_read clientfd serverfd fdmap (λ i. tunnel_loop fuel clientfd serverfd fdmap i)
        (read_some sys clientfd io)

  -- The result is the map afterwards.
  unfoldable pub do_connect : (fuel clientfd : ℕ) → Chmap → Io rio → Run rio Chmap
  unfolding hashmap_get tunnel_loop
  do_connect fuel clientfd fdmap io = elim (hashmap_get hash_capacity fdmap (pos clientfd)) [
    | none ↦ fault
    | some serverfd ↦ tunnel_loop fuel clientfd serverfd fdmap io
  ]
