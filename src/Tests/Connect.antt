-- ===== src/Tests/Connect.antt =====
-- Examples of `do_connect`.
use tiny_proxy.Base.{ℕ, ◌≡◌, refl, none, List, [], ◌∷◌, ◌++◌, ◌==◌, ◌||◌, if◌then◌else◌, arith}
use tiny_proxy.Base.Int.{pos, ◌==ℤ◌}
use tiny_proxy.CString.{Bytes, bytes}
use tiny_proxy.Hashmap.Chain.{find}
use tiny_proxy.Hashmap.Table.{chain_at}
use tiny_proxy.Hashmap.Ops.{Chmap, hashmap_hash}
use tiny_proxy.Hashmap.View.{IsChmap, view}
use tiny_proxy.Proxy.Rio.{Io, done, controlled, closed, delete, rearm}
use tiny_proxy.Proxy.Reply.Once.{pieces, join}
use tiny_proxy.Proxy.Connect.{do_connect}
use tiny_proxy.Proxy.Connect.Tunnel.{do_connect-end, do_connect-passes}
use tiny_proxy.Tests.Scripted.{scripted, system, arrived, socket}
use tiny_proxy.Tests.Hashmap.{two_entries, two_entries-IsChmap}

-- Bytes for each descriptor.
abbrev sent : Bytes → Io scripted
sent bs = record { world = record { streams = λ fd. bs; fresh = 200 }; log = [] }

-- The descriptor 7 stands with 70.
do_connect-end_example :
    (m : Chmap) × (io : Io scripted) × (do_connect system 7 (pos 3) 1 7 two_entries (sent [])
      ≡ done m io)
    × IsChmap 7 m
    × ((b : ℕ) → view 7 m b ≡ (if (7 == b) || (70 == b) then none else view 7 two_entries b))
    × (io.log
        ≡ controlled delete (pos 3) 7
          ∷ controlled delete (pos 3) 70
          ∷ closed (pos 7)
          ∷ closed (pos 70)
          ∷ [])
unfolding view chain_at find ◌==ℤ◌ hashmap_hash
do_connect-end_example =
    do_connect-end system 7 (pos 3) 7 70 two_entries two_entries-IsChmap refl 0 (sent []).world
      (sent []) refl

do_connect-passes_example :
    (ps : List Bytes) × (io : Io scripted) × (do_connect arrived 7
        (pos 3)
        2
        7
        two_entries
        (sent (bytes "hello"))
      ≡ done two_entries io)
    × (io.log ≡ pieces 70 ps ++ (controlled rearm (pos 3) 7 ∷ []))
    × (join ps ≡ bytes "hello")
unfolding socket view chain_at find ◌==ℤ◌ hashmap_hash
do_connect-passes_example =
    do_connect-passes arrived 7 (pos 3) 7 70 two_entries two_entries-IsChmap refl (socket 7) 1
      (bytes "hello") (sent (bytes "hello")) (omega arith) refl
