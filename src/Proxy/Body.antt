-- ===== src/Proxy/Body.antt =====
-- The body behind a header, as the header announces it, and what is forwarded of it.
use tiny_proxy.Base.{
  ℕ, suc, ◌+◌, ◌≤◌, ◌<◌, ◌^◌, ◌≡◌, List, true, false, [], ◌∷◌, ◌++◌, ◌==◌, length, All, arith,
}
use tiny_proxy.Base.Int.{pos}
use tiny_proxy.CString.{Bytes, bytes, strcase_eq}
use tiny_proxy.Proxy.Rio.{Call, wrote, maxline}
use tiny_proxy.Proxy.Header.{ConnectionStatus}
use tiny_proxy.Proxy.Header.Fields.{Announced}
use tiny_proxy.Proxy.Chunked.Chunk.{Chunk, IsChunk, IsText, wire, wire_end, payloads, sends_end}

-- `chunked` has the one line of the trailer, which is sent if the header announced one. `missing` is
-- a message with neither a length nor the encoding.
pub data Body : Type 0 where
  chunked : List Chunk → Bytes → Body
  sized : Bytes → Body
  missing : Body

abbrev pub wire_body : Announced → Body → Bytes → Bytes
wire_body a (chunked cs t) rest = wire cs (wire_end a.trailer t rest)
wire_body a (sized bs) rest = bs ++ rest
wire_body a missing rest = rest

-- The body is what the header said. The encoding goes before the length, which is below 2^31 - 1.
abbrev pub IsBody : Announced → Body → Type 0
IsBody a (chunked cs t) =
    (strcase_eq a.encoding (bytes "chunked") ≡ true)
    × All IsChunk cs
    × IsText t
    × (length t + 3 ≤ maxline)
IsBody a (sized bs) =
    (strcase_eq a.encoding (bytes "chunked") ≡ false)
    × (a.has_length ≡ true)
    × (a.content_length ≡ pos (length bs))
    × (length bs + 1 < 2 ^ 31)
IsBody a missing = (strcase_eq a.encoding (bytes "chunked") ≡ false) × (a.has_length ≡ false)

-- What is written for it. `answer` is the line for a message without a body.
abbrev pub body_sends : ℕ → Bytes → Announced → Body → List Call
body_sends fd answer a (chunked cs t) = payloads fd cs ++ sends_end fd a.trailer t
body_sends fd answer a (sized bs) = wrote fd bs ∷ []
body_sends fd answer a missing = wrote fd answer ∷ []

-- The status behind it. A body of length 0 is taken for the end of the stream, which `shut` notes.
abbrev pub body_status :
    (shut : ConnectionStatus → ConnectionStatus) → Body → ConnectionStatus → ConnectionStatus
body_status shut (chunked cs t) c = c
body_status shut (sized []) c = shut c
body_status shut (sized (x ∷ bs)) c = c
body_status shut missing c = record c { client_setclose = true; server_setclose = true }

-- The rounds that the body takes.
abbrev pub body_rounds : Body → ℕ
body_rounds (chunked cs t) = length cs
body_rounds (sized bs) = 0
body_rounds missing = 0

pub nonempty : (n : ℕ) → (suc n == 0) ≡ false
nonempty n = ground arith
