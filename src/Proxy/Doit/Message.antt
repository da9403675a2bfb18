-- ===== src/Proxy/Doit/Message.antt =====
-- A request and its reply as data, and what `doit` does for them.
use tiny_proxy.Base.{ℕ, ◌+◌, ◌≤◌, List, Option, [], ◌∷◌, ◌++◌, ◌||◌, if◌then◌else◌, length, All}
use tiny_proxy.Base.Int.{ℤ, pos}
use tiny_proxy.CString.{Bytes}
use tiny_proxy.RequestLine.Step.{RequestlineData}
use tiny_proxy.Proxy.Rio.{Call, wrote, closed, controlled, delete, rearm, maxline}
use tiny_proxy.Proxy.Header.{ConnectionStatus}
use tiny_proxy.Proxy.Header.Scan.{Field}
use tiny_proxy.Proxy.Header.Fields.{IsHeaderField}
use tiny_proxy.Proxy.Chunked.Chunk.{IsText}
use tiny_proxy.Proxy.Body.{Body, IsBody, body_rounds}
use tiny_proxy.Proxy.Request.Forward.{request_announced}
use tiny_proxy.Proxy.Request.Whole.{
  IsContent, content_rounds, request_status, wire_request, whole_sends,
}
use tiny_proxy.Proxy.Reply.Whole.{reply_announced, reply_status, reply_sends, wire_reply}
use tiny_proxy.Proxy.Doit.{Uninitialised, request_line}

-- The header and the body of a request.
pub record Message : Type 0 where
  pub headers : List Field
  pub content : Option Body

-- A reply: its status line, header and body.
pub record Answer : Type 0 where
  pub status_line : Bytes
  pub reply_headers : List Field
  pub body : Body

-- The calls behind the reply: the client's descriptor is armed again or closed.
abbrev pub after_sends : ℤ → (fd serverfd : ℕ) → ConnectionStatus → List Call
after_sends epollfd fd serverfd c =
    closed (pos serverfd)
    ∷ (if c.client_setclose || c.client_shuttingdown
        then controlled delete epollfd fd ∷ closed (pos fd) ∷ []
        else controlled rearm epollfd fd ∷ [])

-- What `doit` writes to the server.
abbrev pub message_sends : ℕ → RequestlineData → Message → ConnectionStatus → List Call
message_sends serverfd d m c =
    wrote serverfd (request_line d) ∷ whole_sends serverfd d.host m.headers m.content c

abbrev pub answer_sends : ℕ → Answer → ConnectionStatus → List Call
answer_sends fd a c = reply_sends fd a.status_line a.reply_headers a.body c

-- The status after the request and after the reply.
abbrev pub asked_status : Message → ConnectionStatus → ConnectionStatus
asked_status m c = request_status m.headers m.content c

abbrev pub answered_status : Answer → Bytes → ConnectionStatus → ConnectionStatus
answered_status a version c = reply_status a.status_line a.reply_headers a.body version c

abbrev pub message_rounds : Message → ℕ
message_rounds m = length m.headers + content_rounds m.content

abbrev pub answer_rounds : Answer → ℕ
answer_rounds a = length a.reply_headers + body_rounds a.body

abbrev pub wire_message : Message → ConnectionStatus → Bytes → Bytes
wire_message m c rest = wire_request m.headers m.content c rest

abbrev pub wire_answer : Answer → ConnectionStatus → Bytes → Bytes
wire_answer a c rest = wire_reply a.status_line a.reply_headers a.body c rest

-- The message and the reply are well-formed, given the status before each.
pub record IsMessage (method : Bytes) (m : Message) (c : ConnectionStatus) : Type 0 where
  pub fields_ok : All IsHeaderField m.headers
  pub content_ok : IsContent method (request_announced m.headers c) m.content

pub record IsAnswer (a : Answer) (c : ConnectionStatus) : Type 0 where
  pub text : IsText a.status_line
  pub short : length a.status_line + 3 ≤ maxline
  pub fields_ok : All IsHeaderField a.reply_headers
  pub body_ok : IsBody (reply_announced a.reply_headers c) a.body

-- What is done for a request on an open connection.
abbrev pub exchange_sends :
    ℤ → (fd serverfd : ℕ) → RequestlineData → Message → Answer → Uninitialised → List Call
exchange_sends epollfd fd serverfd d m a u =
    let c : ConnectionStatus = asked_status m u.cstatus in
    message_sends serverfd d m u.cstatus
    ++ (answer_sends fd a c
        ++ after_sends epollfd fd serverfd (answered_status a u.reply.version c))
