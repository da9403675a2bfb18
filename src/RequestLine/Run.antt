-- ===== src/RequestLine/Run.antt =====
-- The loop of `parse_requestline`, the code behind it, and the function.
use tiny_proxy.Base.{Bool, true, false, [], ◌∷◌}
use tiny_proxy.CString.{Bytes}
use tiny_proxy.RequestLine.Step.{
  RequestlineData, ParseState, st_start, st_http_slash_version, st_done, Scan, Step, next, invalid,
  overflow, with_version, store, step_in,
}

-- What the function returns and leaves in `rqdata`: 0, -1, or undefined behaviour.
pub data Parsed : Type 0 where
  accepted : RequestlineData → Parsed
  rejected : RequestlineData → Parsed
  overflowed : Parsed

abbrev pub and_then : (Scan → Parsed) → Step → Parsed
and_then k (next s) = k s
and_then k (invalid d) = rejected d
and_then k overflow = overflowed

-- The switch for `p == strend`.
unfoldable pub at_end : ParseState → Scan → Parsed
at_end st_http_slash_version s =
    and_then (λ q. accepted q.rqdata)
      (store with_version (record s { state = st_done; rc_end = [] }) next)
at_end st_done s = accepted s.rqdata
at_end _ s = rejected s.rqdata

-- The loop stops before the end of the line only in the state st_done.
abbrev pub is_done : ParseState → Bool
is_done st_done = true
is_done _ = false

unfoldable pub run : Scan → Bytes → Parsed
unfolding at_end
run s [] = at_end s.state s
run s (c ∷ p) = elim (is_done s.state) [
  | true ↦ accepted s.rqdata
  | false ↦ and_then (λ q. run q p) (step_in s.state s c p)
]

-- The pointers are not set at first. They are written before they are read.
unfoldable pub parse_requestline : RequestlineData → Bytes → Parsed
unfolding run
parse_requestline d line =
    run (record { state = st_start; rc_start = []; rc_end = []; rqdata = d }) line
