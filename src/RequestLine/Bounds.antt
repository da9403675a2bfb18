-- ===== src/RequestLine/Bounds.antt =====
-- The fixed fields of 1024 bytes: which lines stay inside, and one kind that does not.
use tiny_proxy.Base.{
  ℕ, ◌-◌, ◌<◌, ◌≤◌, ◌≡◌, ◌≢◌, ap, ◌∙◌, true, false, Bool-cases, inl, inr, [], ◌∷◌, ◌++◌, length,
  length-take, ltb, ltb→lt, arith,
}
use tiny_proxy.CString.{Bytes, span-append}
use tiny_proxy.RequestLine.Step.{
  RequestlineData, ParseState, Scan, Step, next, invalid, overflow, store, step_in, rq_datalen,
  implemented, with_loc, with_method, st_start, st_colon_after_uri, st_space_before_version,
}
use tiny_proxy.RequestLine.Run.{overflowed, run, parse_requestline, and_then, is_done, at_end}
use tiny_proxy.RequestLine.Grammar.{IsLoc}
use tiny_proxy.RequestLine.Spans.{scan, run-st_loc, not_before}
use tiny_proxy.RequestLine.Complete.{run_method}

-- Before the bytes `p`, the pointers to the start and the end of a part are not behind the place where
-- the code reads them.
abbrev Marked : ParseState → Scan → Bytes → Type 0
Marked st_start s p = Unit
Marked st_colon_after_uri s p =
    (length p ≤ length s.rc_start) × (length s.rc_end ≤ length s.rc_start)
Marked _ s p = length p ≤ length s.rc_start

-- A state from which no copy can be too long or have a negative length.
abbrev Small : Step → Bytes → Type 0
Small (next s) p = (length s.rc_start < rq_datalen) × Marked s.state s p
Small (invalid d) p = Unit
Small overflow p = ⊥

step_in-Small :
    (st : ParseState) (s : Scan) (c : ℕ) (p : Bytes)
    → length s.rc_start < rq_datalen
    → Marked st s (c ∷ p)
    → is_done st ≡ false
    → length (c ∷ p) < rq_datalen
    → Small (step_in st s c p) p
unfolding step_in store
step_in-Small ParseState.st_start s c p h m e k = ground arith
step_in-Small ParseState.st_done s c p h m e k = absurd (cc)
step_in-Small _ s c p h m e k = ground (
  arith,
  length-take (length s.rc_start - length s.rc_end) s.rc_start,
  length-take (length s.rc_start - length (c ∷ p)) s.rc_start,
)

at_end-fits :
    (st : ParseState) (s : Scan) → length s.rc_start < rq_datalen → at_end st s ≢ overflowed
unfolding at_end store
at_end-fits ParseState.st_start s h = ground arith
at_end-fits _ s h = ground (arith, length-take (length s.rc_start) s.rc_start)

and_then-fits :
    (r : Step) (p : Bytes)
    → Small r p
    → ((q : Scan) → length q.rc_start < rq_datalen → Marked q.state q p → run q p ≢ overflowed)
    → and_then (λ q. run q p) r ≢ overflowed
and_then-fits (next s) p h k = k s h.0 h.1
and_then-fits (invalid d) p h k = λ e. cc
and_then-fits overflow p h k = absurd h

run-fits :
    (p : Bytes) (s : Scan)
    → length s.rc_start < rq_datalen
    → Marked s.state s p
    → length p < rq_datalen
    → run s p ≢ overflowed
unfolding run
run-fits [] s h m k = at_end-fits s.state s h
run-fits (c ∷ p) s h m k = elim (Bool-cases (is_done s.state)) [
  | inl e ↦ rw (e, run) (λ x. cc)
  | inr e ↦
      rw (e, run)
        (and_then-fits _ p (step_in-Small s.state s c p h m e k)
          (λ q small marked. run-fits p q small marked (omega arith)))
]

-- A line of fewer than 1024 bytes is parsed with no write past the end of a field, whatever its
-- bytes are.
pub parse_requestline-fits :
    (line : Bytes) (d : RequestlineData)
    → length line < rq_datalen
    → parse_requestline d line ≢ overflowed
unfolding parse_requestline
parse_requestline-fits line d h = run-fits line (scan st_start [] [] d) (omega arith) tt h

store-long :
    (field : RequestlineData → Bytes → RequestlineData) (k : Scan → Step) (st : ParseState)
    (d : RequestlineData) (w rest : Bytes)
    → rq_datalen ≤ length w
    → store field (scan st (w ++ rest) rest d) k ≡ overflow
unfolding store
store-long field k st d w rest h =
    rw (span-append w rest, not_before w rest)
      (elim (Bool-cases (ltb (length w) rq_datalen)) [
        | inl e ↦ absurd (omega (arith, ltb→lt _ _ e))
        | inr e ↦ rw e
      ])

-- The path of a request is copied with no test of its length: behind a known method and a blank, a
-- path of 1024 bytes or more with a blank behind it is written past the end of `loc`.
pub parse_requestline-long_loc :
    (m l rest : Bytes) (d : RequestlineData)
    → implemented m ≡ true
    → IsLoc l
    → rq_datalen ≤ length l
    → parse_requestline d (m ++ (b' ' ∷ (l ++ (b' ' ∷ rest)))) ≡ overflowed
unfolding parse_requestline run step_in
parse_requestline-long_loc m [] rest d known is h = absurd is
parse_requestline-long_loc m (c ∷ l) rest d known is h =
    let line : Bytes = b'/' ∷ (l ++ (b' ' ∷ rest)) in
    rw is.0 (
      run_method m line [] [] d known
      ∙ run-st_loc line (b' ' ∷ line) (with_method d m) l (b' ' ∷ rest) is.1
      ∙ ap (and_then (λ s. run s rest)) (
          store-long with_loc next st_space_before_version (with_method d m) (b'/' ∷ l)
            (b' ' ∷ rest) h))
