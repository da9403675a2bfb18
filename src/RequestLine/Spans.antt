-- ===== src/RequestLine/Spans.antt =====
-- The machine over one part of a line, with what follows it behind: it takes the bytes of the part and
-- stays in its state.
use tiny_proxy.Base.{
  ◌≡◌, refl, true, false, ◌||◌, [], ◌∷◌, ◌++◌, lt→ltb, ◌==◌, All, arith, leb, length, length-append,
}
use tiny_proxy.CString.{Bytes, isspace, isdigit, span-append}
use tiny_proxy.RequestLine.Step.{
  RequestlineData, ParseState, st_start, st_method, st_space_after_method, st_uri, st_host, st_port,
  st_loc, st_http_slash_version, Scan, Step, store, is_name, not_upper, step_in,
}
use tiny_proxy.RequestLine.Run.{run}
use tiny_proxy.RequestLine.Grammar.{Fits}

abbrev pub scan : ParseState → Bytes → Bytes → RequestlineData → Scan
scan st a b d = record { state = st; rc_start = a; rc_end = b; rqdata = d }

pub not_before : (w rest : Bytes) → leb (length rest) (length (w ++ rest)) ≡ true
not_before w rest = ground (arith, length-append w rest)

pub store-append :
    (field : RequestlineData → Bytes → RequestlineData) (k : Scan → Step) (st : ParseState)
    (d : RequestlineData) (w rest : Bytes)
    → Fits w
    → store field (scan st (w ++ rest) rest d) k ≡ k (scan st (w ++ rest) rest (field d w))
unfolding store
store-append field k st d w rest h = rw (span-append w rest, not_before w rest, lt→ltb _ _ h)

module _ (a b : Bytes) (d : RequestlineData) where
  pub run-st_loc :
      (w rest : Bytes)
      → All (λ x. isspace x ≡ false) w
      → run (scan st_loc a b d) (w ++ rest) ≡ run (scan st_loc a b d) rest
  unfolding run step_in isspace
  run-st_loc [] rest h = refl
  run-st_loc (c ∷ w) rest h = ground (arith, run-st_loc w rest h.1)

  pub run-st_start :
      (w rest : Bytes)
      → All (λ x. isspace x ≡ true) w
      → run (scan st_start a b d) (w ++ rest) ≡ run (scan st_start a b d) rest
  unfolding run step_in
  run-st_start [] rest h = refl
  run-st_start (c ∷ w) rest h = ground (arith, run-st_start w rest h.1)

  pub run-st_method :
      (w rest : Bytes)
      → All (λ x. not_upper x ≡ false) w
      → run (scan st_method a b d) (w ++ rest) ≡ run (scan st_method a b d) rest
  unfolding run step_in
  run-st_method [] rest h = refl
  run-st_method (c ∷ w) rest h = ground (arith, run-st_method w rest h.1)

  pub run_blanks :
      (w rest : Bytes)
      → All (λ x. x ≡ b' ') w
      → run (scan st_space_after_method a b d) (w ++ rest)
        ≡ run (scan st_space_after_method a b d) rest
  unfolding run step_in
  run_blanks [] rest h = refl
  run_blanks (c ∷ w) rest h = ground (arith, run_blanks w rest h.1)

  pub run-st_uri :
      (w rest : Bytes)
      → All (λ x. is_name x ≡ true) w
      → run (scan st_uri a b d) (w ++ rest) ≡ run (scan st_uri a b d) rest
  unfolding run step_in is_name
  run-st_uri [] rest h = refl
  run-st_uri (c ∷ w) rest h = ground (arith, run-st_uri w rest h.1)

  pub run-st_host :
      (w rest : Bytes)
      → All (λ x. is_name x ≡ true) w
      → run (scan st_host a b d) (w ++ rest) ≡ run (scan st_host a b d) rest
  unfolding run step_in
  run-st_host [] rest h = refl
  run-st_host (c ∷ w) rest h = ground (arith, run-st_host w rest h.1)

  pub run-st_port :
      (w rest : Bytes)
      → All (λ x. isdigit x ≡ true) w
      → run (scan st_port a b d) (w ++ rest) ≡ run (scan st_port a b d) rest
  unfolding run step_in isdigit
  run-st_port [] rest h = refl
  run-st_port (c ∷ w) rest h = ground (arith, run-st_port w rest h.1)

  pub run_version :
      (w rest : Bytes)
      → All (λ x. (isdigit x || x == b'.') ≡ true) w
      → run (scan st_http_slash_version a b d) (w ++ rest)
        ≡ run (scan st_http_slash_version a b d) rest
  unfolding run step_in
  run_version [] rest h = refl
  run_version (c ∷ w) rest h = ground (arith, run_version w rest h.1)
