-- ===== src/RequestLine/Complete.antt =====
-- `parse_requestline` on a request line of the grammar.
use tiny_proxy.Base.{ℕ, ◌≡◌, ◌⊎◌, inl, inr, refl, ap, ◌∙◌, true, false, [], ◌∷◌, ◌++◌, All, arith}
use tiny_proxy.CString.{Bytes, bytes, isspace, str_eq, str_eq_iff}
use tiny_proxy.RequestLine.Step.{
  RequestlineData, st_start, st_space_after_method, Scan, next, implemented, not_upper, step_in,
  with_method, check_method,
}
use tiny_proxy.RequestLine.Run.{accepted, run, parse_requestline, and_then}
use tiny_proxy.RequestLine.Grammar.{Fits, RequestLine, IsRequestLine, write, write_target, fields}
use tiny_proxy.RequestLine.Spans.{scan, store-append, run-st_start, run-st_method, run_blanks}
use tiny_proxy.RequestLine.Target.{tail, run_target}

implemented_cases :
    (m : Bytes)
    → implemented m ≡ true
    → (m ≡ bytes "GET") ⊎ (m ≡ bytes "POST") ⊎ (m ≡ bytes "CONNECT") ⊎ (m ≡ bytes "HEAD")
unfolding implemented
implemented_cases m h = ground (
  arith,
  str_eq_iff m (bytes "GET"),
  str_eq_iff m (bytes "POST"),
  str_eq_iff m (bytes "CONNECT"),
  str_eq_iff m (bytes "HEAD"),
)

check_known : (s : Scan) → implemented s.rqdata.method ≡ true → check_method s ≡ next s
check_known s h = rw h

run_word :
    (c : ℕ) (w q a b : Bytes) (d : RequestlineData)
    → isspace c ≡ false
    → not_upper c ≡ false
    → All (λ x. not_upper x ≡ false) w
    → Fits (c ∷ w)
    → implemented (c ∷ w) ≡ true
    → run (scan st_start a b d) ((c ∷ w) ++ (b' ' ∷ q))
      ≡ run
          (scan st_space_after_method ((c ∷ w) ++ (b' ' ∷ q)) (b' ' ∷ q) (with_method d (c ∷ w)))
          q
unfolding run step_in
run_word c w q a b d nonblank upper uppers f known =
    let rest : Bytes = b' ' ∷ q in
    rw (nonblank, upper)
      (run-st_method (c ∷ (w ++ rest)) b d w rest uppers
        ∙ ap (and_then (λ s. run s q)) (
            store-append with_method check_method st_space_after_method d (c ∷ w) rest f
            ∙ check_known
                (scan st_space_after_method ((c ∷ w) ++ rest) rest (with_method d (c ∷ w))) known))

pub run_method :
    (m q a b : Bytes) (d : RequestlineData)
    → implemented m ≡ true
    → run (scan st_start a b d) (m ++ (b' ' ∷ q))
      ≡ run (scan st_space_after_method (m ++ (b' ' ∷ q)) (b' ' ∷ q) (with_method d m)) q
unfolding isspace implemented str_eq
run_method m q a b d h = elim (implemented_cases m h) [
  | inl e ↦ rw e (run_word b'G' (bytes "ET") q a b d refl refl (ground arith) (omega arith) refl)
  | inr (inl e) ↦
      rw e (run_word b'P' (bytes "OST") q a b d refl refl (ground arith) (omega arith) refl)
  | inr (inr (inl e)) ↦
      rw e (run_word b'C' (bytes "ONNECT") q a b d refl refl (ground arith) (omega arith) refl)
  | inr (inr (inr e)) ↦
      rw e (run_word b'H' (bytes "EAD") q a b d refl refl (ground arith) (omega arith) refl)
]

-- A request line of the grammar is accepted, whatever the record held. Each part that the line has
-- is stored in its field as it is written, and a field for which the line has no part is unchanged.
pub parse_requestline-write :
    (r : RequestLine) (d : RequestlineData)
    → IsRequestLine r
    → parse_requestline d (write r) ≡ accepted (fields r d)
unfolding parse_requestline
parse_requestline-write r d h =
    let line : Bytes =
      write_target r.target (tail r.version r.ending h.version h.version_fits h.ending) in
    run-st_start [] [] d r.leading (r.method ++ (b' ' ∷ (r.blanks ++ line))) h.leading
    ∙ run_method r.method (r.blanks ++ line) [] [] d h.method
    ∙ run_blanks _ _ _ r.blanks line h.blanks
    ∙ run_target r.version r.ending h.version h.version_fits h.ending r.target _ _ _ h.target
