-- ===== src/RequestLine/Target.antt =====
-- The run of the parser from the blank behind the method to the end of the line.
use tiny_proxy.Base.{
  ℕ, ◌≡◌, ◌≢◌, ◌⊎◌, refl, sym, ap, subst, ◌∙◌, true, false, ◌||◌, Option, none, some, [], ◌∷◌, ◌++◌,
  ◌==◌, All, arith,
}
use tiny_proxy.CString.{Bytes, bytes, isspace, isdigit, isalnum}
use tiny_proxy.RequestLine.Step.{
  RequestlineData, ParseState, st_space_after_method, st_uri, st_colon_after_uri, st_schema_slash,
  st_schema_slash_slash, st_host, st_colon_before_port, st_port, st_loc, st_space_before_version,
  st_http_slash_version, st_done, Scan, next, store, is_name, step_in, with_schema, with_host,
  with_port, with_loc, with_version, mark,
}
use tiny_proxy.RequestLine.Run.{Parsed, accepted, run, is_done, and_then}
use tiny_proxy.RequestLine.Grammar.{
  Fits, IsVersion, IsEnding, IsLoc, IsPort, IsUri, IsHost, IsTarget, OptionAll, Target, origin,
  remote, write_loc, write_port, write_target, set_option, set_target,
}
use tiny_proxy.RequestLine.Spans.{
  scan, store-append, run-st_uri, run-st_host, run-st_port, run-st_loc, run_version,
}

run-st_done : (a b q : Bytes) (d : RequestlineData) → run (scan st_done a b d) q ≡ accepted d
unfolding run
run-st_done a b [] d = refl
run-st_done a b (c ∷ q) d = refl

isspace_not_version : (c : ℕ) → isspace c ≡ true → (isdigit c || c == b'.') ≡ false
unfolding isspace isdigit
isspace_not_version c h = ground arith

run_step :
    (s : Scan) (c : ℕ) (p : Bytes)
    → is_done s.state ≡ false
    → run s (c ∷ p) ≡ and_then (λ q. run q p) (step_in s.state s c p)
unfolding run
run_step s c p h = rw (h, run)

-- A host or schema in st_uri up to ':' and the byte behind it.
run_colon :
    (a b q : Bytes) (c : ℕ) (d : RequestlineData)
    → run (scan st_uri a b d) (b':' ∷ c ∷ q)
      ≡ and_then
          (λ s. run s q)
          (step_in st_colon_after_uri (scan st_colon_after_uri a (b':' ∷ c ∷ q) d) c q)
unfolding run step_in
run_colon a b q c d = refl

step_colon_digit :
    (s : Scan) (c : ℕ) (q : Bytes)
    → isdigit c ≡ true
    → step_in st_colon_after_uri s c q
      ≡ store with_host (record s { state = st_port }) (mark st_port (c ∷ q))
unfolding step_in isdigit
step_colon_digit s c q h = ground arith

step_port_digit :
    (s : Scan) (c : ℕ) (q : Bytes)
    → isdigit c ≡ true
    → step_in st_colon_before_port s c q ≡ mark st_port (c ∷ q) s
unfolding step_in
step_port_digit s c q h = rw h

-- A schema up to the byte behind "://".
pub run_schema :
    (s q b : Bytes) (d : RequestlineData)
    → Fits s
    → (let rest : Bytes = b':' ∷ b'/' ∷ b'/' ∷ q in
        run (scan st_uri (s ++ rest) b d) rest
        ≡ run (scan st_schema_slash_slash (s ++ rest) rest (with_schema d s)) q)
unfolding run step_in
run_schema s q b d f =
    let rest : Bytes = b':' ∷ b'/' ∷ b'/' ∷ q in
    run_colon (s ++ rest) b (b'/' ∷ q) b'/' d
    ∙ ap (and_then (λ x. run x (b'/' ∷ q)))
        (store-append with_schema next st_schema_slash d s rest f)

module _ (v e : Bytes) (is : IsVersion v) (fits : Fits (bytes "HTTP/" ++ v))
    (ends : IsEnding e) where
  abbrev pub tail : Bytes
  tail = b' ' ∷ (bytes "HTTP/" ++ (v ++ e))

  abbrev final : RequestlineData → Parsed
  final d = accepted (with_version d (bytes "HTTP/" ++ v))

  run_ending :
      (e' b : Bytes) (d : RequestlineData)
      → IsEnding e'
      → run (scan st_http_slash_version (bytes "HTTP/" ++ (v ++ e')) b d) e' ≡ final d
  unfolding run step_in
  run_ending [] b d h =
      ap (and_then (λ q. accepted q.rqdata))
        (store-append with_version next st_done d (bytes "HTTP/" ++ v) [] fits)
  run_ending (c ∷ q) b d h =
      rw (isspace_not_version c h, h)
        (ap (and_then (λ s. run s q))
            (store-append with_version next st_done d (bytes "HTTP/" ++ v) (c ∷ q) fits)
          ∙ run-st_done _ _ q _)

  run_tail :
      (a b : Bytes) (d : RequestlineData)
      → run (scan st_space_before_version a b d) (bytes "HTTP/" ++ (v ++ e)) ≡ final d
  unfolding run step_in
  run_tail a b d = go v is refl
    where
      go :
          (u : Bytes)
          → IsVersion u
          → u ≡ v
          → run (scan st_space_before_version a b d) (bytes "HTTP/" ++ (u ++ e)) ≡ final d
      go [] h p = absurd h
      go (c ∷ w) h p = rw h.0 (
          run_version _ b d w e h.1
          ∙ subst
              (λ u. run (scan st_http_slash_version (bytes "HTTP/" ++ (u ++ e)) b d) e ≡ final d)
              (sym p) (run_ending e b d ends))

  run_loc :
      (l b : Bytes) (d : RequestlineData)
      → All (λ x. isspace x ≡ false) l
      → Fits (b'/' ∷ l)
      → run (scan st_loc (b'/' ∷ (l ++ tail)) b d) (l ++ tail) ≡ final (with_loc d (b'/' ∷ l))
  unfolding run step_in
  run_loc l b d h f =
      run-st_loc (b'/' ∷ (l ++ tail)) b d l tail h
      ∙ ap (and_then (λ s. run s (bytes "HTTP/" ++ (v ++ e))))
          (store-append with_loc next st_space_before_version d (b'/' ∷ l) tail f)
      ∙ run_tail (b'/' ∷ (l ++ tail)) tail (with_loc d (b'/' ∷ l))

  -- A part `w` that ends at '/' or at ' ', whatever its state.
  module _ (st : ParseState) (field : RequestlineData → Bytes → RequestlineData)
      (open_ : is_done st ≡ false) where
    run_slash :
        ((s : Scan) (p : Bytes)
          → step_in st s b'/' p
            ≡ store field (record s { state = st_loc; rc_end = b'/' ∷ p }) (mark st_loc (b'/' ∷ p)))
        → (w l b : Bytes) (d : RequestlineData) → Fits w
        → IsLoc l × Fits l
        → run (scan st (w ++ (l ++ tail)) b d) (l ++ tail) ≡ final (with_loc (field d w) l)
    run_slash on w [] b d f h = absurd h.0
    run_slash on w (c ∷ l) b d f h =
        let rest : Bytes = b'/' ∷ (l ++ tail) in
        rw h.0.0 (
          run_step (scan st (w ++ rest) b d) b'/' (l ++ tail) open_
          ∙ ap (and_then (λ q. run q (l ++ tail)))
              (on _ _ ∙ store-append field (mark st_loc rest) st_loc d w rest f)
          ∙ run_loc l rest (field d w) h.0.1 h.1)

    run_space :
        ((s : Scan) (p : Bytes)
          → step_in st s b' ' p
            ≡ store field (record s { state = st_space_before_version; rc_end = b' ' ∷ p }) next)
        → (w b : Bytes) (d : RequestlineData) → Fits w
        → run (scan st (w ++ tail) b d) tail ≡ final (field d w)
    run_space on w b d f =
        run_step (scan st (w ++ tail) b d) b' ' (bytes "HTTP/" ++ (v ++ e)) open_
        ∙ ap (and_then (λ q. run q (bytes "HTTP/" ++ (v ++ e))))
            (on _ _ ∙ store-append field next st_space_before_version d w tail f)
        ∙ run_tail (w ++ tail) tail (field d w)

  run_port :
      (p b : Bytes) (d : RequestlineData) (l : Option Bytes)
      → Fits p
      → OptionAll (λ x. IsLoc x × Fits x) l
      → run (scan st_port (p ++ write_loc l tail) b d) (write_loc l tail)
        ≡ final (set_option with_loc l (with_port d p))
  unfolding step_in
  run_port p b d none f h = run_space st_port with_port refl (λ s q. refl) p b d f
  run_port p b d (some l) f h = run_slash st_port with_port refl (λ s q. refl) p l b d f h

  -- Behind a host: its port, or what may stand behind that.
  run_uri :
      (w b : Bytes) (d : RequestlineData) (p l : Option Bytes)
      → Fits w
      → OptionAll (λ x. IsPort x × Fits x) p
      → OptionAll (λ x. IsLoc x × Fits x) l
      → run
          (scan st_uri (w ++ write_port p (write_loc l tail)) b d)
          (write_port p (write_loc l tail))
        ≡ final (set_option with_loc l (set_option with_port p (with_host d w)))
  unfolding step_in is_name isalnum
  run_uri w b d none none f h k = run_space st_uri with_host refl (λ s q. refl) w b d f
  run_uri w b d none (some l) f h k = run_slash st_uri with_host refl (λ s q. refl) w l b d f k
  run_uri w b d (some []) l f h k = absurd h.0
  run_uri w b d (some (c ∷ p)) l f h k =
      let rest : Bytes = write_loc l tail in
      let behind : Bytes = b':' ∷ c ∷ (p ++ rest) in
      run_colon (w ++ behind) b (p ++ rest) c d
      ∙ ap (and_then (λ s. run s (p ++ rest))) (
          step_colon_digit (scan st_colon_after_uri (w ++ behind) behind d) c (p ++ rest) h.0.0
          ∙ store-append with_host (mark st_port (c ∷ (p ++ rest))) st_port d w behind f)
      ∙ run-st_port (c ∷ (p ++ rest)) behind (with_host d w) p rest h.0.1
      ∙ run_port (c ∷ p) behind (with_host d w) l h.1 k

  run_host :
      (w b : Bytes) (d : RequestlineData) (p l : Option Bytes)
      → Fits w
      → OptionAll (λ x. IsPort x × Fits x) p
      → OptionAll (λ x. IsLoc x × Fits x) l
      → (p ≢ none) ⊎ (l ≢ none)
      → run
          (scan st_host (w ++ write_port p (write_loc l tail)) b d)
          (write_port p (write_loc l tail))
        ≡ final (set_option with_loc l (set_option with_port p (with_host d w)))
  unfolding step_in is_name isalnum
  run_host w b d none none f h k ne = ground arith
  run_host w b d none (some l) f h k ne = run_slash st_host with_host refl (λ s q. refl) w l b d f k
  run_host w b d (some []) l f h k ne = absurd h.0
  run_host w b d (some (c ∷ p)) l f h k ne =
      let rest : Bytes = write_loc l tail in
      let behind : Bytes = b':' ∷ c ∷ (p ++ rest) in
      run_step (scan st_host (w ++ behind) b d) b':' (c ∷ (p ++ rest)) refl
      ∙ ap (and_then (λ s. run s (c ∷ (p ++ rest))))
          (store-append with_host next st_colon_before_port d w behind f)
      ∙ run_step (scan st_colon_before_port (w ++ behind) behind (with_host d w)) c (p ++ rest) refl
      ∙ ap (and_then (λ s. run s (p ++ rest))) (
          step_port_digit (scan st_colon_before_port (w ++ behind) behind (with_host d w)) c
            (p ++ rest) h.0.0)
      ∙ run-st_port (c ∷ (p ++ rest)) behind (with_host d w) p rest h.0.1
      ∙ run_port (c ∷ p) behind (with_host d w) l h.1 k

  run_url :
      (s h a b : Bytes) (d : RequestlineData) (p l : Option Bytes)
      → IsUri s × Fits s
      → IsHost h × Fits h
      → OptionAll (λ x. IsPort x × Fits x) p
      → OptionAll (λ x. IsLoc x × Fits x) l
      → (p ≢ none) ⊎ (l ≢ none)
      → run (scan st_space_after_method a b d) (write_target (remote (some s) h p l) tail)
        ≡ final (set_target (remote (some s) h p l) d)
  unfolding run step_in
  run_url [] h a b d p l k f g m ne = absurd k.0
  run_url (c ∷ w) [] a b d p l k f g m ne = absurd f.0
  run_url (c ∷ w) (x ∷ y) a b d p l k f g m ne =
      let rest : Bytes = write_port p (write_loc l tail) in
      let url : Bytes = b':' ∷ b'/' ∷ b'/' ∷ x ∷ (y ++ rest) in
      rw (k.0.0, k.0.1)
        (run-st_uri (c ∷ (w ++ url)) b d w url k.0.2
          ∙ run_schema (c ∷ w) (x ∷ (y ++ rest)) b d k.1
          ∙ rw f.0.0 (
              run-st_host (x ∷ (y ++ rest)) url (with_schema d (c ∷ w)) y rest f.0.1
              ∙ run_host (x ∷ y) url (with_schema d (c ∷ w)) p l f.1 g m ne))

  -- From the blank before the target to the end of the line.
  pub run_target :
      (t : Target) (a b : Bytes) (d : RequestlineData)
      → IsTarget t
      → run (scan st_space_after_method a b d) (write_target t tail) ≡ final (set_target t d)
  unfolding run step_in
  run_target (origin []) a b d h = absurd h.0
  run_target (origin (c ∷ l)) a b d h = rw h.0.0 (run_loc l b d h.0.1 h.1)
  run_target (remote none [] p l) a b d h = absurd h.0.0
  run_target (remote none (c ∷ w) p l) a b d h =
      rw (h.0.0.0, h.0.0.1)
        (run-st_uri (c ∷ (w ++ rest)) b d w rest h.0.0.2 ∙ run_uri (c ∷ w) b d p l h.0.1 h.1 h.2)
    where
      rest : Bytes
      rest = write_port p (write_loc l tail)
  run_target (remote (some s) h p l) a b d k = run_url s h a b d p l k.0 k.1 k.2 k.3 k.4
