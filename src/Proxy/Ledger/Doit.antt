-- ===== src/Proxy/Ledger/Doit.antt =====
-- What `doit` leaves open, where the client's descriptor and that of epoll were open before.
use tiny_proxy.Base.{
  ℕ, ◌≡◌, ◌≢◌, ◌∙◌, ap, refl, sym, Bool, true, false, not, ◌&&◌, ◌||◌, List, [], ◌∷◌, ◌++◌, ◌⊎◌,
  inl, inr, ◌==◌, arith, append-nil, ==_iff, ==_same,
}
use tiny_proxy.Base.Int.{ℤ, pos, negsuc, ◌==ℤ◌}
use tiny_proxy.Proxy.Rio.{Call, controlled, rearm, Io}
use tiny_proxy.Proxy.System.{System}
use tiny_proxy.Proxy.Frame.{Ensures, Ensures-weaken}
use tiny_proxy.Proxy.Doit.{Uninitialised, doit}
use tiny_proxy.Proxy.Ledger.{usage, Descriptors, Ledger, Ledger-same, without}
use tiny_proxy.Proxy.Ledger.Handled.{Handled, doit-Handled}

abbrev pub only : ℕ → ℕ → Bool
only fd a = a == fd

abbrev pub pair : ℕ → ℕ → ℕ → Bool
pair fd ep a = a == fd || a == ep

true_ne_false : true ≢ false
true_ne_false e = cc

second : (x y : Bool) → (y ≡ true → x ≡ false) → ((x || y) && not x) ≡ y
second true true h = absurd (true_ne_false (h refl))
second true false h = refl
second false y h = ground arith

one_closed : (fd ep : ℕ) → (ep == fd) ≡ false → (a : ℕ) → without (pair fd ep) fd a ≡ only ep a
one_closed fd ep differ a =
    second (a == fd) (a == ep) (λ e. ap (λ x. x == fd) ((==_iff a ep).0 e) ∙ differ)

pair_second : (fd ep : ℕ) → pair fd ep ep ≡ true
pair_second fd ep = rw (==_same ep) (or_true (ep == fd))
  where
    or_true : (b : Bool) → (b || true) ≡ true
    or_true b = ground arith

pair_first : (fd ep : ℕ) → pair fd ep fd ≡ true
pair_first fd ep = rw (==_same fd) refl

-- Either only the descriptor of epoll is left open, or that of the client too, and then the client's has
-- been armed again at last. (Of those that `first` and the handling know of.)
abbrev pub Outcome :
    {sys : System} → Descriptors sys → Io sys.rio → (fd ep : ℕ) → Io sys.rio → Type 0
Outcome ds first fd ep io =
    Ledger ds first (pair fd ep) (only ep) io
    ⊎ (Ledger ds first (pair fd ep) (pair fd ep) io
        × (l : List Call) × (io.log ≡ l ++ (controlled rearm (pos ep) fd ∷ [])))

Outcome-of :
    {sys : System} (ds : Descriptors sys) (first : Io sys.rio) (fd ep : ℕ) (io : Io sys.rio)
    → (ep == fd) ≡ false
    → Handled ds first (pair fd ep) (pair fd ep) fd (pos ep) io
    → Outcome ds first fd ep io
Outcome-of ds first fd ep io differ (inl l) =
    inl (Ledger-same ds first (pair fd ep) _ (only ep) io (one_closed fd ep differ) l)
Outcome-of ds first fd ep io differ (inr r) = inr r

-- Whatever the client and the server send, for any fuel, and whichever calls but `epoll_create1` fail:
-- when `doit` returns, no call has been made on a descriptor that was not open, the reads and the
-- waits included, every descriptor that it opened is closed, none is closed twice, that of epoll is still
-- open, and that of the client is either closed too or still open, and then the last call has armed it
-- again in `epollfd`. This is so if the system's descriptors behave as documented, the client's and
-- that of epoll are open at first and differ, and the global `epollfd` is not -1.
pub doit-Outcome :
    {sys : System} (ds : Descriptors sys)
    (creates : (w : sys.rio.World) → (e : ℕ) × ((sys.epoll_create1 w).0 ≡ pos e)) (fuel : ℕ)
    (u : Uninitialised) (main_epollfd : ℤ) (fd ep : ℕ) (io : Io sys.rio)
    → (main_epollfd ==ℤ negsuc 0) ≡ false
    → (ep == fd) ≡ false
    → ((a : ℕ) → pair fd ep a ≡ true → ds.Open a io.world)
    → ds.Sound io.world
    → Ensures (Outcome ds io fd ep) (doit sys fuel u main_epollfd fd (pos ep) io)
unfolding usage
doit-Outcome {sys} ds creates fuel u main_epollfd fd ep io made differ is_open sound =
    let start : Ledger ds io (pair fd ep) (pair fd ep) io =
      ([], sym (append-nil io.log), λ a. refl, is_open, sound) in
    Ensures-weaken (Handled ds io (pair fd ep) (pair fd ep) fd (pos ep)) (Outcome ds io fd ep) _
      (λ j h. Outcome-of ds io fd ep j differ h)
      (doit-Handled ds io (pair fd ep) (pair fd ep) fd (pair_first fd ep) ep (pair_second fd ep)
        creates fuel u main_epollfd io made start)
