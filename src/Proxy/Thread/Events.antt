-- ===== src/Proxy/Thread/Events.antt =====
-- What `connfd_handler` leaves open behind the events of one `epoll_wait`.
use tiny_proxy.Base.{
  ℕ, ◌≡◌, ◌∙◌, refl, sym, Bool, true, false, not, ◌&&◌, ◌||◌, List, [], ◌∷◌, inl, inr, ◌==◌, All,
  arith, ==_flip, append-nil,
}
use tiny_proxy.Base.Int.{ℤ, pos, negsuc, ◌==ℤ◌}
use tiny_proxy.Proxy.Rio.{Io}
use tiny_proxy.Proxy.System.{System}
use tiny_proxy.Proxy.Frame.{Ensures, Ensures-and_then, Ensures-weaken}
use tiny_proxy.Proxy.Doit.{Uninitialised}
use tiny_proxy.Proxy.Ledger.{usage, Descriptors, Ledger, without}
use tiny_proxy.Proxy.Ledger.Handled.{Handled, doit-Handled}
use tiny_proxy.Proxy.Thread.{handle_events}

abbrev pub mem : ℕ → List ℕ → Bool
mem a [] = false
mem a (x ∷ l) = a == x || mem a l

abbrev pub IsDistinct : List ℕ → Type 0
IsDistinct [] = Unit
IsDistinct (x ∷ l) = (mem x l ≡ false) × IsDistinct l

-- Some of `now` are left, and all of those that are not in `ready`.
pub record IsLeft (now left : ℕ → Bool) (ready : List ℕ) : Type 0 where
  pub among : (a : ℕ) → left a ≡ true → now a ≡ true
  pub others : (a : ℕ) → mem a ready ≡ false → left a ≡ now a

module _ {sys : System} (ds : Descriptors sys) (first : Io sys.rio) (start : ℕ → Bool) where
  open sys use {rio}

  abbrev pub Served : (now : ℕ → Bool) → List ℕ → Io rio → Type 0
  Served now ready io = (left : ℕ → Bool) × Ledger ds first start left io × IsLeft now left ready

or_left_false : (a b : Bool) → (a || b) ≡ false → a ≡ false
or_left_false a b h = ground arith

or_right_false : (a b : Bool) → (a || b) ≡ false → b ≡ false
or_right_false a b h = ground arith

and_left : (a b : Bool) → (a && b) ≡ true → a ≡ true
and_left a b h = ground arith

kept : (a b : Bool) → b ≡ false → (a && not b) ≡ a
kept a b h = ground arith

-- Those behind `fd` are other ones.
others_open :
    (now : ℕ → Bool) (fd : ℕ) (ready : List ℕ)
    → mem fd ready ≡ false
    → All (λ a. now a ≡ true) ready
    → All (λ a. without now fd a ≡ true) ready
others_open now fd [] apart h = tt
others_open now fd (x ∷ ready) apart h = (
  kept (now x) (x == fd) (==_flip fd x (or_left_false (fd == x) (mem fd ready) apart)) ∙ h.0,
  others_open now fd ready (or_right_false (fd == x) (mem fd ready) apart) h.1,
)

IsLeft-cons :
    (now now1 left : ℕ → Bool) (fd : ℕ) (ready : List ℕ)
    → ((a : ℕ) → now1 a ≡ true → now a ≡ true)
    → ((a : ℕ) → (a == fd) ≡ false → now1 a ≡ now a)
    → IsLeft now1 left ready
    → IsLeft now left (fd ∷ ready)
IsLeft-cons now now1 left fd ready among others is = record {
  among = λ a h. among a (is.among a h);
  others = λ a h.
      is.others a (or_right_false (a == fd) (mem a ready) h)
      ∙ others a (or_left_false (a == fd) (mem a ready) h);
}

module _ {sys : System} (ds : Descriptors sys) (first : Io sys.rio) (start : ℕ → Bool)
    (memory : Io sys.rio → Uninitialised) (fuel : ℕ) (main_epollfd : ℤ) (ep : ℕ)
    (made : (main_epollfd ==ℤ negsuc 0) ≡ false)
    (creates : (w : sys.rio.World) → (e : ℕ) × ((sys.epoll_create1 w).0 ≡ pos e)) where
  open sys use {rio}

  pub handle_events-Served :
      (ready : List ℕ) (now : ℕ → Bool) (io : Io rio)
      → IsDistinct ready
      → All (λ a. now a ≡ true) ready
      → now ep ≡ true
      → mem ep ready ≡ false
      → Ledger ds first start now io
      → Ensures
          (Served ds first start now ready)
          (handle_events sys memory fuel main_epollfd (pos ep) ready io)
  unfolding handle_events
  handle_events-Served [] now io distinct is_open epoll_open apart l =
      (now, l, record { among = λ a h. h; others = λ a h. refl })
  handle_events-Served (fd ∷ ready) now io distinct is_open epoll_open apart l =
      let behind : mem ep ready ≡ false = or_right_false (ep == fd) (mem ep ready) apart in
      Ensures-and_then (Handled ds first start now fd (pos ep))
        (Served ds first start now (fd ∷ ready)) _ _
        (doit-Handled ds first start now fd is_open.0 ep epoll_open creates fuel (memory io)
          main_epollfd io made l)
        (λ _ i h. elim h [
          | inl k ↦
              Ensures-weaken (Served ds first start (without now fd) ready)
                (Served ds first start now (fd ∷ ready)) _
                (λ j (left, x, is). (
                  left,
                  x,
                  IsLeft-cons now (without now fd) left fd ready
                      (λ a e. and_left (now a) (not (a == fd)) e) (λ a e. kept (now a) (a == fd) e)
                      is,
                ))
                (handle_events-Served ready (without now fd) i distinct.1
                  (others_open now fd ready distinct.0 is_open.1)
                  (kept (now ep) (ep == fd) (or_left_false (ep == fd) (mem ep ready) apart)
                    ∙ epoll_open)
                  behind k)
          | inr k ↦
              Ensures-weaken (Served ds first start now ready)
                (Served ds first start now (fd ∷ ready)) _
                (λ j (left, x, is).
                  (left, x, IsLeft-cons now now left fd ready (λ a e. e) (λ a e. refl) is))
                (handle_events-Served ready now i distinct.1 is_open.1 epoll_open behind k.0)
        ])

-- Whatever the clients and the servers send, for any fuel, and whichever calls but `epoll_create1` fail:
-- when a thread has served the descriptors that `epoll_wait` gave, if these are distinct, among those
-- that are open, and not the thread's own of epoll, which is open, then no call has been made on a
-- descriptor that was not open, the reads and the waits included, each that was opened is closed, none is
-- closed twice, and of those that were open before all that were not ready are still open. This is so
-- if the system's descriptors behave as documented and the global `epollfd` is not -1.
pub handle_events-Ensures :
    {sys : System} (ds : Descriptors sys)
    (creates : (w : sys.rio.World) → (e : ℕ) × ((sys.epoll_create1 w).0 ≡ pos e))
    (memory : Io sys.rio → Uninitialised) (fuel : ℕ) (main_epollfd : ℤ) (ep : ℕ) (ready : List ℕ)
    (now : ℕ → Bool) (io : Io sys.rio)
    → (main_epollfd ==ℤ negsuc 0) ≡ false
    → ((a : ℕ) → now a ≡ true → ds.Open a io.world)
    → All (λ a. now a ≡ true) ready
    → IsDistinct ready
    → now ep ≡ true
    → mem ep ready ≡ false
    → ds.Sound io.world
    → Ensures
        (Served ds io now now ready)
        (handle_events sys memory fuel main_epollfd (pos ep) ready io)
unfolding usage
handle_events-Ensures ds creates memory fuel main_epollfd ep ready now io made is_open all distinct
      epoll_open apart sound =
    handle_events-Served ds io now memory fuel main_epollfd ep made creates ready now io distinct
      all epoll_open apart ([], sym (append-nil io.log), λ a. refl, is_open, sound)
