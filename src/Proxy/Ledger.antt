-- ===== src/Proxy/Ledger.antt =====
-- The use of descriptors: which calls need one to be open, and which open or close it.
pub mod Relay
pub mod Sets
pub mod Handled
pub mod Doit
use tiny_proxy.Base.{
  ℕ, ◌≡◌, ◌∙◌, refl, sym, ap, Bool, true, false, not, ◌&&◌, ◌||◌, Option, none, some, List, [], ◌∷◌,
  ◌++◌, ◌==◌, if◌then◌else◌, append_assoc, arith, subst, Bool-cases, inl, inr, ==_iff, ◌≢◌, ==_same,
  ==_flip,
}
use mathlib.Core.Path.{fun_ext}
use tiny_proxy.Base.Int.{ℤ, pos, negsuc, ◌==ℤ◌}
use tiny_proxy.CString.{Bytes}
use tiny_proxy.Proxy.Rio.{
  Rio, Call, opened, wrote, closed, controlled, nonblocking, EpollOp, Io, send,
}
use tiny_proxy.Proxy.Frame.{Keeps}
use tiny_proxy.Proxy.System.{System, note, note_new, close, control, setnonblocking}

-- A call on the descriptor `a` that is open or not, as `is_open` says: `none` if the call must not
-- be made, or else whether `a` is open afterwards. A registration uses two descriptors, that of epoll and
-- the one that is registered. No call may be made on -1.
abbrev pub use_if : Bool → Bool → Option Bool
use_if true is_open = if is_open then some true else none
use_if false is_open = some is_open

abbrev pub open_if : Bool → Bool → Option Bool
open_if true is_open = if is_open then none else some true
open_if false is_open = some is_open

abbrev pub close_if : Bool → Bool → Option Bool
close_if true is_open = if is_open then some false else none
close_if false is_open = some is_open

abbrev pub call_on : ℕ → Bool → Call → Option Bool
call_on a is_open (opened fd) = open_if (a == fd) is_open
call_on a is_open (wrote fd bs) = use_if (a == fd) is_open
call_on a is_open (closed (pos fd)) = close_if (a == fd) is_open
call_on a is_open (closed (negsuc _)) = none
call_on a is_open (controlled op (pos e) fd) = use_if (a == e || a == fd) is_open
call_on a is_open (controlled op (negsuc _) fd) = none
call_on a is_open (nonblocking fd) = use_if (a == fd) is_open

abbrev pub bind : Option Bool → (Bool → Option Bool) → Option Bool
bind none k = none
bind (some b) k = k b

-- Some calls in their order.
unfoldable pub usage : ℕ → Bool → List Call → Option Bool
usage a is_open [] = some is_open
usage a is_open (c ∷ l) = bind (call_on a is_open c) (λ b. usage a b l)

bind_assoc :
    (o : Option Bool) (f g : Bool → Option Bool) → bind (bind o f) g ≡ bind o (λ b. bind (f b) g)
bind_assoc none f g = refl
bind_assoc (some b) f g = refl

pub usage-append :
    (a : ℕ) (b : Bool) (l m : List Call)
    → usage a b (l ++ m) ≡ bind (usage a b l) (λ c. usage a c m)
unfolding usage
usage-append a b [] m = refl
usage-append a b (c ∷ l) m =
    ap (bind (call_on a b c)) (fun_ext (λ x. usage-append a x l m))
    ∙ sym (bind_assoc (call_on a b c) (λ x. usage a x l) (λ x. usage a x m))

-- What the system documents of its descriptors: `Open fd w` says that `fd` is open in the state `w`.
-- A new descriptor is none that is open. Only `close` closes, and only its own. `Sound w` says that each
-- call that has led to the state `w`, the reads and the waits included, was made on open descriptors:
-- it is kept by such a call, and nothing is said of another one. `fd_of rp` is the descriptor that the
-- Rio package reads for the stream `rp`.
pub record Descriptors (sys : System) : Type 1 where
  pub Open : ℕ → sys.rio.World → Type 0
  pub Sound : sys.rio.World → Type 0
  pub fd_of : ℕ → ℕ
  pub init_fd : (fd : ℕ) (w : sys.rio.World) → fd_of (sys.rio_readinitb fd w).0 ≡ fd
  pub sound_line :
      (rp : ℕ) (w : sys.rio.World)
      → Open (fd_of rp) w
      → Sound w
      → Sound (sys.rio.rio_readlineb rp w).1
  pub sound_block :
      (rp n : ℕ) (w : sys.rio.World)
      → Open (fd_of rp) w
      → Sound w
      → Sound (sys.rio.rio_readnb rp n w).1
  pub sound_write :
      (fd : ℕ) (bs : Bytes) (w : sys.rio.World)
      → Open fd w
      → Sound w
      → Sound (sys.rio.rio_writen fd bs w)
  pub sound_init :
      (fd : ℕ) (w : sys.rio.World) → Open fd w → Sound w → Sound (sys.rio_readinitb fd w).1
  pub sound_read : (fd n : ℕ) (w : sys.rio.World) → Open fd w → Sound w → Sound (sys.read fd n w).1
  pub sound_wait :
      (e : ℕ) (w : sys.rio.World) → Open e w → Sound w → Sound (sys.epoll_wait (pos e) w).1
  pub sound_control :
      (op : EpollOp) (e fd : ℕ) (w : sys.rio.World)
      → Open e w
      → Open fd w
      → Sound w
      → Sound (sys.epoll_ctl op (pos e) fd w).1
  pub sound_fcntl : (fd : ℕ) (w : sys.rio.World) → Open fd w → Sound w → Sound (sys.fcntl fd w)
  pub sound_close :
      (fd : ℕ) (w : sys.rio.World) → Open fd w → Sound w → Sound (sys.close (pos fd) w)
  pub sound_open :
      (host port : Bytes) (w : sys.rio.World) → Sound w → Sound (sys.open_clientfd host port w).1
  pub sound_create : (w : sys.rio.World) → Sound w → Sound (sys.epoll_create1 w).1
  pub after_line : (a rp : ℕ) (w : sys.rio.World) → Open a w → Open a (sys.rio.rio_readlineb rp w).1
  pub after_block :
      (a rp n : ℕ) (w : sys.rio.World) → Open a w → Open a (sys.rio.rio_readnb rp n w).1
  pub after_write :
      (a fd : ℕ) (bs : Bytes) (w : sys.rio.World) → Open a w → Open a (sys.rio.rio_writen fd bs w)
  pub after_init : (a fd : ℕ) (w : sys.rio.World) → Open a w → Open a (sys.rio_readinitb fd w).1
  pub after_read : (a fd n : ℕ) (w : sys.rio.World) → Open a w → Open a (sys.read fd n w).1
  pub after_wait :
      (a : ℕ) (epollfd : ℤ) (w : sys.rio.World) → Open a w → Open a (sys.epoll_wait epollfd w).1
  pub after_control :
      (a : ℕ) (op : EpollOp) (epollfd : ℤ) (fd : ℕ) (w : sys.rio.World)
      → Open a w
      → Open a (sys.epoll_ctl op epollfd fd w).1
  pub after_fcntl : (a fd : ℕ) (w : sys.rio.World) → Open a w → Open a (sys.fcntl fd w)
  pub after_close :
      (a : ℕ) (fd : ℤ) (w : sys.rio.World)
      → Open a w
      → (fd ==ℤ pos a) ≡ false
      → Open a (sys.close fd w)
  pub after_open :
      (a : ℕ) (host port : Bytes) (w : sys.rio.World)
      → Open a w
      → Open a (sys.open_clientfd host port w).1
  pub after_create : (a : ℕ) (w : sys.rio.World) → Open a w → Open a (sys.epoll_create1 w).1
  pub open_new :
      (host port : Bytes) (w : sys.rio.World) (fd : ℕ)
      → (sys.open_clientfd host port w).0 ≡ some fd
      → Open fd (sys.open_clientfd host port w).1 × ((a : ℕ) → Open a w → (a == fd) ≡ false)
  pub create_new :
      (w : sys.rio.World) (fd : ℕ)
      → (sys.epoll_create1 w).0 ≡ pos fd
      → Open fd (sys.epoll_create1 w).1 × ((a : ℕ) → Open a w → (a == fd) ≡ false)

abbrev pub with_fd : (ℕ → Bool) → ℕ → ℕ → Bool
with_fd now fd a = now a || a == fd

abbrev pub without : (ℕ → Bool) → ℕ → ℕ → Bool
without now fd a = now a && not (a == fd)

true_ne_false : true ≢ false
true_ne_false e = cc

and_left : (a b : Bool) → (a && b) ≡ true → a ≡ true
and_left a b h = ground arith

apart_lem : (a fd : ℕ) (b : Bool) → (b && not (a == fd)) ≡ true → (fd == a) ≡ false
apart_lem a fd b h = ground arith

or_left : (a : Bool) {b : Bool} → b ≡ false → (a || b) ≡ true → a ≡ true
or_left a e h = ground arith

module _ {sys : System} (ds : Descriptors sys) (first : Io sys.rio) (start : ℕ → Bool) where
  open sys use {rio}
  open ds use {Open}

  -- Since the state `first`, in which the descriptors of `start` were open, no call that is logged was
  -- made on a descriptor that was not open, now those of `now` are open, and no other call, such as a
  -- read or a wait, was made on one that was not open either.
  abbrev pub Ledger : (ℕ → Bool) → Io rio → Type 0
  Ledger now io =
      (l : List Call) × (io.log ≡ first.log ++ l)
      × ((a : ℕ) → usage a (start a) l ≡ some (now a))
      × ((a : ℕ) → now a ≡ true → Open a io.world)
      × ds.Sound io.world

  -- One more call.
  pub Ledger-note :
      (now then_open : ℕ → Bool) (c : Call) (io : Io rio) (w : rio.World)
      → Ledger now io
      → ((a : ℕ) → call_on a (now a) c ≡ some (then_open a))
      → ((a : ℕ) → then_open a ≡ true → Open a w)
      → ds.Sound w
      → Ledger then_open (record { world = w; log = io.log ++ (c ∷ []) })
  unfolding usage
  Ledger-note now then_open c io w (l, e, u, o, s) step still sound = (
    l ++ (c ∷ []),
    ap (λ x. x ++ (c ∷ [])) e ∙ append_assoc first.log l (c ∷ []),
    λ a.
        usage-append a (start a) l (c ∷ [])
        ∙ ap (λ x. bind x (λ b. usage a b (c ∷ []))) (u a)
        ∙ ap (λ x. bind x (λ b. some b)) (step a),
    still,
    sound,
  )

  -- The calls leave `now` as it is.
  pub Ledger-world :
      (now : ℕ → Bool) (io : Io rio) (w : rio.World)
      → Ledger now io
      → ((a : ℕ) → Open a io.world → Open a w)
      → ds.Sound w
      → Ledger now (record io { world = w })
  Ledger-world now io w (l, e, u, o, s) still sound = (l, e, u, λ a h. still a (o a h), sound)

  pub Ledger-same :
      (now other : ℕ → Bool) (io : Io rio)
      → ((a : ℕ) → now a ≡ other a)
      → Ledger now io
      → Ledger other io
  Ledger-same now other io same h = subst (λ f. Ledger f io) (fun_ext same) h

  use_lem :
      (now : ℕ → Bool) (fd : ℕ) → now fd ≡ true → (a : ℕ) → use_if (a == fd) (now a) ≡ some (now a)
  use_lem now fd h a = elim (Bool-cases (a == fd)) [
    | inl e ↦ let is_open : now a ≡ true = ap now ((==_iff a fd).0 e) ∙ h in rw (e, is_open) refl
    | inr e ↦ rw e refl
  ]

  pub Ledger-write :
      (now : ℕ → Bool) (fd : ℕ) (bs : Bytes) (io : Io rio)
      → now fd ≡ true
      → Ledger now io
      → Ledger now (send rio fd bs io)
  Ledger-write now fd bs io h k =
      Ledger-note now now (wrote fd bs) io _ k (use_lem now fd h)
        (λ a o. ds.after_write a fd bs io.world (k.3 a o))
        (ds.sound_write fd bs io.world (k.3 fd h) k.4)

  -- Reads from a stream whose descriptor is open, and writes to a descriptor that is.
  pub Ledger-Keeps :
      (now : ℕ → Bool) (rp from fd : ℕ)
      → ds.fd_of rp ≡ from
      → now from ≡ true
      → now fd ≡ true
      → Keeps rio rp fd (Ledger now)
  Ledger-Keeps now rp from fd of readable h =
      let of_open : now (ds.fd_of rp) ≡ true = ap now of ∙ readable in
      record {
        line = λ io k.
            Ledger-world now io _ k (λ a. ds.after_line a rp io.world)
              (ds.sound_line rp io.world (k.3 _ of_open) k.4);
        block = λ n io k.
            Ledger-world now io _ k (λ a. ds.after_block a rp n io.world)
              (ds.sound_block rp n io.world (k.3 _ of_open) k.4);
        write = λ bs io k. Ledger-write now fd bs io h k;
      }

  use_two :
      (now : ℕ → Bool) (e fd : ℕ)
      → now e ≡ true
      → now fd ≡ true
      → (a : ℕ) → use_if (a == e || a == fd) (now a) ≡ some (now a)
  use_two now e fd h h' a = elim (Bool-cases (a == e)) [
    | inl p ↦ let is_open : now a ≡ true = ap now ((==_iff a e).0 p) ∙ h in rw (p, is_open) refl
    | inr p ↦ rw p (use_lem now fd h' a)
  ]

  pub Ledger-control :
      (now : ℕ → Bool) (op : EpollOp) (e fd : ℕ) (io : Io rio)
      → now e ≡ true
      → now fd ≡ true
      → Ledger now io
      → Ledger now (control sys op (pos e) fd io).1
  Ledger-control now op e fd io h h' k =
      Ledger-note now now (controlled op (pos e) fd) io _ k (use_two now e fd h h')
        (λ a o. ds.after_control a op (pos e) fd io.world (k.3 a o))
        (ds.sound_control op e fd io.world (k.3 e h) (k.3 fd h') k.4)

  pub Ledger-setnonblocking :
      (now : ℕ → Bool) (fd : ℕ) (io : Io rio)
      → now fd ≡ true
      → Ledger now io
      → Ledger now (setnonblocking sys fd io)
  Ledger-setnonblocking now fd io h k =
      Ledger-note now now (nonblocking fd) io _ k (use_lem now fd h)
        (λ a o. ds.after_fcntl a fd io.world (k.3 a o)) (ds.sound_fcntl fd io.world (k.3 fd h) k.4)

  close_lem :
      (now : ℕ → Bool) (fd : ℕ)
      → now fd ≡ true
      → (a : ℕ) → close_if (a == fd) (now a) ≡ some (without now fd a)
  close_lem now fd h a = elim (Bool-cases (a == fd)) [
    | inl e ↦ let is_open : now a ≡ true = ap now ((==_iff a fd).0 e) ∙ h in rw (e, is_open) refl
    | inr e ↦ elim (Bool-cases (now a)) [ inl o ↦ rw (e, o) refl | inr o ↦ rw (e, o) refl ]
  ]

  pub Ledger-close :
      (now : ℕ → Bool) (fd : ℕ) (io : Io rio)
      → now fd ≡ true
      → Ledger now io
      → Ledger (without now fd) (close sys (pos fd) io)
  unfolding ◌==ℤ◌
  Ledger-close now fd io h k =
      Ledger-note now (without now fd) (closed (pos fd)) io _ k (close_lem now fd h)
        (λ a o.
          ds.after_close a (pos fd) io.world (k.3 a (and_left (now a) (not (a == fd)) o))
            (apart_lem a fd (now a) o))
        (ds.sound_close fd io.world (k.3 fd h) k.4)

  -- A new descriptor is not among those of `now`.
  pub new_lem :
      (now : ℕ → Bool) (fd : ℕ) (io : Io rio)
      → Ledger now io
      → ((a : ℕ) → Open a io.world → (a == fd) ≡ false)
      → now fd ≡ false
  new_lem now fd io k fresh = elim (Bool-cases (now fd)) [
    | inl e ↦ absurd (true_ne_false (sym (==_same fd) ∙ fresh fd (k.3 fd e)))
    | inr e ↦ e
  ]

  open_lem :
      (now : ℕ → Bool) (fd : ℕ)
      → now fd ≡ false
      → (a : ℕ) → open_if (a == fd) (now a) ≡ some (with_fd now fd a)
  open_lem now fd h a = elim (Bool-cases (a == fd)) [
    | inl e ↦ let is_shut : now a ≡ false = ap now ((==_iff a fd).0 e) ∙ h in rw (e, is_shut) refl
    | inr e ↦ elim (Bool-cases (now a)) [ inl o ↦ rw (e, o) refl | inr o ↦ rw (e, o) refl ]
  ]

  pub Ledger-open :
      (now : ℕ → Bool) (fd : ℕ) (io : Io rio) (w : rio.World)
      → Ledger now io
      → now fd ≡ false
      → Open fd w
      → ((a : ℕ) → Open a io.world → Open a w)
      → ds.Sound w
      → Ledger (with_fd now fd) (note_new sys (some fd) (record io { world = w }))
  Ledger-open now fd io w k h is_open still sound =
      Ledger-note now (with_fd now fd) (opened fd) io w k (open_lem now fd h)
        (λ a o. elim (Bool-cases (a == fd)) [
          | inl e ↦ subst (λ x. Open x w) (sym ((==_iff a fd).0 e)) is_open
          | inr e ↦ still a (k.3 a (or_left (now a) e o))
        ])
        sound
