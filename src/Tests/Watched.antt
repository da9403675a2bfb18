-- ===== src/Tests/Watched.antt =====
-- The system of Scripted with its open descriptors, which notes whether each call was made on one of
-- these.
use tiny_proxy.Base.{
  ℕ, ◌+◌, ◌<◌, ◌≡◌, ◌∙◌, refl, sym, ap, Bool, true, false, ◌&&◌, ◌||◌, some, [], ◌∷◌, ◌==◌, arith,
  ==_flip, ==_same, if◌then◌else◌,
}
use tiny_proxy.Base.Int.{ℤ, pos, negsuc, ◌==ℤ◌}
use tiny_proxy.CString.{Bytes}
use tiny_proxy.Proxy.System.{System}
use tiny_proxy.Proxy.Ledger.{Descriptors, with_fd, without}
use tiny_proxy.Proxy.Rio.{Rio, Io, eof}
use tiny_proxy.Tests.Scripted.{Net, scripted}

pub record Watch : Type 0 where
  pub net : Net
  pub is_open : ℕ → Bool
  pub safe : Bool

-- A call that needs `ok`.
abbrev pub checked : Bool → Net → Watch → Watch
checked ok n w = record w { net = n; safe = w.safe && ok }

abbrev pub next_net : Net → Net
next_net n = record n { fresh = n.fresh + 1 }

abbrev pub grown : Watch → Watch
grown w = record w { net = next_net w.net; is_open = with_fd w.is_open w.net.fresh }

abbrev pub open_int : Watch → ℤ → Bool
open_int w (pos fd) = w.is_open fd
open_int w (negsuc _) = false

abbrev pub shut : ℤ → Watch → Watch
shut (pos fd) w = record (checked (w.is_open fd) w.net w) { is_open = without w.is_open fd }
shut (negsuc _) w = checked false w.net w

-- A stream has the number of its descriptor. In a tunnel the client, with the descriptor 5, is ready and
-- has closed.
abbrev pub watched_rio : Rio
watched_rio = record {
  World = Watch;
  rio_readlineb =
      λ rp w. let (r, n) = scripted.rio_readlineb rp w.net in (r, checked (w.is_open rp) n w);
  rio_readnb =
      λ rp k w. let (r, n) = scripted.rio_readnb rp k w.net in (r, checked (w.is_open rp) n w);
  rio_writen = λ fd out w. checked (w.is_open fd) w.net w;
}

abbrev pub watched : System
watched = record {
  rio = watched_rio;
  rio_readinitb = λ fd w. (fd, checked (w.is_open fd) w.net w);
  open_clientfd = λ host port w. (some w.net.fresh, grown w);
  close = shut;
  epoll_create1 = λ w. (pos w.net.fresh, grown w);
  epoll_ctl = λ op e fd w. (true, checked (open_int w e && w.is_open fd) w.net w);
  epoll_wait = λ e w. (some (5 ∷ []), checked (open_int w e) w.net w);
  read = λ fd n w. (eof, checked (w.is_open fd) w.net w);
  fcntl = λ fd w. checked (w.is_open fd) w.net w;
}

abbrev OpenIn : ℕ → Watch → Type 0
OpenIn a w = (w.is_open a ≡ true) × (a < w.net.fresh)

below_apart : (a n : ℕ) → a < n → (a == n) ≡ false
below_apart a n h = ground arith

pub pos_inj : {a b : ℕ} → pos a ≡ pos b → a ≡ b
pos_inj e = cc

pub some_inj : {a b : ℕ} → some a ≡ some b → a ≡ b
some_inj e = cc

pub true_and : {a b : Bool} → a ≡ true → b ≡ true → (a && b) ≡ true
true_and h k = rw (h, k) refl

or_true : (b : Bool) → (b || true) ≡ true
or_true b = ground arith

pub grown_open : (a : ℕ) (w : Watch) → OpenIn a w → OpenIn a (grown w)
grown_open a w h = (rw h.0 refl, let k = h.1 in omega arith)

pub grown_new :
    (w : Watch) (fd : ℕ)
    → w.net.fresh ≡ fd
    → OpenIn fd (grown w) × ((a : ℕ) → OpenIn a w → (a == fd) ≡ false)
grown_new w fd e = (
  (
    ap (λ x. w.is_open fd || fd == x) e
        ∙ ap (λ x. w.is_open fd || x) (==_same fd)
        ∙ or_true (w.is_open fd),
    omega (arith, e),
  ),
  λ a h. ap (λ x. a == x) (sym e) ∙ below_apart a w.net.fresh h.1,
)

pub shut_open :
    (a : ℕ) (fd : ℤ) (w : Watch) → OpenIn a w → (fd ==ℤ pos a) ≡ false → OpenIn a (shut fd w)
unfolding ◌==ℤ◌
shut_open a (pos fd) w h differ = (rw (h.0, ==_flip fd a differ) refl, h.1)
shut_open a (negsuc n) w h differ = h

unfoldable pub descriptors : Descriptors watched
descriptors = record {
  Open = OpenIn;
  Sound = λ w. w.safe ≡ true;
  fd_of = λ rp. rp;
  init_fd = λ fd w. refl;
  sound_line = λ rp w h s. true_and s h.0;
  sound_block = λ rp n w h s. true_and s h.0;
  sound_write = λ fd bs w h s. true_and s h.0;
  sound_init = λ fd w h s. true_and s h.0;
  sound_read = λ fd n w h s. true_and s h.0;
  sound_wait = λ e w h s. true_and s h.0;
  sound_control = λ op e fd w h k s. true_and s (true_and h.0 k.0);
  sound_fcntl = λ fd w h s. true_and s h.0;
  sound_close = λ fd w h s. true_and s h.0;
  sound_open = λ host port w s. s;
  sound_create = λ w s. s;
  after_line = λ a rp w h. h;
  after_block = λ a rp n w h. h;
  after_write = λ a fd bs w h. h;
  after_init = λ a fd w h. h;
  after_read = λ a fd n w h. h;
  after_wait = λ a epollfd w h. h;
  after_control = λ a op epollfd fd w h. h;
  after_fcntl = λ a fd w h. h;
  after_close = shut_open;
  after_open = λ a host port w h. grown_open a w h;
  after_create = λ a w h. grown_open a w h;
  open_new = λ host port w fd e. grown_new w fd (some_inj e);
  create_new = λ w fd e. grown_new w fd (pos_inj e);
}

-- The descriptors 4, of epoll, 5 and 6 are open, the next one is 9.
abbrev pub three_open : ℕ → Bool
three_open a = a == 4 || a == 5 || a == 6

abbrev pub watching : Bytes → Bytes → Io watched_rio
watching client server = record {
  world = record {
    net = record { streams = λ rp. if rp == 5 then client else server; fresh = 9 };
    is_open = three_open;
    safe = true;
  };
  log = [];
}

below_nine : (a : ℕ) → three_open a ≡ true → a < 9
below_nine a h = ground arith

pub three_OpenIn :
    (client server : Bytes) (a : ℕ) → three_open a ≡ true → (three_open a ≡ true) × (a < 9)
three_OpenIn client server a h = (h, below_nine a h)
