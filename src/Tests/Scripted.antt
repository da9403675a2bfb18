-- ===== src/Tests/Scripted.antt =====
-- The Rio package and the system's calls where peers have sent given bytes and closed their sides.
use tiny_proxy.Base.{
  true, some, none, ◌+◌, sym, ==_same, ℕ, zero, suc, ◌<◌, ◌≡◌, refl, ap, ◌∙◌, false, [], ◌∷◌, ◌++◌,
  length, take, drop, All, ◌==◌, if◌then◌else◌, arith, take-length-append, drop-length-append,
}
use tiny_proxy.Base.Int.{pos}
use tiny_proxy.CString.{Bytes}
use tiny_proxy.Proxy.System.{System}
use tiny_proxy.Proxy.Rio.{Rio, Stream, Read, got, eof, failed, again, maxline}
use tiny_proxy.Proxy.Relay.Drain.{Source}

-- The bytes up to the first line feed, and what follows it.
abbrev pub cut_line : Bytes → Bytes × Bytes
cut_line [] = ([], [])
cut_line (c ∷ s) = if c == b'\n' then (c ∷ [], s) else (let (a, b) = cut_line s in (c ∷ a, b))

abbrev pub answer : Bytes × Bytes → Read × Bytes
answer ([], rest) = (eof, rest)
answer (c ∷ a, rest) = (got (c ∷ a), rest)

-- What is still to be read from each stream, and the next descriptor. A stream has the number of its
-- descriptor.
pub record Net : Type 0 where
  pub streams : ℕ → Bytes
  pub fresh : ℕ

abbrev pub keep : ℕ → Bytes → Net → Net
keep rp rest w = record w { streams = λ x. if x == rp then rest else w.streams x }

abbrev pub from : ℕ → Net → Read × Bytes → Read × Net
from rp w (r, rest) = (r, keep rp rest w)

abbrev pub scripted : Rio
scripted = record {
  World = Net;
  rio_readlineb = λ rp w. from rp w (answer (cut_line (w.streams rp)));
  rio_readnb = λ rp n w. from rp w (answer (take n (w.streams rp), drop n (w.streams rp)));
  rio_writen = λ fd out w. w;
}

pub cut_line_lem :
    (l rest : Bytes)
    → All (λ c. (c == b'\n') ≡ false) l
    → cut_line (l ++ (b'\n' ∷ rest)) ≡ (l ++ (b'\n' ∷ []), rest)
cut_line_lem [] rest h = refl
cut_line_lem (c ∷ l) rest h = rw (h.0, cut_line_lem l rest h.1) refl

pub answer_line :
    (l rest : Bytes) → answer (l ++ (b'\n' ∷ []), rest) ≡ (got (l ++ (b'\n' ∷ [])), rest)
answer_line [] rest = refl
answer_line (c ∷ l) rest = refl

pub answer_block : (bs rest : Bytes) → 0 < length bs → answer (bs, rest) ≡ (got bs, rest)
answer_block [] rest h = absurd (omega (arith))
answer_block (c ∷ bs) rest h = refl

pub nothing_left : (n : ℕ) → answer (take n [], drop n []) ≡ (eof, [])
nothing_left zero = refl
nothing_left (suc n) = refl

pub take_all : (bs : Bytes) (n : ℕ) → length bs < n → take n bs ≡ bs
take_all [] zero h = refl
take_all [] (suc n) h = refl
take_all (c ∷ bs) zero h = elim h [ ]
take_all (c ∷ bs) (suc n) h = ap (◌∷◌ c) (take_all bs n (omega (arith)))

pub drop_all : (bs : Bytes) (n : ℕ) → length bs < n → drop n bs ≡ []
drop_all [] zero h = refl
drop_all [] (suc n) h = refl
drop_all (c ∷ bs) zero h = elim h [ ]
drop_all (c ∷ bs) (suc n) h = drop_all bs n (omega (arith))

pub kept : (rp : ℕ) (rest : Bytes) (w : Net) → (keep rp rest w).streams rp ≡ rest
kept rp rest w = rw (==_same rp) refl

unfoldable pub peer : (rp : ℕ) → Stream scripted rp
peer rp = record {
  At = λ bs w. w.streams rp ≡ bs;
  line = λ l rest w here text short. (
    keep rp rest w,
    ap (from rp w) (
        ap (λ x. answer (cut_line x)) here
        ∙ ap answer (cut_line_lem l rest text)
        ∙ answer_line l rest),
    kept rp rest w,
  );
  block = λ bs rest w here some. (
    keep rp rest w,
    ap (from rp w) (
        ap (λ x. answer (take (length bs) x, drop (length bs) x)) here
        ∙ ap (λ x. answer (x, drop (length bs) (bs ++ rest))) (take-length-append bs rest)
        ∙ ap (λ x. answer (bs, x)) (drop-length-append bs rest)
        ∙ answer_block bs rest some),
    kept rp rest w,
  );
  rest = λ bs n w here some less. (
    keep rp [] w,
    ap (from rp w) (
        ap (λ x. answer (take n x, drop n x)) here
        ∙ ap (λ x. answer (x, drop n bs)) (take_all bs n less)
        ∙ ap (λ x. answer (bs, x)) (drop_all bs n less)
        ∙ answer_block bs [] some),
    kept rp [] w,
  );
  line_end =
      λ w here. (keep rp [] w, ap (from rp w) (ap (λ x. answer (cut_line x)) here), kept rp [] w);
  block_end = λ n w here. (
    keep rp [] w,
    ap (from rp w) (ap (λ x. answer (take n x, drop n x)) here ∙ nothing_left n),
    kept rp [] w,
  );
  no_bytes = λ bs w here.
      (keep rp bs w, ap (from rp w) (ap (λ x. answer (take 0 x, drop 0 x)) here), kept rp bs w);
  write = λ fd out bs w here. here;
}

-- No call fails, `epoll_wait` ends the tunnel, and the descriptors are numbered in their order.
abbrev pub system : System
system = record {
  rio = scripted;
  rio_readinitb = λ fd w. (fd, w);
  open_clientfd = λ host port w. (some w.fresh, record w { fresh = w.fresh + 1 });
  close = λ fd w. w;
  epoll_create1 = λ w. (pos w.fresh, record w { fresh = w.fresh + 1 });
  epoll_ctl = λ op epollfd fd w. (true, w);
  epoll_wait = λ epollfd w. (none, w);
  read = λ fd n w. (eof, w);
  fcntl = λ fd w. w;
}

-- The server answers `reply` on the descriptor 9.
abbrev pub answering : Bytes → System
answering reply = record system { open_clientfd = λ host port w. (some 9, keep 9 reply w) }

abbrev pub unreachable : System
unreachable = record system { open_clientfd = λ host port w. (none, w) }

abbrev pub available : Bytes × Bytes → Read × Bytes
available ([], rest) = (failed again [], rest)
available (c ∷ a, rest) = (got (c ∷ a), rest)

-- `read` gives what has arrived.
abbrev pub arrived : System
arrived = record system {
  read = λ fd n w. from fd w (available (take n (w.streams fd), drop n (w.streams fd)));
}

pub available_block : (bs rest : Bytes) → 0 < length bs → available (bs, rest) ≡ (got bs, rest)
available_block [] rest h = absurd (omega arith)
available_block (c ∷ bs) rest h = refl

pub available_nothing : (n : ℕ) → available (take n [], drop n []) ≡ (failed again [], [])
available_nothing zero = refl
available_nothing (suc n) = refl

unfoldable pub socket : (fd : ℕ) → Source arrived fd
socket fd = record {
  Available = λ bs w. w.streams fd ≡ bs;
  full = λ bs rest w here size. (
    keep fd rest w,
    ap (from fd w) (
        ap (λ x. available (take maxline x, drop maxline x)) here
        ∙ ap (λ n. available (take n (bs ++ rest), drop n (bs ++ rest))) (sym size)
        ∙ ap (λ x. available (x, drop (length bs) (bs ++ rest))) (take-length-append bs rest)
        ∙ ap (λ x. available (bs, x)) (drop-length-append bs rest)
        ∙ available_block bs rest (omega (arith, size))),
    kept fd rest w,
  );
  short = λ bs w here some less. (
    keep fd [] w,
    ap (from fd w) (
        ap (λ x. available (take maxline x, drop maxline x)) here
        ∙ ap (λ x. available (x, drop maxline bs)) (take_all bs maxline less)
        ∙ ap (λ x. available (bs, x)) (drop_all bs maxline less)
        ∙ available_block bs [] some),
    kept fd [] w,
  );
  nothing = λ w here. (
    keep fd [] w,
    ap (from fd w)
        (ap (λ x. available (take maxline x, drop maxline x)) here ∙ available_nothing maxline),
    kept fd [] w,
  );
  write = λ target out bs w here. here;
}
