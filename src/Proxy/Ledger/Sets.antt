-- ===== src/Proxy/Ledger/Sets.antt =====
-- Sets of descriptors that grow by one and lose it again.
use tiny_proxy.Base.{
  ℕ, ◌≡◌, ◌∙◌, refl, sym, ap, Bool, true, false, not, ◌&&◌, ◌||◌, inl, inr, ◌==◌, arith, ==_iff,
  ◌≢◌, Bool-cases,
}
use tiny_proxy.Proxy.Ledger.{with_fd, without}

false_ne_true : false ≢ true
false_ne_true e = cc

pub apart_from :
    (mine : ℕ → Bool) (server fd : ℕ)
    → mine fd ≡ true
    → mine server ≡ false
    → (server == fd) ≡ false
apart_from mine server fd is_open new = elim (Bool-cases (server == fd)) [
  | inl e ↦ absurd (false_ne_true (sym new ∙ ap mine ((==_iff server fd).0 e) ∙ is_open))
  | inr e ↦ e
]

cancel_one : (x y : Bool) → (y ≡ true → x ≡ false) → ((x || y) && not y) ≡ x
cancel_one x false h = ground arith
cancel_one false true h = refl
cancel_one true true h = absurd (false_ne_true (sym (h refl)))

swap_closed : (x y z : Bool) → ((x && not y) && not z) ≡ ((x && not z) && not y)
swap_closed x y z = ground arith

-- A new descriptor that is closed again.
pub server_closed :
    (mine : ℕ → Bool) (server : ℕ)
    → mine server ≡ false
    → (a : ℕ) → without (with_fd mine server) server a ≡ mine a
server_closed mine server new a =
    cancel_one (mine a) (a == server) (λ e. ap mine ((==_iff a server).0 e) ∙ new)

pub server_first_closed :
    (mine : ℕ → Bool) (server fd : ℕ)
    → mine server ≡ false
    → (a : ℕ) → without (without (with_fd mine server) server) fd a ≡ without mine fd a
server_first_closed mine server fd new a =
    ap (λ b. b && not (a == fd)) (server_closed mine server new a)

pub client_first_closed :
    (mine : ℕ → Bool) (server fd : ℕ)
    → mine server ≡ false
    → (a : ℕ) → without (without (with_fd mine server) fd) server a ≡ without mine fd a
client_first_closed mine server fd new a =
    swap_closed (mine a || a == server) (a == fd) (a == server)
    ∙ server_first_closed mine server fd new a
