-- ===== src/Proxy/Frame.antt =====
-- What the handlers leave alone. The statements are about a predicate `P` of the system's state and the calls made so far.
pub mod Chunked
pub mod Request
pub mod Reply
use tiny_proxy.Base.{ℕ, Bool, true, false, if◌then◌else◌, Option, none, some}
use tiny_proxy.CString.{Bytes}
use tiny_proxy.Proxy.Rio.{Rio, Io, Run, done, aborted, fault, out_of_fuel, send, and_then}
use tiny_proxy.Proxy.Chunked.Loop.{read_line, read_block, write_count}

-- If the run ends with a result, `P` holds then.
abbrev pub Ensures : {rio : Rio} {A : Type 0} → (Io rio → Type 0) → Run rio A → Type 0
Ensures P (done a io) = P io
Ensures P aborted = Unit
Ensures P fault = Unit
Ensures P out_of_fuel = Unit

-- `P` survives reads from the stream `rp` and writes to the descriptor `fd`.
pub record Keeps (rio : Rio) (rp fd : ℕ) (P : Io rio → Type 0) : Type 0 where
  pub line : (io : Io rio) → P io → P (read_line rio rp io).1
  pub block : (n : ℕ) (io : Io rio) → P io → P (read_block rio rp n io).1
  pub write : (bs : Bytes) (io : Io rio) → P io → P (send rio fd bs io)

pub Ensures-weaken :
    {rio : Rio} {A : Type 0} (P Q : Io rio → Type 0) (r : Run rio A)
    → ((i : Io rio) → P i → Q i)
    → Ensures P r
    → Ensures Q r
Ensures-weaken P Q (done a io) f h = f io h
Ensures-weaken P Q aborted f h = tt
Ensures-weaken P Q fault f h = tt
Ensures-weaken P Q out_of_fuel f h = tt

pub Ensures-and_then :
    {rio : Rio} {A B : Type 0} (P Q : Io rio → Type 0) (r : Run rio A) (k : A → Io rio → Run rio B)
    → Ensures P r
    → ((a : A) (i : Io rio) → P i → Ensures Q (k a i))
    → Ensures Q (and_then rio r k)
Ensures-and_then P Q (done a io) k h next = next a io h
Ensures-and_then P Q aborted k h next = tt
Ensures-and_then P Q fault k h next = tt
Ensures-and_then P Q out_of_fuel k h next = tt

module _ {rio : Rio} (P : Io rio → Type 0) where
  pub Ensures-if :
      {A : Type 0} (b : Bool) (r s : Run rio A)
      → Ensures P r
      → Ensures P s
      → Ensures P (if b then r else s)
  Ensures-if true r s h k = h
  Ensures-if false r s h k = k

  pub Ensures-elim :
      {A : Type 0} (b : Bool) (r s : Run rio A)
      → Ensures P r
      → Ensures P s
      → Ensures P (elim b [ true ↦ r | false ↦ s ])
  Ensures-elim true r s h k = h
  Ensures-elim false r s h k = k

  pub either : (b : Bool) (x y : Io rio) → P x → P y → P (if b then x else y)
  either true x y h k = h
  either false x y h k = k

  pub Ensures-write_count :
      {A : Type 0} {rp fd : ℕ} (keeps : Keeps rio rp fd P) (buf : Bytes) (c : Option ℕ)
      (io : Io rio) (k : Io rio → Run rio A)
      → P io
      → ((i : Io rio) → P i → Ensures P (k i))
      → Ensures P (write_count rio fd buf c io k)
  Ensures-write_count keeps buf none io k h next = tt
  Ensures-write_count keeps buf (some n) io k h next = next _ (keeps.write _ io h)
