-- ===== src/Proxy/Buffer.antt =====
-- The character arrays of the handlers. A list holds the whole array; what a write does not reach
-- stays.
use tiny_proxy.Base.{
  ◌≡◌, refl, ap, false, [], ◌∷◌, ◌++◌, if◌then◌else◌, length, drop, All, ◌==◌, append_assoc,
}
use tiny_proxy.CString.{Bytes}

-- Writes the bytes from the start of the array on.
abbrev pub overlay : Bytes → Bytes → Bytes
overlay bs buf = bs ++ drop (length bs) buf

-- The C string at the start of the array.
unfoldable pub cstr : Bytes → Bytes
cstr [] = []
cstr (c ∷ buf) = if c == 0 then [] else c ∷ cstr buf

abbrev pub terminated : Bytes → Bytes
terminated bs = bs ++ (0 ∷ [])

pub cstr-append : (bs rest : Bytes) → All (λ c. (c == 0) ≡ false) bs → cstr (bs ++ (0 ∷ rest)) ≡ bs
unfolding cstr
cstr-append [] rest h = refl
cstr-append (c ∷ bs) rest h = rw h.0 (ap (◌∷◌ c) (cstr-append bs rest h.1))

-- A string written with its terminator is the string read back.
pub cstr-overlay :
    (bs buf : Bytes) → All (λ c. (c == 0) ≡ false) bs → cstr (overlay (terminated bs) buf) ≡ bs
cstr-overlay bs buf h =
    rw (append_assoc bs (0 ∷ []) (drop (length (terminated bs)) buf)) (cstr-append bs _ h)
