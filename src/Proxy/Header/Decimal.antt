-- ===== src/Proxy/Header/Decimal.antt =====
-- Numbers in a header: `atoi` on digits.
use tiny_proxy.Base.{
  ℕ, ◌^◌, ◌<◌, ◌≡◌, ◌≢◌, refl, sym, ap, ◌∙◌, false, true, some, [], ◌∷◌, ◌==◌, All, arith, lt→ltb,
  append-nil,
}
use tiny_proxy.Base.Int.{pos}
use tiny_proxy.CString.{Bytes, isdigit, isspace}
use tiny_proxy.Proxy.Header.{split_while, decimal, to_int, to_int_signed, atoi}
use tiny_proxy.Proxy.Header.Scan.{Stops, split_while-append}

digit_cases :
    (c : ℕ) → isdigit c ≡ true → (isspace c ≡ false) × ((c == b'-') ≡ false) × ((c == b'+') ≡ false)
unfolding isdigit isspace
digit_cases c h = ground arith

Stops-digits : (ds : Bytes) → All (λ c. isdigit c ≡ true) ds → Stops isspace ds
Stops-digits [] h = tt
Stops-digits (c ∷ ds) h = (digit_cases c h.0).0

split_while_digits :
    (ds : Bytes) → All (λ c. isdigit c ≡ true) ds → split_while isdigit ds ≡ (ds, [])
split_while_digits ds h =
    ap (split_while isdigit) (sym (append-nil ds)) ∙ split_while-append isdigit ds [] h tt

-- `atoi` on digits.
pub atoi-decimal :
    (ds : Bytes)
    → ds ≢ []
    → All (λ c. isdigit c ≡ true) ds
    → decimal 0 ds < 2 ^ 31
    → atoi ds ≡ some (pos (decimal 0 ds))
unfolding atoi
atoi-decimal [] ne h small = absurd (ne refl)
atoi-decimal (c ∷ ds) ne h small =
    let (blank, minus, plus) = digit_cases c h.0 in
    ap (λ x. to_int_signed x.1) (split_while-append isspace [] (c ∷ ds) tt blank)
    ∙ rw (minus, plus)
        (ap (λ x. to_int false x.0) (split_while_digits (c ∷ ds) h)
          ∙ rw (lt→ltb (decimal 0 (c ∷ ds)) (2 ^ 31) small) refl)
