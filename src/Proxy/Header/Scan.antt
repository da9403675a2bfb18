-- ===== src/Proxy/Header/Scan.antt =====
-- A header field as it is written, and what `sscanf` reads of its line.
use tiny_proxy.Base.{
  ℕ, ◌+◌, ◌≤◌, ◌≡◌, ◌≢◌, refl, ap, ◌∙◌, Bool, true, false, not, [], ◌∷◌, ◌++◌, ◌==◌, length, All,
  arith, append_assoc,
}
use tiny_proxy.CString.{Bytes, isspace}
use tiny_proxy.Proxy.Rio.{maxline}
use tiny_proxy.Proxy.Header.{
  Header, split_while, word_or, scan_word, scan_data, scan_name, sscanf_header,
}
use tiny_proxy.Proxy.Chunked.Chunk.{IsText, crlf}

-- `token` is the first word of the value, `tail` what stands behind it.
pub record Field : Type 0 where
  pub name : Bytes
  pub token : Bytes
  pub tail : Bytes

abbrev pub field_line : Field → Bytes
field_line f = f.name ++ (b':' ∷ b' ' ∷ (f.token ++ f.tail))

abbrev pub Stops : (ℕ → Bool) → Bytes → Type 0
Stops test [] = Unit
Stops test (c ∷ _) = test c ≡ false

abbrev pub no_colon : ℕ → Bool
no_colon c = not (c == b':')

abbrev pub no_space : ℕ → Bool
no_space c = not (isspace c)

pub record IsField (f : Field) : Type 0 where
  pub name_ne_nil : f.name ≢ []
  pub name_chars : All (λ c. no_colon c ≡ true) f.name
  pub token_ne_nil : f.token ≢ []
  pub token_chars : All (λ c. no_space c ≡ true) f.token
  pub tail_stops : Stops no_space f.tail
  pub text : IsText (field_line f)
  pub short : length (field_line f) + 3 ≤ maxline

pub split_while-append :
    (test : ℕ → Bool) (a rest : Bytes)
    → All (λ c. test c ≡ true) a
    → Stops test rest
    → split_while test (a ++ rest) ≡ (a, rest)
unfolding split_while
split_while-append test [] [] h s = refl
split_while-append test [] (c ∷ rest) h s = rw s
split_while-append test (c ∷ a) rest h s = rw (h.0, split_while-append test a rest h.1 s)

Stops-append : (t : Bytes) → Stops no_space t → Stops no_space (t ++ crlf)
unfolding isspace
Stops-append [] h = refl
Stops-append (c ∷ t) h = h

not_space : (c : ℕ) → no_space c ≡ true → isspace c ≡ false
not_space c h = ground arith

Stops-token :
    (token rest : Bytes)
    → token ≢ []
    → All (λ c. no_space c ≡ true) token
    → Stops isspace (token ++ rest)
Stops-token [] rest ne h = absurd (ne refl)
Stops-token (c ∷ w) rest ne h = not_space c h.0

word_or_self : (old w : Bytes) → w ≢ [] → word_or old w ≡ w
word_or_self old [] ne = absurd (ne refl)
word_or_self old (c ∷ w) ne = refl

word_lem :
    (old token rest : Bytes)
    → token ≢ []
    → All (λ c. no_space c ≡ true) token
    → Stops no_space rest
    → scan_word old (b' ' ∷ (token ++ rest)) ≡ token
unfolding isspace
word_lem old token rest ne h s =
    let skipped : split_while isspace (b' ' ∷ (token ++ rest)) ≡ (b' ' ∷ [], token ++ rest) =
      split_while-append isspace (b' ' ∷ []) (token ++ rest) (refl, tt)
        (Stops-token token rest ne h) in
    ap (λ x. word_or old (split_while no_space x.1).0) skipped
    ∙ ap (λ x. word_or old x.0) (split_while-append no_space token rest h s)
    ∙ word_or_self old token ne

scan_name-some :
    (h : Header) (name rest : Bytes)
    → name ≢ []
    → scan_name h (name, rest)
      ≡ record { headername = name; headerdata = scan_data h.headerdata rest }
scan_name-some h [] rest ne = absurd (ne refl)
scan_name-some h (c ∷ w) rest ne = refl

-- On the line of a well-formed field, the name and the first word of the value are what the two
-- arrays hold afterwards.
pub sscanf_header-field :
    (f : Field) (h : Header)
    → IsField f
    → sscanf_header (field_line f ++ crlf) h ≡ record { headername = f.name; headerdata = f.token }
unfolding sscanf_header
sscanf_header-field f h is =
    let value : Bytes = f.token ++ (f.tail ++ crlf) in
    let whole : field_line f ++ crlf ≡ f.name ++ (b':' ∷ b' ' ∷ value) =
      append_assoc f.name (b':' ∷ b' ' ∷ (f.token ++ f.tail)) crlf
      ∙ ap (λ x. f.name ++ (b':' ∷ b' ' ∷ x)) (append_assoc f.token f.tail crlf) in
    ap (λ x. scan_name h (split_while no_colon x)) whole
    ∙ ap (scan_name h) (split_while-append no_colon f.name (b':' ∷ b' ' ∷ value) is.name_chars refl)
    ∙ scan_name-some h f.name (b':' ∷ b' ' ∷ value) is.name_ne_nil
    ∙ ap (λ x. record { headername = f.name; headerdata = x })
        (word_lem h.headerdata f.token (f.tail ++ crlf) is.token_ne_nil is.token_chars
          (Stops-append f.tail is.tail_stops))
