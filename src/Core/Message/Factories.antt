-- ===== src/Core/Message/Factories.antt =====
-- The frames that the convenience factories of message.cpp build.
use mathlib.Core.List.{reverse, reverse-append}
use mpcc.Common.{
  ℕ, ◌≡◌, refl, sym, ap, subst, ◌∙◌, ◌≢◌, [], ◌∷◌, ◌++◌, append_assoc, Bytes, Lacks, codes, arith,
  find,
}
use mpcc.Core.Message.{
  Message, serialise, parse, is_eol, colon, make_reg, make_login, make_msg, make_ok, make_err,
  make_bcast, make_exit, make_menu,
}
use mpcc.Core.Message.RoundTrip.{EndsClean, body, parse-serialise}

snoc_view : (s : Bytes) → s ≢ [] → (r : Bytes) × (c : ℕ) × (s ≡ r ++ c ∷ [])
snoc_view [] h = absurd (h refl)
snoc_view (x ∷ []) h = ([], x, refl)
snoc_view (x ∷ y ∷ s) h = let (r, c, e) = snoc_view (y ∷ s) (λ e. cc) in (x ∷ r, c, ap (◌∷◌ x) e)

snoc_injective : (r t : Bytes) (c d : ℕ) → r ++ c ∷ [] ≡ t ++ d ∷ [] → c ≡ d
snoc_injective r t c d e =
    cc (sym (reverse-append r (c ∷ [])) ∙ ap reverse e ∙ reverse-append t (d ∷ []))

-- What stands in front of a text that is not empty has no say in how it ends.
pub EndsClean-append : (a s : Bytes) → s ≢ [] → EndsClean s → EndsClean (a ++ s)
EndsClean-append a s h clean r c e =
    let (t, d, cut) = snoc_view s h in
    let same =
      snoc_injective (a ++ t) r d c (append_assoc a t (d ∷ []) ∙ ap (◌++◌ a) (sym cut) ∙ e) in
    ap is_eol (sym same) ∙ clean t d cut

pub body_with_payload :
    (tag p : Bytes) → p ≢ [] → body (record { type = tag; payload = p }) ≡ tag ++ colon ∷ p
unfolding body
body_with_payload tag [] h = absurd (h refl)
body_with_payload tag (c ∷ p) h = refl

pub append-ne-nil : (a s : Bytes) → s ≢ [] → a ++ s ≢ []
append-ne-nil [] s h e = h e
append-ne-nil (x ∷ a) s h e = cc

-- A message that is read back as it was written.
abbrev Arrives : Message → Type 0
Arrives m = parse (serialise m) ≡ m

-- The frame tag:payload and a newline, which is read back.
abbrev pub Frame : Message → Bytes → Bytes → Type 0
Frame m tag payload =
    (serialise m ≡ tag ++ (codes ":" ++ (payload ++ codes "\n")))
    × (parse (serialise m) ≡ record { type = tag; payload = payload })

framed :
    (tag payload : Bytes)
    → payload ≢ []
    → serialise (record { type = tag; payload = payload })
      ≡ tag ++ (codes ":" ++ (payload ++ codes "\n"))
unfolding serialise
framed tag [] h = absurd (h refl)
framed tag (c ∷ payload) h = refl

module _ (text : Bytes) (some_text : text ≢ []) (clean : EndsClean text) where
  tagged :
      (tag front : Bytes)
      → Lacks colon tag
      → Arrives (record { type = tag; payload = front ++ text })
  tagged tag front lacks = (parse-serialise _).1 (
    lacks,
    subst EndsClean
        (append_assoc tag (colon ∷ front) text
          ∙ sym (body_with_payload tag (front ++ text) (append-ne-nil front text some_text)))
        (EndsClean-append (tag ++ colon ∷ front) text some_text clean),
  )

  behind :
      (tag front link : Bytes)
      → Lacks colon tag
      → Arrives (record { type = tag; payload = front ++ (link ++ text) })
  behind tag front link lacks =
      subst (λ p. Arrives (record { type = tag; payload = p })) (append_assoc front link text)
        (tagged tag (front ++ link) lacks)

  -- A text that is not empty and does not end in a line ending goes out in the frame that the protocol
  -- has for it, and arrives with its tag and its payload: as MSG:text, OK:text and ERR:text, behind any
  -- user name as REG:name:text and LOGIN:name:text, and behind any sender as BCAST:[sender]: text,
  -- whatever colons they hold. So do EXIT, which has no payload, and MENU, whose text is fixed.
  pub factories_arrive :
      (who : Bytes)
      → Frame (make_msg text) (codes "MSG") text
        × Frame (make_ok text) (codes "OK") text
        × Frame (make_err text) (codes "ERR") text
        × Frame (make_reg who text) (codes "REG") (who ++ (codes ":" ++ text))
        × Frame (make_login who text) (codes "LOGIN") (who ++ (codes ":" ++ text))
        × Frame (make_bcast who text) (codes "BCAST") (codes "[" ++ (who ++ (codes "]: " ++ text)))
        × (serialise make_exit ≡ codes "EXIT\n")
        × (parse (codes "EXIT\n") ≡ record { type = codes "EXIT"; payload = [] })
        × Frame make_menu (codes "MENU") (codes "1=Register 2=Login")
  unfolding make_msg make_ok make_err make_reg make_login make_bcast make_exit make_menu serialise
      parse find
  factories_arrive who = (
    (framed (codes "MSG") text some_text, tagged (codes "MSG") [] (omega arith)),
    (framed (codes "OK") text some_text, tagged (codes "OK") [] (omega arith)),
    (framed (codes "ERR") text some_text, tagged (codes "ERR") [] (omega arith)),
    (
      framed (codes "REG") _ (append-ne-nil who (colon ∷ text) (λ e. cc)),
      behind (codes "REG") who (colon ∷ []) (omega arith),
    ),
    (
      framed (codes "LOGIN") _ (append-ne-nil who (colon ∷ text) (λ e. cc)),
      behind (codes "LOGIN") who (colon ∷ []) (omega arith),
    ),
    (
      framed (codes "BCAST") (b'[' ∷ (who ++ (codes "]: " ++ text))) (λ e. cc),
      behind (codes "BCAST") (b'[' ∷ who) (codes "]: ") (omega arith),
    ),
    refl,
    refl,
    (refl, refl),
  )
