-- ===== src/Core/Message/RoundTrip.antt =====
-- Which messages survive serialise() and parse().
use mathlib.Core.List.{reverse, reverse-append, reverse-reverse}
use mpcc.Common.{
  ℕ, ◌≤◌, ◌≡◌, refl, sym, ap, subst, ◌∙◌, ◌↔◌, ◌≢◌, ◌⊎◌, inl, inr, true, false, not, arith, [], ◌∷◌,
  ◌++◌, Bytes, Lacks, append_assoc, append-nil, length, length-append, length-reverse, is_empty,
  if◌then◌else◌, find-cases, find-append, find-none, before, after, before-append, after-append,
  Bool-cases,
}
use mpcc.Core.Message.{
  Message, serialise, parse, strip, pop_eols, is_eol, parse_line, colon, newline,
}

-- The frame of a message without its newline.
unfoldable pub body : Message → Bytes
body m = m.type ++ (if not (is_empty m.payload) then colon ∷ m.payload else [])

-- The last byte of a text, if it has one, is no line ending.
abbrev pub EndsClean : Bytes → Type 0
EndsClean s = (r : Bytes) (c : ℕ) → s ≡ r ++ c ∷ [] → is_eol c ≡ false

-- A line ending behind a text is dropped first.
strip-append_eol : (s : Bytes) (c : ℕ) → is_eol c ≡ true → strip (s ++ c ∷ []) ≡ strip s
unfolding strip pop_eols
strip-append_eol s c h = rw (reverse-append s (c ∷ []), h)

length-pop_eols-le : (s : Bytes) → length (pop_eols s) ≤ length s
unfolding pop_eols
length-pop_eols-le [] = omega arith
length-pop_eols-le (c ∷ s) = ground (arith, length-pop_eols-le s)

length-strip-le : (s : Bytes) → length (strip s) ≤ length s
unfolding strip
length-strip-le s =
    omega (
      arith,
      length-reverse (pop_eols (reverse s)),
      length-reverse s,
      length-pop_eols-le (reverse s),
    )

pop_eols_of_EndsClean : (t : Bytes) → EndsClean (reverse t) → pop_eols t ≡ t
unfolding pop_eols
pop_eols_of_EndsClean [] h = refl
pop_eols_of_EndsClean (c ∷ t) h = rw (h (reverse t) c (reverse-append (c ∷ []) t))

-- A text that ends clean is left alone, and only such a text.
pub strip-eq_self : (s : Bytes) → (strip s ≡ s) ↔ EndsClean s
unfolding strip
strip-eq_self s = (to_clean, from_clean)
  where
    to_clean : reverse (pop_eols (reverse s)) ≡ s → EndsClean s
    to_clean h r c e = elim (Bool-cases (is_eol c)) [
      | inl eol ↦ absurd (
          omega (
            arith,
            ap length (ap strip e ∙ strip-append_eol r c eol),
            ap length h,
            length-strip-le r,
            ap length e,
            length-append r (c ∷ []),
          ))
      | inr clean ↦ clean
    ]

    from_clean : EndsClean s → reverse (pop_eols (reverse s)) ≡ s
    from_clean h = rw (pop_eols_of_EndsClean (reverse s) (rw reverse-reverse h)) (reverse-reverse s)

pop_eols-pop_eols : (s : Bytes) → pop_eols (pop_eols s) ≡ pop_eols s
unfolding pop_eols
pop_eols-pop_eols [] = refl
pop_eols-pop_eols (c ∷ s) = elim (Bool-cases (is_eol c)) [
  | inl eol ↦ rw eol (pop_eols-pop_eols s)
  | inr other ↦ rw (other, other)
]

strip-strip : (s : Bytes) → strip (strip s) ≡ strip s
unfolding strip
strip-strip s = rw reverse-reverse (ap reverse (pop_eols-pop_eols (reverse s)))

pub serialise-body : (m : Message) → serialise m ≡ body m ++ newline ∷ []
unfolding serialise body
serialise-body m = sym (append_assoc m.type _ (newline ∷ []))

pub parse-serialise-strip : (m : Message) → parse (serialise m) ≡ parse_line (strip (body m))
unfolding parse is_eol
parse-serialise-strip m =
    rw (serialise-body m) (ap parse_line (strip-append_eol (body m) newline refl))

parse_line-body :
    (a p : Bytes)
    → Lacks colon a
    → parse_line (body (record { type = a; payload = p })) ≡ record { type = a; payload = p }
unfolding parse_line body
parse_line-body a [] lacks = ap parse_line (append-nil a) ∙ rw (find-none a colon lacks, parse_line)
parse_line-body a (c ∷ p) lacks = rw (
  find-append a (c ∷ p) colon lacks,
  parse_line,
  before-append a colon (c ∷ p),
  after-append a colon (c ∷ p),
)

-- A text that holds a colon is the frame of its two parts, or that frame and a colon.
rejoin :
    (t a b : Bytes)
    → t ≡ a ++ colon ∷ b
    → let f = body (record { type = a; payload = b }) in
      (t ≡ f) ⊎ ((b ≡ []) × (t ≡ f ++ colon ∷ []))
unfolding body
rejoin t a [] e = inr (refl, rw (append-nil a) e)
rejoin t a (c ∷ b) e = inl e

-- What a parsed line has for its type, and how it is put together again.
parse_line-cases :
    (t : Bytes)
    → Lacks colon (parse_line t).type
      × ((t ≡ body (parse_line t))
          ⊎ (((parse_line t).payload ≡ []) × (t ≡ body (parse_line t) ++ colon ∷ [])))
unfolding parse_line
parse_line-cases t = elim (find-cases t colon) [
  | inl (e, lacks) ↦ rw (e, parse_line) (lacks, inl (unfold body in sym (append-nil t)))
  | inr (i, e, lacks, cut) ↦ rw (e, parse_line) (lacks, rejoin t (before t i) (after t i) cut)
]

-- Stripping adds no colon.
no_gain :
    (m : Message)
    → (strip (body m) ≡ body m) ⊎ ((m.payload ≡ []) × (strip (body m) ≡ body m ++ colon ∷ []))
    → strip (body m) ≡ body m
no_gain m (inl e) = e
no_gain m (inr (_, e)) =
    absurd
      (omega (arith, ap length e, length-append (body m) (colon ∷ []), length-strip-le (body m)))

-- A message comes back from its own wire form exactly when its type holds no colon and its frame
-- does not end in a line ending.
pub parse-serialise :
    (m : Message) → (parse (serialise m) ≡ m) ↔ (Lacks colon m.type × EndsClean (body m))
parse-serialise m = (needed, enough)
  where
    needed : parse (serialise m) ≡ m → Lacks colon m.type × EndsClean (body m)
    needed h =
        let t = strip (body m) in
        let e : parse_line t ≡ m = sym (parse-serialise-strip m) ∙ h in
        let (lacks, joined) = parse_line-cases t in
        (
          subst (λ (x : Message). Lacks colon x.type) e lacks,
          (strip-eq_self (body m)).0 (
              no_gain m (
                subst
                  (λ (x : Message). (t ≡ body x) ⊎ ((x.payload ≡ []) × (t ≡ body x ++ colon ∷ [])))
                  e joined)),
        )

    enough : Lacks colon m.type × EndsClean (body m) → parse (serialise m) ≡ m
    enough (lacks, clean) =
        parse-serialise-strip m
        ∙ ap parse_line ((strip-eq_self (body m)).1 clean)
        ∙ parse_line-body m.type m.payload lacks

-- Whatever text is parsed, if the message has a payload, then printing the message and parsing that
-- gives the same message again.
pub parse-serialise-parse :
    (raw : Bytes) → (parse raw).payload ≢ [] → parse (serialise (parse raw)) ≡ parse raw
parse-serialise-parse raw h = (parse-serialise (parse raw)).1 (unfold parse in (cut.0, clean cut.1))
  where
    cut :
        Lacks colon (parse_line (strip raw)).type
        × ((strip raw ≡ body (parse_line (strip raw)))
            ⊎ (((parse_line (strip raw)).payload ≡ [])
                × (strip raw ≡ body (parse_line (strip raw)) ++ colon ∷ [])))
    cut = parse_line-cases (strip raw)

    clean :
        (strip raw ≡ body (parse_line (strip raw)))
          ⊎ (((parse_line (strip raw)).payload ≡ [])
              × (strip raw ≡ body (parse_line (strip raw)) ++ colon ∷ []))
        → EndsClean (body (parse_line (strip raw)))
    clean (inl e) = subst EndsClean e ((strip-eq_self (strip raw)).0 (strip-strip raw))
    clean (inr (e, _)) = absurd (unfold parse in h e)
