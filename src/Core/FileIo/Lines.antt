-- ===== src/Core/FileIo/Lines.antt =====
-- Lines written are lines read.
use mpcc.Common.{
  ◌≡◌, refl, List, [], ◌∷◌, ◌++◌, append_assoc, append-nil, Bytes, Lacks, All, arith, nat_eq_of_ne,
  nat_eq_of_eq, ℕ_discrete, All-append, sym, ap, ◌∙◌,
}
use mpcc.Core.FileIo.{getlines, unlines, newline}

getlines-append :
    (l line rest : Bytes)
    → Lacks newline l
    → getlines line (l ++ newline ∷ rest) ≡ (line ++ l) ∷ getlines [] rest
unfolding getlines
getlines-append [] line rest h = ap (λ x. x ∷ getlines [] rest) (sym (append-nil line))
getlines-append (c ∷ l) line rest (hc, hl) =
    rw (nat_eq_of_ne c newline hc, getlines)
      (getlines-append l (line ++ c ∷ []) rest hl
        ∙ ap (λ x. x ∷ getlines [] rest) (append_assoc line (c ∷ []) l))

-- Reading the text of some lines, none of which holds a newline, gives the lines.
pub getlines-unlines : (ls : List Bytes) → All (Lacks newline) ls → getlines [] (unlines ls) ≡ ls
unfolding unlines
getlines-unlines [] h = unfold getlines in refl
getlines-unlines (l ∷ ls) (hl, hls) =
    getlines-append l [] (unlines ls) hl ∙ ap (◌∷◌ l) (getlines-unlines ls hls)

-- No line that was read holds a newline.
pub getlines-Lacks : (s line : Bytes) → Lacks newline line → All (Lacks newline) (getlines line s)
unfolding getlines
getlines-Lacks [] line h = ground arith
getlines-Lacks (c ∷ s) line h = elim (ℕ_discrete c newline) [
  | yes e ↦ rw (nat_eq_of_eq c newline e, getlines) (h, getlines-Lacks s [] tt)
  | no ne ↦
      rw (nat_eq_of_ne c newline ne, getlines)
        (getlines-Lacks s (line ++ c ∷ []) (All-append _ line (c ∷ []) h (ne, tt)))
]
