-- ===== src/Server/UserRegistry/Records.antt =====
-- The user file: what is read from it, and that what was read is written back as it was.
use mpcc.Common.{
  ℕ, zero, suc, ◌≡◌, refl, ap, ◌∙◌, Bool, true, false, Option, none, some, List, [], ◌∷◌, ◌++◌, inl,
  inr, Bytes, Lacks, All, All-append, is_empty, find, before, after, find-cases, find-append,
  before-append, after-append, arith, if◌then◌else◌, ◌==◌, Bool-cases,
}
use mpcc.Core.FileIo.{Os, Disk, getlines, unlines, lines_of, read_all_lines, newline}
use mpcc.Core.FileIo.Lines.{getlines-unlines, getlines-Lacks}
use mpcc.Server.UserRegistry.{Entry, colon, cut_line, parse_lines, load_records, render, find_entry}

-- A record that a line of the file can hold.
pub record EntryValid (r : Entry) : Type 0 where
  pub name_colon : Lacks colon r.name
  pub name_line : Lacks newline r.name
  pub value_line : Lacks newline r.value

All-before : (P : ℕ → Type 0) (s : Bytes) (i : ℕ) → All P s → All P (before s i)
All-before P [] zero h = tt
All-before P [] (suc i) h = tt
All-before P (x ∷ s) zero h = tt
All-before P (x ∷ s) (suc i) (hx, hs) = (hx, All-before P s i hs)

All-after : (P : ℕ → Type 0) (s : Bytes) (i : ℕ) → All P s → All P (after s i)
All-after P [] zero h = tt
All-after P [] (suc i) h = tt
All-after P (x ∷ s) zero (hx, hs) = hs
All-after P (x ∷ s) (suc i) (hx, hs) = All-after P s i hs

cut_line-All :
    (line : Bytes) (rest : List Entry)
    → Lacks newline line
    → All EntryValid rest
    → All EntryValid (cut_line line (find line colon) rest)
unfolding cut_line
cut_line-All line rest h hr = elim (find-cases line colon) [
  | inl (e, _) ↦ rw e hr
  | inr (i, e, lacks, _) ↦ rw e (
    record {
      name_colon = lacks;
      name_line = All-before _ line i h;
      value_line = All-after _ line i h;
    },
    hr,
  )
]

parse_lines-All : (ls : List Bytes) → All (Lacks newline) ls → All EntryValid (parse_lines ls)
unfolding parse_lines
parse_lines-All [] h = tt
parse_lines-All (l ∷ ls) (hl, hls) = elim (Bool-cases (is_empty l)) [
  | inl e ↦ rw e (parse_lines-All ls hls)
  | inr e ↦ rw e (cut_line-All l (parse_lines ls) hl (parse_lines-All ls hls))
]

lines_of-Lacks : (o : Option Bytes) (opened : Bool) → All (Lacks newline) (lines_of o opened)
unfolding lines_of
lines_of-Lacks none opened = tt
lines_of-Lacks (some content) false = tt
lines_of-Lacks (some content) true = getlines-Lacks content [] tt

-- Whatever the file holds, the records read from it are such that a line can hold them.
pub load_records-EntryValid :
    (os : Os) (path : Bytes) (d : Disk) → All EntryValid (load_records os path d)
unfolding load_records read_all_lines
load_records-EntryValid os path d =
    parse_lines-All _ (lines_of-Lacks (d.file path) (os.can_open d.now path))

render-Lacks : (rs : List Entry) → All EntryValid rs → All (Lacks newline) (render rs)
unfolding render
render-Lacks [] h = tt
render-Lacks (r ∷ rs) (v, h) = (
  All-append _ r.name (colon ∷ r.value) v.name_line (omega arith, v.value_line),
  render-Lacks rs h,
)

parse_lines-render : (rs : List Entry) → All EntryValid rs → parse_lines (render rs) ≡ rs
unfolding parse_lines render cut_line
parse_lines-render [] h = refl
parse_lines-render (r ∷ rs) (v, h) =
    rw
      (
        is_empty-append r.name r.value,
        find-append r.name r.value colon v.name_colon,
        before-append r.name colon r.value,
        after-append r.name colon r.value,
      )
      (ap (◌∷◌ r) (parse_lines-render rs h))
  where
    is_empty-append : (a b : Bytes) → is_empty (a ++ colon ∷ b) ≡ false
    is_empty-append [] b = refl
    is_empty-append (x ∷ a) b = refl

-- For records whose names have no colon, and whose names and values have no newline, splitting the
-- text that is written for them into lines and parsing these gives the same records in order.
pub parse_lines-getlines-unlines :
    (rs : List Entry) → All EntryValid rs → parse_lines (getlines [] (unlines (render rs))) ≡ rs
parse_lines-getlines-unlines rs h =
    ap parse_lines (getlines-unlines (render rs) (render-Lacks rs h)) ∙ parse_lines-render rs h

abbrev pub or_else : Option Bytes → Option Bytes → Option Bytes
or_else none o = o
or_else (some v) o = some v

-- A record at the end is found under its name if no other has it, and hides nothing else.
pub find_entry-snoc :
    (rs : List Entry) (name value n : Bytes)
    → find_entry n (rs ++ record { name = name; value = value } ∷ [])
      ≡ or_else (find_entry n rs) (if name == n then some value else none)
unfolding find_entry
find_entry-snoc [] name value n = refl
find_entry-snoc (r ∷ rs) name value n = elim (Bool-cases (r.name == n)) [
  | inl e ↦ rw e refl
  | inr e ↦ rw e (find_entry-snoc rs name value n)
]
