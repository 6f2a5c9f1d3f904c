-- ===== src/Core/FileIo/Atomic.antt =====
-- What atomic_write_lines leaves on the disk.
use mpcc.Common.{
  ℕ, zero, suc, ◌≤◌, ◌≡◌, refl, sym, ap, ◌∙◌, ◌≢◌, Bool, true, false, some, List, [], ◌∷◌, ◌++◌,
  subst, Bytes, codes, ◌==◌, ==_iff, eq_refl, nat_eq, arith, take, length, length-append, is_empty,
  Bool-cases, inl, inr,
}
use mpcc.Core.FileIo.{
  Os, Disk, WriteResult, unopened, bad, good, put_file, mkdir_one, make_dirs, make_dirs_at,
  ensure_dir_recursive, ensure_parent_dir, rename_file, finish_write, tmp_path, unlines,
  atomic_write_lines, slash, parent_dir,
}

-- Every stream that is good after the writes has its whole text on the disk when it is destroyed.
abbrev pub Flushes : Os → Type 0
Flushes os =
    (t : ℕ) (path content : Bytes) (n : ℕ) → os.write t path content ≡ good n → length content ≤ n

mkdir_one-file : (os : Os) (dir : Bytes) (d : Disk) → (mkdir_one os dir d).1.file ≡ d.file
unfolding mkdir_one
mkdir_one-file os [] d = refl
mkdir_one-file os (c ∷ dir) d = refl

make_dirs-file : (os : Os) (cur rest : Bytes) (d : Disk) → (make_dirs os cur rest d).1.file ≡ d.file
unfolding make_dirs
make_dirs-file os cur [] d = mkdir_one-file os cur d
make_dirs-file os cur (ch ∷ rest) d = elim (Bool-cases (nat_eq ch slash)) [
  | inr e ↦ rw e (make_dirs-file os (cur ++ ch ∷ []) rest d)
  | inl e ↦
      let (done, d') = mkdir_one os cur d in
      elim (Bool-cases done) [
        | inl y ↦ rw (e, y) (make_dirs-file os (cur ++ ch ∷ []) rest d' ∙ mkdir_one-file os cur d)
        | inr n ↦ rw (e, n) (mkdir_one-file os cur d)
      ]
]

ensure_dir_recursive-file :
    (os : Os) (dir : Bytes) (d : Disk) → (ensure_dir_recursive os dir d).1.file ≡ d.file
unfolding ensure_dir_recursive make_dirs_at
ensure_dir_recursive-file os dir d = elim (Bool-cases (dir == codes "/")) [
  | inl e ↦ rw e refl
  | inr e ↦ rw e (at dir)
]
  where
    at : (dir : Bytes) → (make_dirs_at os dir d).1.file ≡ d.file
    at [] = refl
    at (ch ∷ rest) = elim (Bool-cases (nat_eq ch slash)) [
      | inl e ↦ rw e (make_dirs-file os (codes "/") rest d)
      | inr e ↦ rw e (make_dirs-file os (ch ∷ []) rest d)
    ]

-- Making directories changes no file.
pub ensure_parent_dir-file :
    (os : Os) (path : Bytes) (d : Disk) → (ensure_parent_dir os path d).1.file ≡ d.file
unfolding ensure_parent_dir
ensure_parent_dir-file os path d = elim (Bool-cases (is_empty (parent_dir path))) [
  | inl e ↦ rw e refl
  | inr e ↦ rw e (ensure_dir_recursive-file os (parent_dir path) d)
]

pub tmp_path_apart : (path : Bytes) → (tmp_path path == path) ≡ false
unfolding tmp_path
tmp_path_apart path = elim (Bool-cases (path ++ codes ".tmp" == path)) [
  | inr e ↦ e
  | inl e ↦ absurd (
      omega (
        arith,
        length-append path (codes ".tmp"),
        ap length ((==_iff (path ++ codes ".tmp") path).0 e),
      ))
]

take_all : (n : ℕ) (s : Bytes) → length s ≤ n → take n s ≡ s
take_all zero [] h = refl
take_all zero (c ∷ s) h = absurd (omega arith)
take_all (suc n) [] h = refl
take_all (suc n) (c ∷ s) h = ap (◌∷◌ c) (take_all n s (omega arith))

-- The file at `path` after writing `content`: all of it, or what was there.
abbrev pub Replaced : Bytes → Bytes → Disk → Disk → Bool → Type 0
Replaced path content d d' true = d'.file path ≡ some content
Replaced path content d d' false = d'.file path ≡ d.file path

-- What a file operation with the path and its temporary file promises.
abbrev pub Post : Bytes → Bytes → Disk → Bool → Disk → Type 0
Post path content d ok d' =
    Replaced path content d d' ok
    × ((q : Bytes) → q ≢ path → q ≢ tmp_path path → d'.file q ≡ d.file q)

not_same : (a b : Bytes) → a ≢ b → (a == b) ≡ false
not_same a b ne = elim (Bool-cases (a == b)) [ inr e ↦ e | inl e ↦ absurd (ne ((==_iff a b).0 e)) ]

module _ (os : Os) (path content : Bytes) (d : Disk) where
  keeps_tmp :
      (text : Bytes) (q : Bytes)
      → q ≢ tmp_path path
      → (put_file (tmp_path path) (some text) d).file q ≡ d.file q
  keeps_tmp text q ne = rw (not_same (tmp_path path) q (λ e. ne (sym e))) refl

  finish_write-Post :
      (r : WriteResult)
      → ((n : ℕ) → r ≡ good n → length content ≤ n)
      → (let (ok, d') = finish_write os path (tmp_path path) content r d in
          Post path content d ok d')
  unfolding finish_write rename_file
  finish_write-Post unopened flushed = (refl, λ q _ _. refl)
  finish_write-Post (bad n) flushed =
      (keeps_tmp _ path (λ e. apart (sym e)), λ q _ ne. keeps_tmp _ q ne)
    where
      apart : tmp_path path ≢ path
      apart e = cc (tmp_path_apart path, (==_iff (tmp_path path) path).1 e)
  finish_write-Post (good n) flushed =
      elim (Bool-cases (os.rename (suc d.now) (tmp_path path) path)) [
        | inr e ↦ rw e (keeps_tmp _ path (λ e. apart (sym e)), λ q _ ne. keeps_tmp _ q ne)
        | inl e ↦
            rw
              (
                e,
                tmp_path_apart path,
                eq_refl path,
                eq_refl (tmp_path path),
                take_all n content (flushed n refl),
              )
              (
                refl,
                λ q ne ne'.
                    rw
                      (
                        not_same (tmp_path path) q (λ e. ne' (sym e)),
                        not_same path q (λ e. ne (sym e)),
                      )
                      refl,
              )
      ]
    where
      apart : tmp_path path ≢ path
      apart e = cc (tmp_path_apart path, (==_iff (tmp_path path) path).1 e)

-- atomic_write_lines() is atomic, if no stream loses what it has buffered: it returns true exactly
-- if the file now holds the lines, each with a newline; else the file is what it was before, present
-- or missing. No other file than it and its temporary file is touched.
pub atomic_write_lines_lem :
    (os : Os) (path : Bytes) (lines : List Bytes) (d : Disk)
    → Flushes os
    → (ok : Bool) × (d' : Disk) × (atomic_write_lines os path lines d ≡ (ok, d'))
      × Post path (unlines lines) d ok d'
unfolding atomic_write_lines
atomic_write_lines_lem os path lines d flushes =
    let (ready, d₁) = ensure_parent_dir os path d in
    let same = ensure_parent_dir-file os path d in
    elim (Bool-cases ready) [
      | inr e ↦ (false, d₁, rw e refl, (ap (λ f. f path) same, λ q _ _. ap (λ f. f q) same))
      | inl e ↦
          let content = unlines lines in
          let r = os.write d₁.now (tmp_path path) content in
          let (ok, d₂) = finish_write os path (tmp_path path) content r d₁ in
          (
            ok,
            d₂,
            rw e refl,
            subst (λ f. Post path content (record d { file = f }) ok d₂) same
                (finish_write-Post os path content d₁ r
                  (λ n w. flushes d₁.now (tmp_path path) content n w)),
          )
    ]
