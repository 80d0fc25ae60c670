-- ===== src/Vault/Export/Directory.antt =====
-- `export` of vault.py, file by file: what it writes, removes and leaves alone.
use pipe_os.Prelude.{
  ◌≡◌, refl, sym, ap, Bool, true, false, not, ◌&&◌, inl, inr, Bool-cases, All, Option, Option-cases,
  none, some, List, [], ◌∷◌, if◌then◌else◌, Text, text_eq, text_eq_iff, codes, arith,
}
use pipe_os.Prelude.Fallible.{ok, bind-eq-ok, ok-injective}
use pipe_os.Prelude.Dict.{Dict, get, set, del, has, get-set, get-del, has-set}
use pipe_os.Prelude.Ascii.{text_in}
use pipe_os.Vault.{Secrets, Env, Ident, Outcome, Tools, Works}
use pipe_os.Vault.Refinement.{Holds, load-Holds}
use pipe_os.Vault.Export.{Content, export_one, files_of, write_files, remove_files, known, export}
use pipe_os.Vault.Export.Written.{Sets, raises, sets, export_one-Sets, passdb, files_of-no_passdb}

-- Each file stands once.
abbrev Once : Dict Content → Type 0
Once [] = Unit
Once ((fname, c) ∷ files) = (has fname files ≡ false) × Once files

set-Once :
    (fname : Text) (c : Content) (files : Dict Content) → Once files → Once (set fname c files)
unfolding set has get
set-Once fname c [] h = (refl, tt)
set-Once fname c ((f, b) ∷ files) h = elim (Bool-cases (text_eq f fname)) [
  | inl same ↦ rw same (rw (← (text_eq_iff f fname).0 same) h.0, h.1)
  | inr differ ↦ rw differ (
    ground (arith, has-set f fname c files, h.0, differ, text_eq_iff fname f, text_eq_iff f fname),
    set-Once fname c files h.1,
  )
]

-- The file of a name after the writes: what is written wins.
unfoldable pub written : Option Content → Option Content → Option Content
written none old = old
written (some c) old = some c

get-write_files :
    (fname : Text) (files dir : Dict Content)
    → Once files
    → get fname (write_files files dir) ≡ written (get fname files) (get fname dir)
unfolding write_files written get has
get-write_files fname [] dir h = refl
get-write_files fname ((f, c) ∷ files) dir h = ground (
  arith,
  get-write_files fname files (set f c dir) h.1,
  get-set fname f c dir,
  h.0,
  text_eq_iff f fname,
  by_name,
)
  where
    by_name : text_eq f fname ≡ true → has fname files ≡ false
    by_name e = rw (← (text_eq_iff f fname).0 e) h.0

get-remove_files :
    (fname : Text) (names : List Text) (files dir : Dict Content)
    → get fname (remove_files names files dir)
      ≡ (if text_in fname names && not (has fname files) then none else get fname dir)
unfolding remove_files text_in
get-remove_files fname [] files dir = refl
get-remove_files fname (f ∷ names) files dir = ground (
  arith,
  get-remove_files fname names files (if has f files then dir else del f dir),
  get-del fname f dir,
  text_eq_iff f fname,
  same_has,
)
  where
    same_has : text_eq f fname ≡ true → has f files ≡ has fname files
    same_has e = rw ((text_eq_iff f fname).0 e) refl

module _ (t : Tools) where
  files_of-Once :
      (d : Secrets) (files files' : Dict Content)
      → Once files
      → files_of t d files ≡ ok files'
      → Once files'
  unfolding files_of
  files_of-Once [] files files' h e = rw (← ok-injective e) h
  files_of-Once ((name, s) ∷ d) files files' h e =
      let (next, e1, e2) = bind-eq-ok (export_one t name s files) (files_of t d) e in
      files_of-Once d next files' (round _ e1 (export_one-Sets t name s files)) e2
    where
      round :
          {next : Dict Content} (m : Outcome (Dict Content))
          → m ≡ ok next
          → Sets name s files m
          → Once next
      round m q (raises x) = absurd (ground (arith, q))
      round m q (sets fname c only) = rw (← ok-injective q) (set-Once fname c files h)

removed_or_written :
    (fname : Text) (files : Dict Content) (b : Bool) (old : Option Content)
    → (if b && not (has fname files) then none else written (get fname files) old)
      ≡ written (get fname files) (if b then none else old)
unfolding has written
removed_or_written fname files b old = elim (Option-cases (get fname files)) [
  | inl nothing ↦ rw nothing (ground arith)
  | inr (c, found) ↦ rw found (ground arith)
]

nothing_yet : has {A = Content} passdb [] ≡ false
unfolding has get
nothing_yet = refl

known-passdb : text_in passdb known ≡ true
unfolding text_in
known-passdb = refl

module _ (t : Tools) (w : Works t) where
  -- An `export` that returns: the files that the secrets make, and the directory that follows.
  record Exported (d : Secrets) (dir dir' : Dict Content) : Type 0 where
    files : Dict Content
    made : files_of t d [] ≡ ok files
    once : Once files
    left : dir' ≡ remove_files known files (write_files files dir)

  export-Exported :
      {i : Ident} {digits : Text} {d : Secrets} {file : Option Env} {names : List Text}
      (dir dir' : Dict Content)
      → Holds t w i digits d file
      → export t i file dir ≡ ok (names, dir')
      → Exported d dir dir'
  unfolding export
  export-Exported {i} {d} {file} dir dir' h e =
      let (files, e1, e2) = bind-eq-ok (files_of t d []) _ (rw (load-Holds t w h, export) at e) in
      record {
        files = files;
        made = e1;
        once = files_of-Once t d [] files tt e1;
        left = sym (ap (λ p. p.1) (ok-injective e2));
      }

  -- After an `export` that returns, a file of the directory has what the secrets make of it; where
  -- they make none, it is gone if it is one of the six that services read, and else as it was.
  pub export-get :
      {i : Ident} {digits : Text} {d : Secrets} {file : Option Env} {names : List Text}
      (dir dir' : Dict Content)
      → Holds t w i digits d file
      → export t i file dir ≡ ok (names, dir')
      → (files : Dict Content) × (files_of t d [] ≡ ok files)
        × ((fname : Text)
            → get fname dir'
              ≡ written (get fname files) (if text_in fname known then none else get fname dir))
  export-get dir dir' h e =
      let x = export-Exported dir dir' h e in
      (
        x.files,
        x.made,
        λ fname.
            rw
              (
                x.left,
                get-remove_files fname known x.files (write_files x.files dir),
                get-write_files fname x.files dir x.once,
              )
              (removed_or_written fname x.files (text_in fname known) (get fname dir)),
      )

  -- The database of the SMB users is sealed as bytes, and `export` writes no file nas/passdb.tdb from
  -- bytes and removes the one that is there.
  pub export-no_passdb :
      {i : Ident} {digits : Text} {d : Secrets} {file : Option Env} {names : List Text}
      (dir dir' : Dict Content)
      → Holds t w i digits d file
      → All (λ e. text_eq e.0 (codes "nas_passdb") ≡ true → e.1.raw ≡ true) d
      → export t i file dir ≡ ok (names, dir')
      → get passdb dir' ≡ none
  export-no_passdb {d} dir dir' h raw e =
      let x = export-Exported dir dir' h e in
      let no = files_of-no_passdb t d [] x.files raw nothing_yet x.made in
      rw (x.left, get-remove_files passdb known x.files (write_files x.files dir), no, known-passdb)
        refl
