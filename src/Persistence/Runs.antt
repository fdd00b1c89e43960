-- ===== src/Persistence/Runs.antt =====
-- What a run of writes leaves at a path.
use easyblockchain.Prelude.{
  ◌≡◌, refl, ◌∙◌, ap, true, false, Bool-cases, inl, inr, String, Option, none, some, List, [], ◌∷◌,
  arith, str_eq, if◌then◌else◌,
}
use easyblockchain.Prelude.Dict.{Dict, lookup, insert, erase, lookup-insert, lookup-erase}
use easyblockchain.Python.{ok, err}
use easyblockchain.Platform.{Platform}
use easyblockchain.Persistence.Files.{Disk}
use easyblockchain.Persistence.Save.{Step, run, write_bytes_atomic}

module _ ⦃env : Platform⦄ ⦃disk : Disk⦄ where
  -- the content of a path after every step has been done
  abbrev pub content_after : String → List Step → Option disk.Bytes → Option disk.Bytes
  content_after p [] old = old
  content_after p (err e ∷ steps) old = old
  content_after p (ok none ∷ steps) old = content_after p steps old
  content_after p (ok (some (q, content)) ∷ steps) old =
      content_after p steps
        (if str_eq q p then some content else if str_eq (disk.tmp_path q) p then none else old)

  run-write :
      (q : String) (content : disk.Bytes) (steps : List Step) (files files' : Dict disk.Bytes)
      → run (ok (some (q, content)) ∷ steps) files ≡ (ok tt, files')
      → run steps (insert q content (erase (disk.tmp_path q) files)) ≡ (ok tt, files')
  unfolding run write_bytes_atomic
  run-write q content steps files files' h = elim (Bool-cases (disk.can_write q)) [
    | inl e ↦ rw (write_bytes_atomic, e) at h
    | inr e ↦ absurd (ground arith)
  ]

  pub lookup-run :
      (p : String) (steps : List Step) (files files' : Dict disk.Bytes)
      → run steps files ≡ (ok tt, files')
      → lookup p files' ≡ content_after p steps (lookup p files)
  unfolding run
  lookup-run p [] files files' h = ground arith
  lookup-run p (err e ∷ steps) files files' h = absurd (ground arith)
  lookup-run p (ok none ∷ steps) files files' h = lookup-run p steps files files' h
  lookup-run p (ok (some (q, content)) ∷ steps) files files' h =
      lookup-run p steps _ files' (run-write q content steps files files' h)
      ∙ ap (content_after p steps) (
          lookup-insert q p content _
          ∙ ap (λ x. if str_eq q p then some content else x)
              (lookup-erase (disk.tmp_path q) p files))

  -- No step writes to the path, and none uses it as its temporary one.
  abbrev pub Untouched : String → List Step → Type 0
  Untouched p [] = Unit
  Untouched p (err e ∷ steps) = Unit
  Untouched p (ok none ∷ steps) = Untouched p steps
  Untouched p (ok (some (q, content)) ∷ steps) =
      (str_eq q p ≡ false) × (str_eq (disk.tmp_path q) p ≡ false) × Untouched p steps

  pub lookup-cleared :
      (p q : String) (files : Dict disk.Bytes)
      → str_eq q p ≡ false
      → lookup p (erase q files) ≡ lookup p files
  lookup-cleared p q files e =
      lookup-erase q p files ∙ ap (λ t. if t then none else lookup p files) e

  pub lookup-written :
      (p q : String) (content : disk.Bytes) (files : Dict disk.Bytes)
      → str_eq q p ≡ false
      → str_eq (disk.tmp_path q) p ≡ false
      → lookup p (insert q content (erase (disk.tmp_path q) files)) ≡ lookup p files
  lookup-written p q content files e t =
      lookup-insert q p content _
      ∙ ap (λ b. if b then some content else lookup p (erase (disk.tmp_path q) files)) e
      ∙ lookup-cleared p (disk.tmp_path q) files t

  -- Whether or not the run succeeds, such a path keeps its content.
  pub lookup-run-Untouched :
      (p : String) (steps : List Step) (files : Dict disk.Bytes)
      → Untouched p steps
      → lookup p (run steps files).1 ≡ lookup p files
  unfolding run write_bytes_atomic
  lookup-run-Untouched p [] files u = refl
  lookup-run-Untouched p (err e ∷ steps) files u = refl
  lookup-run-Untouched p (ok none ∷ steps) files u = lookup-run-Untouched p steps files u
  lookup-run-Untouched p (ok (some (q, content)) ∷ steps) files (e, t, u) =
      elim (Bool-cases (disk.can_write q)) [
        | inl w ↦ rw w (
            lookup-run-Untouched p steps (insert q content (erase (disk.tmp_path q) files)) u
            ∙ lookup-written p q content files e t)
        | inr w ↦ rw w (lookup-cleared p (disk.tmp_path q) files t)
      ]

  pub content_after-Untouched :
      (p : String) (steps : List Step) (old : Option disk.Bytes)
      → Untouched p steps
      → content_after p steps old ≡ old
  content_after-Untouched p [] old u = refl
  content_after-Untouched p (err e ∷ steps) old u = refl
  content_after-Untouched p (ok none ∷ steps) old u = content_after-Untouched p steps old u
  content_after-Untouched p (ok (some (q, content)) ∷ steps) old (e, t, u) =
      content_after-Untouched p steps _ u ∙ rw (e, t) refl

  -- The last write to a path decides what it holds.
  pub content_after_write :
      (p : String) (content : disk.Bytes) (steps : List Step) (old : Option disk.Bytes)
      → str_eq p p ≡ true
      → Untouched p steps
      → content_after p (ok (some (p, content)) ∷ steps) old ≡ some content
  content_after_write p content steps old e u = content_after-Untouched p steps _ u ∙ rw e refl
