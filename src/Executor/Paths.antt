-- ===== src/Executor/Paths.antt =====
-- What the file-system calls of src/changes/executor.js leave at each path.
use grouvi_nox.Prelude.{
  Bool-cases, Option, String, arith, eq_iff, eq_refl, false, inl, inr, none, refl, some, sym, true,
  ◌==◌, ◌∙◌, ◌≡◌, ◌≢◌,
}
use grouvi_nox.Prelude.JsMap.{get-put, get-remove}
use grouvi_nox.Executor.Host.{
  copied, World, File, file_at, write_file, remove_file, rename, rename_with,
}
use grouvi_nox.Executor.Files.{replace_file, chowned}

pub other_path : (p q : String) → p ≢ q → (p == q) ≡ false
other_path p q h = elim (Bool-cases (p == q)) [
  | inl same ↦ absurd (h ((eq_iff p q).0 same))
  | inr other ↦ other
]

module _ {E : Type 0} where
  pub written_at : (w : World E) (p : String) (f : File) → file_at (write_file w p f) p ≡ some f
  unfolding file_at write_file
  written_at w p f = get-put w.files p p f ∙ (rw (eq_refl p) refl)

  pub written_elsewhere :
      (w : World E) (p q : String) (f : File) → p ≢ q → file_at (write_file w p f) q ≡ file_at w q
  unfolding file_at write_file
  written_elsewhere w p q f h = get-put w.files p q f ∙ (rw (other_path p q h) refl)

  pub removed_at : (w : World E) (p : String) → file_at (remove_file w p) p ≡ none
  unfolding file_at remove_file
  removed_at w p = get-remove w.files p p ∙ (rw (eq_refl p) refl)

  pub removed_elsewhere :
      (w : World E) (p q : String) → p ≢ q → file_at (remove_file w p) q ≡ file_at w q
  unfolding file_at remove_file
  removed_elsewhere w p q h = get-remove w.files p q ∙ (rw (other_path p q h) refl)

  replaced :
      (temp target : String) (f : File) (w : World E)
      → replace_file temp target f w
        ≡ write_file (remove_file (write_file w temp (chowned f)) temp) target (chowned f)
  unfolding replace_file rename rename_with
  replaced temp target f w = rw (written_at w temp (chowned f)) refl

  pub replaced_at :
      (temp target : String) (f : File) (w : World E)
      → file_at (replace_file temp target f w) target ≡ some (chowned f)
  replaced_at temp target f w =
      rw (replaced temp target f w)
        (written_at (remove_file (write_file w temp (chowned f)) temp) target (chowned f))

  pub replaced_elsewhere :
      (temp target q : String) (f : File) (w : World E)
      → target ≢ q
      → temp ≢ q
      → file_at (replace_file temp target f w) q ≡ file_at w q
  replaced_elsewhere temp target q f w h k = rw (replaced temp target f w) (
      written_elsewhere (remove_file (write_file w temp (chowned f)) temp) target q (chowned f) h
      ∙ removed_elsewhere (write_file w temp (chowned f)) temp q k
      ∙ written_elsewhere w temp q (chowned f) k)

  pub links-replace_file :
      (temp target : String) (f : File) (w : World E)
      → (replace_file temp target f w).links ≡ w.links
  unfolding write_file remove_file
  links-replace_file temp target f w = rw (replaced temp target f w) refl

pub content-copied : (old : Option File) (f : File) → (copied old f).content ≡ f.content
unfolding copied
content-copied none f = refl
content-copied (some old) f = refl

pub differ : (p q : String) → (p == q) ≡ false → p ≢ q
differ p q other e = absurd (clash (sym other ∙ (eq_iff p q).1 e))
  where
    clash : false ≡ true → ⊥
    clash h = ground arith
