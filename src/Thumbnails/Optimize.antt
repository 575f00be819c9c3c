-- ===== src/Thumbnails/Optimize.antt =====
-- `optimize_image` of orders/backend/tasks.py, which rewrites a picture file in place.
use Prim.Native.String.{[], ◌∷◌}
use python_diplom.Base.{
  ℕ, String, Bool, ◌||◌, Option, none, some, str_eq, if◌then◌else◌, ◌≡◌, ◌≢◌, refl, Bool-cases,
  Option-cases, inl, inr, eq_iff,
}
use python_diplom.Exn.{Exn, Result, ok, err, Result-cases}
use python_diplom.Text.{Unicode, is_empty}
use python_diplom.Thumbnails.{Pillow, flatten}

-- `s.endswith(w)`
abbrev pub ends_with : String → String → Bool
ends_with w [] = is_empty w
ends_with w (c ∷ s) = str_eq (c ∷ s) w || ends_with w s

module _ ⦃u : Unicode⦄ ⦃p : Pillow⦄ where
  abbrev pub Files : Type 0
  Files = String → Option p.Bytes

  pub data Optimized : Type 0 where
    success : String → Optimized
    error : String → Optimized

  -- `img.save(…, quality=quality, optimize=True, progressive=True)` in a format, and what keeps a
  -- file from being opened for writing
  pub record Disk : Type 0 where
    pub save : String → ℕ → p.Image → Result p.Bytes
    pub locked : String → Option Exn
    pub exn_text : Exn → String

  abbrev pub write_file : String → p.Bytes → Files → Files
  write_file path bytes files name = if str_eq name path then some bytes else files name

  abbrev pub format_of : String → String
  format_of path =
      if ends_with ".jpg" (u.lower path) || ends_with ".jpeg" (u.lower path) then "JPEG" else "PNG"

  -- `optimize_image`
  unfoldable pub optimize_image : Disk → String → ℕ → Files → Optimized × Files
  unfolding flatten
  optimize_image disk path quality files = elim (p.open_image path) [
    | err e ↦ (error (disk.exn_text e), files)
    | ok img ↦ elim (disk.save (format_of path) quality (flatten img)) [
      | err e ↦ (error (disk.exn_text e), files)
      | ok bytes ↦ elim (disk.locked path) [
        | some e ↦ (error (disk.exn_text e), files)
        | none ↦ (success path, write_file path bytes files)
      ]
    ]
  ]

  -- No other file changes.
  optimize_image-others :
      (disk : Disk) (path other : String) (quality : ℕ) (files : Files)
      → other ≢ path
      → (optimize_image disk path quality files).1 other ≡ files other
  unfolding optimize_image
  optimize_image-others disk path other quality files ne = elim (Result-cases (p.open_image path)) [
    | inr (e, h) ↦ rw (h, optimize_image) refl
    | inl (img, h) ↦ elim (Result-cases (disk.save (format_of path) quality (flatten img))) [
      | inr (e, k) ↦ rw (h, optimize_image, k) refl
      | inl (bytes, k) ↦ elim (Option-cases (disk.locked path)) [
        | inr (e, l) ↦ rw (h, optimize_image, k, l) refl
        | inl l ↦ elim (Bool-cases (str_eq other path)) [
          | inl b ↦ absurd (ne ((eq_iff other path).0 b))
          | inr b ↦ rw (h, optimize_image, k, l, b) refl
        ]
      ]
    ]
  ]
