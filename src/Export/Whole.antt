-- ===== src/Export/Whole.antt =====
-- How `main` of the export ends.
use mathlib.Core.List.{Memᴰ}
use fluxa.Base.{
  ℕ, suc, ◌<◌, String, Bool, Option, none, some, List, [], ◌∷◌, ◌≡◌, refl, arith, length, All, ◌⊎◌,
  inl, inr, Option-cases,
}
use fluxa.Domain.{GoError, wrapped, Result, ok, err}
use fluxa.World.{Env, World, done}
use fluxa.Export.Defs.{Line, labelled}
use fluxa.Export.Main.{Disk, dsn_of, fatal_on, write_rows, write_file, export_main}
use fluxa.Export.Order.{sequential, export-sequential}

-- The error of a call that failed, on the way to the file.
pub data IsFailure (connected : Option GoError) (disk : Disk) : GoError → Type 0 where
  unconnected : {e : GoError} → connected ≡ some e → IsFailure connected disk (wrapped "connect" e)
  no_directory : {e : GoError} → disk.mkdir ≡ some e → IsFailure connected disk (wrapped "mkdir" e)
  no_file :
      {e : GoError}
      → disk.create ≡ some e
      → IsFailure connected disk (wrapped "create ml/data/features.csv" e)
  no_header :
      {e : GoError} → disk.write 0 ≡ some e → IsFailure connected disk (wrapped "write header" e)
  no_row :
      {e : GoError} (n : ℕ)
      → disk.write (suc n) ≡ some e
      → IsFailure connected disk (wrapped "write row" e)
  not_flushed : {e : GoError} → disk.flush ≡ some e → IsFailure connected disk (wrapped "flush" e)

-- The file as it was to be, or the error of a call that failed.
abbrev pub IsEnd : Option GoError → Disk → List Line → Result (List Line) → Type 0
IsEnd connected disk file result =
    (result ≡ ok file) ⊎ ((e : GoError) × (result ≡ err e) × IsFailure connected disk e)

write_rows_failed :
    (disk : Disk) (n : ℕ) (rows : List Line) (e : GoError)
    → write_rows disk (suc n) rows ≡ some e
    → (m : ℕ) × (disk.write (suc m) ≡ some e)
unfolding write_rows
write_rows_failed disk n [] e h = cc
write_rows_failed disk n (r ∷ rows) e h = elim (Option-cases (disk.write (suc n))) [
  | inr (x, failed) ↦ (n, ground (arith, failed))
  | inl written ↦ write_rows_failed disk (suc n) rows e (ground (arith, written))
]

-- One call whose error ends `main`, and what comes after it.
fatal_on-IsEnd :
    (connected : Option GoError) (disk : Disk) (file : List Line) (failure : Option GoError)
    (context : String) (rest : Result (List Line))
    → ((e : GoError) → failure ≡ some e → IsFailure connected disk (wrapped context e))
    → IsEnd connected disk file rest
    → IsEnd connected disk file (fatal_on failure context rest)
fatal_on-IsEnd connected disk file none context rest is end = end
fatal_on-IsEnd connected disk file (some e) context rest is end =
    inr (wrapped context e, refl, is e refl)

write_file-IsEnd :
    (connected : Option GoError) (disk : Disk) (lines : List Line)
    → IsEnd connected disk lines (write_file disk lines)
unfolding write_file
write_file-IsEnd connected disk [] = inl refl
write_file-IsEnd connected disk (l ∷ rows) =
    let end = fatal_on-IsEnd connected disk (l ∷ rows) in
    end _ _ _ (λ e f. no_directory f)
      (end _ _ _ (λ e f. no_file f)
        (end _ _ _ (λ e f. no_header f)
          (end _ _ _ (λ e f. let (m, failed) = write_rows_failed disk 0 rows e f in no_row m failed)
            (end _ _ _ (λ e f. not_flushed f) (inl refl)))))

-- Where the database answers, and the workers take every labelled event, each at least once and in any
-- order: `main` either writes the sequential file, with the header and for each labelled event, in the
-- order of time, the features among the stored events and the label; or it ends with the error of the
-- connection or of a call for the file that failed.
pub export_main-sequential :
    (env : Env) (getenv : String → String) (connect : String → Option GoError) (disk : Disk)
    (has_label : String → Bool) (order : List ℕ) (w : World)
    → ((n : ℕ) → env.reply n ≡ done)
    → All (λ i. i < length (labelled has_label w.events)) order
    → ((i : ℕ) → i < length (labelled has_label w.events) → Memᴰ i order)
    → IsEnd
        (connect (dsn_of getenv))
        disk
        (sequential env has_label w.events)
        (export_main env getenv connect disk has_label order w).0
unfolding export_main
export_main-sequential env getenv connect disk has_label order w quiet valid covers =
    let file = sequential env has_label w.events in
    let lines = export-sequential env has_label order w quiet valid covers in
    elim (Option-cases (connect (dsn_of getenv))) [
      | inr (e, failed) ↦ inr (wrapped "connect" e, ground (arith, failed), unconnected failed)
      | inl connected ↦ rw (connected, lines) (write_file-IsEnd none disk file)
    ]
