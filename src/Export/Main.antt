-- ===== src/Export/Main.antt =====
-- `main` around the query and the workers: the connection, and the file. The directory, the file and
-- the buffered writer are parameters.
use fluxa.Base.{ℕ, suc, String, ◌==◌, Bool, Option, none, some, List, [], ◌∷◌, if◌then◌else◌}
use fluxa.Domain.{GoError, wrapped, Result, ok, err}
use fluxa.World.{Env, M, pure, ◌>>=◌, on_error, on_result}
use fluxa.Export.Defs.{Line, export}

-- What the calls on the file answer, the n-th `Write` among them; `flush` is what `cw.Error()` has
-- after `cw.Flush()`.
pub record Disk : Type 0 where
  pub mkdir : Option GoError
  pub create : Option GoError
  pub write : ℕ → Option GoError
  pub flush : Option GoError

abbrev pub dsn_of : (String → String) → String
dsn_of getenv =
    let dsn = getenv "EXPORT_DSN" in
    if dsn == ""
    then "host=localhost port=5432 user=fluxa_user password=fluxa_password dbname=fluxa sslmode=disable"
    else dsn

-- `fatalf`: the error that is printed before `os.Exit(1)`.
abbrev pub fatal_on : Option GoError → String → Result (List Line) → Result (List Line)
fatal_on none context rest = rest
fatal_on (some e) context rest = err (wrapped context e)

-- The loop over the rows, from the n-th `Write` on.
unfoldable pub write_rows : Disk → ℕ → List Line → Option GoError
write_rows disk n [] = none
write_rows disk n (_ ∷ rows) =
    let rest = write_rows disk (suc n) rows in elim (disk.write n) [ none ↦ rest | some e ↦ some e ]

-- The file: what it holds in the end, or the error.
unfoldable pub write_file : Disk → List Line → Result (List Line)
write_file disk [] = ok []
write_file disk (first ∷ rows) = fatal_on disk.mkdir "mkdir" (
    fatal_on disk.create "create ml/data/features.csv" (
      fatal_on (disk.write 0) "write header" (
        fatal_on (write_rows disk 1 rows) "write row"
          (fatal_on disk.flush "flush" (ok (first ∷ rows))))))

-- `main`: `connect` is `db.NewClient` at an address.
unfoldable pub export_main :
    Env
    → (String → String)
    → (String → Option GoError)
    → Disk
    → (String → Bool)
    → List ℕ
    → M (Result (List Line))
export_main env getenv connect disk has_label order =
    on_error (connect (dsn_of getenv)) (λ e. pure (err (wrapped "connect" e)))
      (do
        lines ← export env has_label order
        on_result lines (λ e. pure (err e)) (λ lines. pure (write_file disk lines)))
