-- ===== src/Migrations.antt =====
-- The migration runner, internal/platform/database/migrate.go: the history of the schema, what is
-- pending, and the steps up and down. The schema is a type of its own, `exec` is what the database
-- makes of a file's statements, or none where they fail, and the row's times are left out.
pub mod Files
pub mod Progress
pub mod Reversal
mod Examples
use Prim.Native.String.{String}
use evermore.Base.{
  ℕ, ltb, leb, ◌==◌, Bool, true, false, not, List, [], ◌∷◌, ◌++◌, Option, none, some, if◌then◌else◌,
  tally, keep, first, Result, ok, err, refuse, ◌>>=◌, ◌>>◌,
}
use evermore.Text.{text_eq}

pub record Migration : Type 0 where
  pub version : ℕ
  pub name : List ℕ
  pub up_sql : List ℕ
  pub down_sql : List ℕ
  pub checksum : String

-- A row of schema_migration.
pub record Applied : Type 0 where
  pub version : ℕ
  pub name : List ℕ
  pub checksum : String

pub record World {ℓ} (Schema : Type ℓ) : Type ℓ where
  pub schema : Schema
  pub history : List Applied

pub data MigrationError : Type 0 where
  version_zero nothing_to_roll_back : MigrationError
  edited files_missing sql_failed already_recorded : ℕ → MigrationError

abbrev pub row_of : Migration → Applied
row_of m = record { version = m.version; name = m.name; checksum = m.checksum }

abbrev pub find_row : ℕ → List Applied → Option Applied
find_row version history = first (λ a. a.version == version) history

-- The loop over the migrations: those that the history lacks, in their order.
unfoldable pub pending_of : List Applied → List Migration → Result MigrationError (List Migration)
pending_of history [] = ok []
pending_of history (m ∷ ms) =
    let rest = pending_of history ms in
    elim (find_row m.version history) [
      | none ↦ rest >>= λ p. ok (m ∷ p)
      | some a ↦ if text_eq a.checksum m.checksum then rest else err (edited m.version)
    ]

unfoldable pub status : List Applied → List Migration → Result MigrationError (List Migration)
status history ms = do
  refuse (ltb 0 (tally (λ a. a.version == 0) history)) version_zero
  pending_of history ms

-- The row with the greatest version: the last that `ORDER BY version` gives.
abbrev pub later : Applied → Option Applied → Applied
later a none = a
later a (some b) = if leb a.version b.version then b else a

unfoldable pub latest : List Applied → Option Applied
latest [] = none
latest (a ∷ rest) = some (later a (latest rest))

module _ {ℓ} {Schema : Type ℓ} (exec : List ℕ → Schema → Option Schema) where
  -- One transaction: the statements, and the row, whose version is the key of the table.
  unfoldable pub apply_one : Migration → World Schema → Result MigrationError (World Schema)
  apply_one m w = elim (exec m.up_sql w.schema) [
    | none ↦ err (sql_failed m.version)
    | some s ↦ elim (find_row m.version w.history) [
      | some a ↦ err (already_recorded m.version)
      | none ↦ ok (record { schema = s; history = w.history ++ row_of m ∷ [] })
    ]
  ]

  -- The loop of `Up`: the world after it, the versions that were applied, and the error that ended it.
  unfoldable pub up_loop :
      List Migration → World Schema → World Schema × List ℕ × Option MigrationError
  up_loop [] w = (w, [], none)
  up_loop (m ∷ ms) w = elim (apply_one m w) [
    | err e ↦ (w, [], some e)
    | ok w1 ↦ let (w2, done, e) = up_loop ms w1 in (w2, m.version ∷ done, e)
  ]

  unfoldable pub up : List Migration → World Schema → World Schema × List ℕ × Option MigrationError
  up ms w = elim (status w.history ms) [ err e ↦ (w, [], some e) | ok pending ↦ up_loop pending w ]

  unfoldable pub down : List Migration → World Schema → Result MigrationError (ℕ × World Schema)
  down ms w = status w.history ms >>= λ pending. elim (latest w.history) [
    | none ↦ err nothing_to_roll_back
    | some a ↦ elim (first (λ m. m.version == a.version) ms) [
      | none ↦ err (files_missing a.version)
      | some m ↦ elim (exec m.down_sql w.schema) [
        | none ↦ err (sql_failed m.version)
        | some s ↦ ok (
          m.version,
          record { schema = s; history = keep (λ r. not (r.version == m.version)) w.history },
        )
      ]
    ]
  ]
