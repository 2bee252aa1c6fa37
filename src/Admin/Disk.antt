-- ===== src/Admin/Disk.antt =====
-- admin/catalog_store.py: the files under static/ and the atomic write of one of them.
pub mod Writes
use agent_embassy.Prelude.{
  String, Bool, true, false, Option, none, some, List, [], ◌∷◌, if◌then◌else◌,
}
use agent_embassy.Prelude.Dict.{Dict, get, put, remove}
use agent_embassy.Python.Json.{Json}
use agent_embassy.Python.Attempt.{Attempt, value, exception}

-- A file: its JSON document, where it was written to the end, and whether nginx may read it.
pub record File : Type 0 where
  pub content : Option Json
  pub public : Bool

-- The served files by their paths, and the temporary files beside them by their names.
pub record Disk : Type 0 where
  pub files : Dict File
  pub temps : Dict File

-- The steps of `_atomic_write`: `mkstemp`, the write with its flush and `fsync`, `chmod`, `replace`.
pub data Stage : Type 0 where
  make_temp fill publish swap : Stage

-- What goes wrong: nothing, a step that raises, or a process that is killed before a step is done.
-- A write that does not come to its end leaves an incomplete file.
pub data Fault : Type 0 where
  no_fault : Fault
  raises_at stops_at : Stage → Fault

-- How an operation ends: it returns, it raises the exception with the given name, or it is killed.
pub data Ending : Type 0 where
  finished stopped : Ending
  raised : String → Ending

abbrev pub unlink : String → Disk → Disk
unlink tmp d = record d { temps = remove d.temps tmp }

-- `os.replace(tmp_path, path)`, where the name `tmp` stands for `file`
unfoldable pub move : Option File → String → String → Disk → Disk
move none tmp path d = d
move (some file) tmp path d = record d { files = put d.files path file; temps = remove d.temps tmp }

abbrev pub replace : String → String → Disk → Disk
replace tmp path d = move (get d.temps tmp) tmp path d

abbrev pub set_temp : String → File → Disk → Disk
set_temp tmp file d = record d { temps = put d.temps tmp file }

abbrev pub created : String → Disk → Disk
created tmp d = set_temp tmp (record { content = none; public = false }) d

abbrev pub filled : String → Json → Disk → Disk
filled tmp doc d = set_temp tmp (record { content = some doc; public = false }) (created tmp d)

abbrev pub published : String → Json → Disk → Disk
published tmp doc d = set_temp tmp (record { content = some doc; public = true }) (filled tmp doc d)

-- The disk when a step is reached.
unfoldable pub disk_at : Stage → String → Json → Disk → Disk
disk_at make_temp tmp doc d = d
disk_at fill tmp doc d = created tmp d
disk_at publish tmp doc d = filled tmp doc d
disk_at swap tmp doc d = published tmp doc d

-- `_atomic_write`, where `tmp` is the name that `mkstemp` gives.
unfoldable pub atomic_write : Fault → String → String → Json → Disk → Ending × Disk
unfolding disk_at
atomic_write no_fault tmp path doc d = (finished, replace tmp path (disk_at swap tmp doc d))
atomic_write (raises_at make_temp) tmp path doc d = (raised "OSError", d)
atomic_write (raises_at s) tmp path doc d = (raised "OSError", unlink tmp (disk_at s tmp doc d))
atomic_write (stops_at s) tmp path doc d = (stopped, disk_at s tmp doc d)

-- `_cleanup_stale_temp_files`, which runs when the service starts. Every temporary file can be removed.
abbrev pub cleanup_stale_temp_files : Disk → Disk
cleanup_stale_temp_files d = record d { temps = [] }

-- `_read_json`
abbrev pub opened : Option File → Attempt Json
opened none = exception "FileNotFoundError"
opened (some file) = elim file.content [ none ↦ exception "JSONDecodeError" | some doc ↦ value doc ]

unfoldable pub read_json : String → Disk → Attempt Json
read_json path d = opened (get d.files path)
