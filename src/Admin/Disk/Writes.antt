-- ===== src/Admin/Disk/Writes.antt =====
-- What a write leaves, wherever it is interrupted.
use agent_embassy.Prelude.{
  String, ◌≡◌, refl, ◌∙◌, true, false, none, some, arith, str_eq, str_eq_iff, str_eq_refl,
  if◌then◌else◌,
}
use agent_embassy.Prelude.Dict.{Dict, get, put, remove, get-put, get-remove}
use agent_embassy.Python.Json.{Json}
use agent_embassy.Admin.Disk.{
  File, Disk, make_temp, fill, publish, swap, Fault, no_fault, raises_at, stops_at, Ending,
  finished, stopped, raised, disk_at, atomic_write, replace, move,
}

-- What a write to `path` has to leave: the served files are as they were, or, if it finished, the
-- file at `path` holds the whole document and may be read; if it raised, no temporary file is left
-- that was not there before.
abbrev pub IsAtomic : String → Json → Disk → Ending × Disk → Type 0
IsAtomic path doc d (finished, d') =
    (k : String)
    → get d'.files k ≡ (
        if str_eq path k
        then some (record { content = some doc; public = true })
        else get d.files k)
IsAtomic path doc d (stopped, d') = d'.files ≡ d.files
IsAtomic path doc d (raised x, d') =
    (d'.files ≡ d.files) × ((k : String) → get d'.temps k ≡ get d.temps k)

put_again : (temps : Dict File) (tmp : String) (f : File) → get (put temps tmp f) tmp ≡ some f
put_again temps tmp f = get-put temps tmp tmp f ∙ rw (str_eq_refl tmp)

-- `t` is `temps` up to what stands under `tmp`.
abbrev SameBeside : String → Dict File → Dict File → Type 0
SameBeside tmp temps t = (k : String) → str_eq tmp k ≡ false → get t k ≡ get temps k

put-SameBeside :
    (temps t : Dict File) (tmp : String) (f : File)
    → SameBeside tmp temps t
    → SameBeside tmp temps (put t tmp f)
put-SameBeside temps t tmp f same k other = get-put t tmp k f ∙ rw (other) (same k other)

removed :
    (temps t : Dict File) (tmp : String)
    → get temps tmp ≡ none
    → SameBeside tmp temps t
    → (k : String) → get (remove t tmp) k ≡ get temps k
removed temps t tmp fresh same k = ground (arith, get-remove t tmp k, same k, str_eq_iff tmp k)

created-SameBeside :
    (temps : Dict File) (tmp : String) (f : File) → SameBeside tmp temps (put temps tmp f)
created-SameBeside temps tmp f = put-SameBeside temps temps tmp f (λ k other. refl)

-- The disk after `os.replace`, where the temporary file holds `f`.
replaced :
    (d : Disk) (temps : Dict File) (tmp path : String) (f : File) (k : String)
    → get (replace tmp path (record d { temps = put temps tmp f })).files k
      ≡ (if str_eq path k then some f else get d.files k)
unfolding move
replaced d temps tmp path f k = rw (put_again temps tmp f) (get-put d.files path k f)

-- Under a name for the temporary file that is not taken, a write is atomic, whatever goes wrong.
pub atomic_write-IsAtomic :
    (fault : Fault) (tmp path : String) (doc : Json) (d : Disk)
    → get d.temps tmp ≡ none
    → IsAtomic path doc d (atomic_write fault tmp path doc d)
unfolding atomic_write disk_at
atomic_write-IsAtomic no_fault tmp path doc d fresh = replaced d _ tmp path _
atomic_write-IsAtomic (raises_at make_temp) tmp path doc d fresh = (refl, λ k. refl)
atomic_write-IsAtomic (raises_at fill) tmp path doc d fresh =
    (refl, removed d.temps _ tmp fresh (created-SameBeside d.temps tmp _))
atomic_write-IsAtomic (raises_at publish) tmp path doc d fresh = (
  refl,
  removed d.temps _ tmp fresh (put-SameBeside d.temps _ tmp _ (created-SameBeside d.temps tmp _)),
)
atomic_write-IsAtomic (raises_at swap) tmp path doc d fresh = (
  refl,
  removed d.temps _ tmp fresh (
      put-SameBeside d.temps _ tmp _
        (put-SameBeside d.temps _ tmp _ (created-SameBeside d.temps tmp _))),
)
atomic_write-IsAtomic (stops_at make_temp) tmp path doc d fresh = refl
atomic_write-IsAtomic (stops_at fill) tmp path doc d fresh = refl
atomic_write-IsAtomic (stops_at publish) tmp path doc d fresh = refl
atomic_write-IsAtomic (stops_at swap) tmp path doc d fresh = refl
