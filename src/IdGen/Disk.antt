-- ===== src/IdGen/Disk.antt =====
-- id-generators/disk-based/main.go: a counter in memory and its copy in a file. The counter is
-- unbounded here, an int64 in the source. The file holds the decimal text of a number, which
-- strconv.ParseInt reads back; it is represented by that number.
use design_pocs.Common.{ℕ, ◌+◌, ◌%◌, List, [], ◌∷◌, ◌==◌, if◌then◌else◌}

abbrev pub iterations : ℕ
iterations = 50

-- What os.ReadFile and strconv.ParseInt find: no file, a file that cannot be read, text that is no
-- number, or a number.
pub data CounterFile : Type 0 where
  missing unreadable garbage : CounterFile
  holds : ℕ → CounterFile

pub record Generator : Type 0 where
  pub counter : ℕ
  pub file : CounterFile

-- What os.WriteFile does: the value is saved, or it fails and leaves something in the file.
pub data Persist : Type 0 where
  saved : Persist
  fails : CounterFile → Persist

-- A call ends with an id, or log.Fatalf ends the process and only the file is left.
pub data Outcome : Type 0 where
  generated : ℕ → Generator → Outcome
  exited : CounterFile → Outcome

pub data Started : Type 0 where
  started : Generator → Started
  refused : CounterFile → Started

abbrev written : Persist → ℕ → CounterFile
written saved v = holds v
written (fails left) v = left

-- loadCounter. Its result is the state of the new process.
unfoldable pub load_counter : CounterFile → Persist → Started
load_counter missing io = started (record { counter = iterations; file = written io iterations })
load_counter unreadable io = refused unreadable
load_counter garbage io = refused garbage
load_counter (holds v) io = started (record { counter = v + iterations; file = holds v })

-- persistCounter, and what its callers do with its error.
unfoldable pub persist_counter : Persist → ℕ → Generator → Outcome
persist_counter saved v g = generated v (record g { file = holds v })
persist_counter (fails left) v g = exited left

-- generateIDWithDiskPersistence
unfoldable pub generate_with_disk_persistence : Persist → Generator → Outcome
unfolding persist_counter
generate_with_disk_persistence io g =
    let value = g.counter + 1 in persist_counter io value (record g { counter = value })

-- generateIDWithPeriodicDiskPersistence
unfoldable pub generate_with_periodic_persistence : ℕ → Persist → Generator → Outcome
unfolding persist_counter
generate_with_periodic_persistence every io g =
    let value = g.counter + 1 in
    let g' = record g { counter = value } in
    if value % every == 0 then persist_counter io value g' else generated value g'

-- The two routes that generate an id: `handler` on "/" and `periodicHandler`.
pub data Route : Type 0 where
  root periodic : Route

unfoldable pub serve : Route → Persist → Generator → Outcome
unfolding generate_with_disk_persistence generate_with_periodic_persistence
serve root io g = generate_with_disk_persistence io g
serve periodic io g = generate_with_periodic_persistence iterations io g

-- The process goes on, or it has ended and left the file.
pub data Process : Type 0 where
  running : Generator → Process
  ended : CounterFile → Process

abbrev pub file_left : Process → CounterFile
file_left (running g) = g.file
file_left (ended left) = left

-- Requests one after the other, the mutex being held by each, with what os.WriteFile does if it is called.
-- The one whose write fails ends the process.
unfoldable pub serve_all : List (Route × Persist) → Generator → List ℕ × Process
serve_all [] g = ([], running g)
serve_all ((r, io) ∷ rs) g = elim (serve r io g) [
  | exited left ↦ ([], ended left)
  | generated id g' ↦ let (ids, p) = serve_all rs g' in (id ∷ ids, p)
]

-- The process ends, if it has not, and is started again on the file that it left.
unfoldable pub restart : Persist → Process → Started
unfolding load_counter
restart io p = load_counter (file_left p) io
