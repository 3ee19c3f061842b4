-- ===== src/Tests/Coherent.antt =====
-- The coherence protocols and the directory on small runs.
use cache_simulator.Prelude.{
  ℕ, ◌≡◌, ◌≢◌, refl, arith, true, false, [], none, some, ◌==◌, contains, if◌then◌else◌,
}
use cache_simulator.Coherence.Mesi.{modified, exclusive, shared, invalid}
use cache_simulator.Coherence.Protocol.{moesi, create}
use cache_simulator.Coherence.Safety.{
  Bus, idle, write, read, started, after_write, after_read, IsCoherent,
}
use cache_simulator.Coherence.Snooping.{sole_of, states_of, create-IsCoherent}
use cache_simulator.Directory.State.{
  CoherenceController, DirectoryEntry, no_owner, get_or_create_entry,
}
use cache_simulator.Directory.State as Directory
use cache_simulator.Directory.Requests.{process_request, get_cache_line_state}
use cache_simulator.Directory.Ownership.{
  DirectoryIsConsistent, process_request-DirectoryIsConsistent,
}
use cache_simulator.Directory.Writers.{write_by, process_request-modified}
use cache_simulator.Directory.Readers.{read_by, process_request-shared}

-- Cache 0 writes, then cache 1 reads and is told of a copy.
abbrev shared_bus : Bus (create moesi)
shared_bus = read (create moesi) (write (create moesi) (idle (create moesi)) 0) 1 true

create-IsCoherent_example : IsCoherent (create moesi) (sole_of moesi) (states_of moesi) shared_bus
create-IsCoherent_example = create-IsCoherent moesi shared_bus (
    after_read (write (create moesi) (idle (create moesi)) 0) 1 true
      (after_write (idle (create moesi)) 0 started) (λ j ne valid. refl))

abbrev fresh : CoherenceController
fresh = Directory.create 4 10

-- Processor 1 has line 64 exclusively.
abbrev owned_line : CoherenceController
owned_line = record fresh {
  directory = λ a.
      if a == 64
      then some (record { state = exclusive; owner = 1; sharers = []; dirty = false })
      else none;
}

fresh-DirectoryIsConsistent : DirectoryIsConsistent fresh
unfolding Directory.create
fresh-DirectoryIsConsistent a = (refl, refl)

process_request-DirectoryIsConsistent_example :
    DirectoryIsConsistent (process_request fresh (write_by 2 64)).0
process_request-DirectoryIsConsistent_example =
    process_request-DirectoryIsConsistent fresh (write_by 2 64) (omega arith)
      fresh-DirectoryIsConsistent

process_request-modified_example :
    let (c', response) = process_request owned_line (write_by 2 64) in
    ((o : ℕ) → get_cache_line_state c' o 64 ≡ (if 2 == o then modified else invalid))
    × ((o : ℕ)
        → o ≢ 2
        → get_cache_line_state owned_line o 64 ≢ invalid
        → contains o response.invalidated_processors ≡ true)
process_request-modified_example = process_request-modified owned_line 2 64

process_request-shared_example :
    let c' = (process_request owned_line (read_by 2 64)).0 in
    (get_cache_line_state c' 2 64 ≢ invalid)
    × ((o : ℕ)
        → o ≢ 2
        → get_cache_line_state owned_line o 64 ≢ invalid
        → get_cache_line_state c' o 64 ≡ shared)
process_request-shared_example = process_request-shared owned_line 2 64
