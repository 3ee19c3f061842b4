-- ===== src/Directory/State.antt =====
-- The directory of `CoherenceController` of src/core/multiprocessor/coherence_controller.h. A processor is a
-- `uint32_t`. The owner, an `int32_t` that is -1 where there is none, is kept as its bit pattern: its
-- comparison with `static_cast<int32_t>(id)` is the comparison of the patterns. The set of sharers is
-- a list without repetition, in an order that the source leaves open. The time stamps of the
-- entries, read by no code, and the lock are left out.
use cache_simulator.Prelude.{ℕ, Bool, false, List, [], Option, none, some, ◌==◌, if◌then◌else◌}
use cache_simulator.Coherence.Mesi.{MesiState, invalid}

pub record DirectoryEntry : Type 0 where
  pub state : MesiState
  pub owner : ℕ
  pub sharers : List ℕ
  pub dirty : Bool

-- -1
abbrev pub no_owner : ℕ
no_owner = 4294967295

abbrev pub new_entry : DirectoryEntry
new_entry = record { state = invalid; owner = no_owner; sharers = []; dirty = false }

pub data CoherenceRequestType : Type 0 where
  read_request write_request invalidate_request writeback_request : CoherenceRequestType
  share_request flush_request : CoherenceRequestType

-- The fields of a request that the controller reads.
pub record CoherenceRequest : Type 0 where
  pub requestor_id : ℕ
  pub address : ℕ
  pub type : CoherenceRequestType

-- `new_state` is `none` where the source leaves it uninitialised.
pub record CoherenceResponse : Type 0 where
  pub granted : Bool
  pub new_state : Option MesiState
  pub has_data : Bool
  pub latency : ℕ
  pub invalidated_processors : List ℕ

pub record CoherenceController : Type 0 where
  pub num_processors : ℕ
  pub interconnect_latency : ℕ
  pub directory : ℕ → Option DirectoryEntry
  pub read_requests : ℕ
  pub write_requests : ℕ
  pub invalidations : ℕ
  pub writebacks : ℕ
  pub state_transitions : ℕ
  pub coherence_messages : ℕ

unfoldable pub create : ℕ → ℕ → CoherenceController
create num_processors interconnect_latency = record {
  num_processors = num_processors;
  interconnect_latency = interconnect_latency;
  directory = λ a. none;
  read_requests = 0;
  write_requests = 0;
  invalidations = 0;
  writebacks = 0;
  state_transitions = 0;
  coherence_messages = 0;
}

abbrev pub or_new : Option DirectoryEntry → DirectoryEntry
or_new none = new_entry
or_new (some e) = e

-- `directory_[address]`, which makes an entry where there is none.
unfoldable pub get_or_create_entry : CoherenceController → ℕ → DirectoryEntry
get_or_create_entry c address = or_new (c.directory address)

unfoldable pub put_entry : CoherenceController → ℕ → DirectoryEntry → CoherenceController
put_entry c address e = record c { directory = λ a. if a == address then some e else c.directory a }
