-- ===== src/Interconnect/Mailboxes.antt =====
-- The contract of `InterconnectInterface` of src/core/multiprocessor/interconnect.h, as mailboxes: one for
-- each processor, first in first out. `Network` is the interface with its laws.
use cache_simulator.Prelude.{
  ℕ, ◌<◌, ◌≡◌, ◌≢◌, refl, ap, ◌∙◌, Bool, true, false, not, List, [], ◌∷◌, ◌++◌, Option, none, some,
  ◌==◌, ltb, leb, if◌then◌else◌, length, get_or, set, length-set, get_or-set_self, get_or-set_ne,
  Bool-cases, inl, inr, arith,
}
use cache_simulator.Interconnect.Message.{InterconnectMessage, Queues, push, is_empty, pop_front}

-- `stamp` is what an interconnect writes into a message that it delivers.
pub record Mailboxes : Type 0 where
  pub count : ℕ
  pub stamp : InterconnectMessage → InterconnectMessage
  pub box : ℕ → List InterconnectMessage

abbrev pub put_box : Mailboxes → ℕ → List InterconnectMessage → Mailboxes
put_box b i queue = record b { box = λ j. if j == i then queue else b.box j }

abbrev pub post : Mailboxes → InterconnectMessage → Mailboxes
post b message =
    if ltb message.dest_id b.count
    then put_box b message.dest_id (b.box message.dest_id ++ b.stamp message ∷ [])
    else b

abbrev collect_from :
    List InterconnectMessage → Mailboxes → ℕ → Option InterconnectMessage × Mailboxes
collect_from [] b i = (none, b)
collect_from (message ∷ rest) b i = (some message, put_box b i rest)

abbrev pub collect : Mailboxes → ℕ → Option InterconnectMessage × Mailboxes
collect b i = if ltb i b.count then collect_from (b.box i) b i else (none, b)

abbrev pub has_post : Mailboxes → ℕ → Bool
has_post b i = if ltb i b.count then not (is_empty (b.box i)) else false

pub data Command : Type 0 where
  send : InterconnectMessage → Command
  receive has : ℕ → Command

pub data Reply : Type 0 where
  sent : Reply
  received : Option InterconnectMessage → Reply
  answered : Bool → Reply

abbrev pub run_mailboxes : Mailboxes → List Command → List Reply
run_mailboxes b [] = []
run_mailboxes b (send message ∷ rest) = sent ∷ run_mailboxes (post b message) rest
run_mailboxes b (receive i ∷ rest) = received (collect b i).0 ∷ run_mailboxes (collect b i).1 rest
run_mailboxes b (has i ∷ rest) = answered (has_post b i) ∷ run_mailboxes b rest

-- The operations of an interconnect, and the relation of its states to mailboxes that they keep.
pub record Network (S : Type 0) : Type 1 where
  pub send_message : S → InterconnectMessage → S × ℕ
  pub receive_message : S → ℕ → Option InterconnectMessage × S
  pub has_messages : S → ℕ → Bool
  pub Refines : S → Mailboxes → Type 0
  pub send_lem :
      (s : S) (b : Mailboxes) (message : InterconnectMessage)
      → Refines s b
      → Refines (send_message s message).0 (post b message)
  pub receive_lem :
      (s : S) (b : Mailboxes) (i : ℕ)
      → Refines s b
      → ((receive_message s i).0 ≡ (collect b i).0)
        × Refines (receive_message s i).1 (collect b i).1
  pub has_lem : (s : S) (b : Mailboxes) (i : ℕ) → Refines s b → has_messages s i ≡ has_post b i

module _ {S : Type 0} (network : Network S) where
  abbrev pub run : S → List Command → List Reply
  run s [] = []
  run s (send message ∷ rest) = sent ∷ run (network.send_message s message).0 rest
  run s (receive i ∷ rest) =
      received (network.receive_message s i).0 ∷ run (network.receive_message s i).1 rest
  run s (has i ∷ rest) = answered (network.has_messages s i) ∷ run s rest

  -- An interconnect that refines mailboxes answers every sequence of calls as they do.
  pub run-refines :
      (s : S) (b : Mailboxes) (commands : List Command)
      → network.Refines s b
      → run s commands ≡ run_mailboxes b commands
  run-refines s b [] h = refl
  run-refines s b (send message ∷ rest) h = ap (sent ∷◌) (
      run-refines (network.send_message s message).0 (post b message) rest
        (network.send_lem s b message h))
  run-refines s b (receive i ∷ rest) h =
      let (same, next) = network.receive_lem s b i h in
      let rest_same = run-refines (network.receive_message s i).1 (collect b i).1 rest next in cc
  run-refines s b (has i ∷ rest) h =
      let rest_same = run-refines s b rest h in cc (network.has_lem s b i h)

-- A vector of queues that holds what the mailboxes hold.
pub record Holds (queues : Queues) (n : ℕ) (b : Mailboxes) : Type 0 where
  pub counted : b.count ≡ n
  pub sized : length queues ≡ n
  pub equal : (i : ℕ) → i < n → get_or queues i [] ≡ b.box i

module _ (queues : Queues) (n : ℕ) (b : Mailboxes) (h : Holds queues n b) (i : ℕ) where
  set-Holds :
      (queue : List InterconnectMessage) → i < n → Holds (set queues i queue) n (put_box b i queue)
  set-Holds queue lt = record {
    counted = h.counted;
    sized = omega (arith, length-set queues i queue, h.sized);
    equal = λ j lt'. elim (Bool-cases (j == i)) [
      | inl same ↦
          let e : j ≡ i = ground arith in
          rw (same, e) (get_or-set_self queues i queue [] (omega (arith, h.sized)))
      | inr apart ↦
          let ne : i ≢ j = ground arith in
          rw apart (get_or-set_ne queues i j queue [] ne ∙ h.equal j lt')
    ];
  }

  pub collect-Holds :
      i < n
      → ((pop_front (get_or queues i []) queues i).0 ≡ (collect b i).0)
        × Holds (pop_front (get_or queues i []) queues i).1 n (collect b i).1
  collect-Holds lt =
      let here : ltb i b.count ≡ true = ground (arith, h.counted) in
      rw (here, h.equal i lt) (go (b.box i))
    where
      go :
          (queue : List InterconnectMessage)
          → ((pop_front queue queues i).0 ≡ (collect_from queue b i).0)
            × Holds (pop_front queue queues i).1 n (collect_from queue b i).1
      go [] = (refl, h)
      go (message ∷ rest) = (refl, set-Holds rest lt)

  pub has_post_lem : (if leb n i then false else not (is_empty (get_or queues i []))) ≡ has_post b i
  has_post_lem = ground (arith, h.counted, h.equal i)

-- A delivery goes to the queue of a processor that is there, and to no queue otherwise.
pub post-Holds :
    (queues : Queues) (n : ℕ) (b : Mailboxes) (message : InterconnectMessage)
    → Holds queues n b
    → Holds
        (if ltb message.dest_id n then push queues message.dest_id (b.stamp message) else queues)
        n
        (post b message)
post-Holds queues n b message h = elim (Bool-cases (ltb message.dest_id n)) [
  | inl lt ↦
      let there : message.dest_id < n = ground arith in
      let here : ltb message.dest_id b.count ≡ true = ground (arith, h.counted) in
      rw (lt, here, h.equal message.dest_id there)
        (set-Holds queues n b h message.dest_id (b.box message.dest_id ++ b.stamp message ∷ [])
          there)
  | inr out ↦
      let not_here : ltb message.dest_id b.count ≡ false = ground (arith, h.counted) in
      rw (out, not_here) h
]
