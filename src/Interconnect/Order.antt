-- ===== src/Interconnect/Order.antt =====
-- The bus, the ring and the torus of src/core/multiprocessor/interconnect.h keep the contract of mailboxes.
use cache_simulator.Prelude.{
  ℕ, ◌≡◌, refl, subst, true, false, List, [], none, get_or, ltb, leb, replicate, length-replicate,
  get_or-replicate, if◌then◌else◌, Bool-cases, inl, inr, arith,
}
use cache_simulator.Interconnect.Message.{InterconnectMessage, Queues, push, pop_front}
use cache_simulator.Interconnect.Bus
use cache_simulator.Interconnect.Bus.{BusInterconnect}
use cache_simulator.Interconnect.Ring
use cache_simulator.Interconnect.Ring.{RingInterconnect}
use cache_simulator.Interconnect.Torus
use cache_simulator.Interconnect.Torus.{TorusInterconnect}
use cache_simulator.Interconnect.Mailboxes.{
  Mailboxes, Network, Holds, post, collect, has_post, post-Holds, collect-Holds, has_post_lem,
  Command, run, run_mailboxes, run-refines,
}

abbrev pub empty_boxes : ℕ → (InterconnectMessage → InterconnectMessage) → Mailboxes
empty_boxes n stamp = record { count = n; stamp = stamp; box = λ i. [] }

new-Holds :
    (n : ℕ) (stamp : InterconnectMessage → InterconnectMessage)
    → Holds (replicate n []) n (empty_boxes n stamp)
new-Holds n stamp = record {
  counted = refl;
  sized = length-replicate n [];
  equal = λ i lt. get_or-replicate n i [] [] lt;
}

-- The queues, the number of processors and the stamp of an interconnect, against mailboxes.
pub record Agrees (queues : Queues) (n : ℕ) (stamp : InterconnectMessage → InterconnectMessage)
    (b : Mailboxes) : Type 0 where
  pub holds : Holds queues n b
  pub stamped : (m : InterconnectMessage) → b.stamp m ≡ stamp m

new-Agrees :
    (n : ℕ) (stamp : InterconnectMessage → InterconnectMessage)
    → Agrees (replicate n []) n stamp (empty_boxes n stamp)
new-Agrees n stamp = record { holds = new-Holds n stamp; stamped = λ m. refl }

module _ (queues : Queues) (n : ℕ) (stamp : InterconnectMessage → InterconnectMessage)
    (b : Mailboxes) (h : Agrees queues n stamp b) where
  post-stamp : (message : InterconnectMessage) → (post b message).stamp ≡ b.stamp
  post-stamp message = elim (Bool-cases (ltb message.dest_id b.count)) [
    | inl e ↦ rw e
    | inr e ↦ rw e
  ]

  post-Agrees :
      (message : InterconnectMessage)
      → Agrees
          (if ltb message.dest_id n then push queues message.dest_id (stamp message) else queues)
          n
          stamp
          (post b message)
  post-Agrees message = record {
    holds =
        subst
          (λ d.
            Holds (if ltb message.dest_id n then push queues message.dest_id d else queues) n
              (post b message))
          (h.stamped message) (post-Holds queues n b message h.holds);
    stamped = rw (post-stamp message) h.stamped;
  }

  collect-stamp : (i : ℕ) → (collect b i).1.stamp ≡ b.stamp
  collect-stamp i = ground arith

  collect-Agrees :
      (i : ℕ)
      → leb n i ≡ false
      → ((pop_front (get_or queues i []) queues i).0 ≡ (collect b i).0)
        × Agrees (pop_front (get_or queues i []) queues i).1 n stamp (collect b i).1
  collect-Agrees i here =
      let (same, holds') = collect-Holds queues n b h.holds i (ground arith) in
      (same, record { holds = holds'; stamped = rw (collect-stamp i) h.stamped })

  -- A receiver that is not there gets nothing.
  collect-none : (i : ℕ) → leb n i ≡ true → collect b i ≡ (none, b)
  collect-none i out =
      let outside : ltb i b.count ≡ false = ground (arith, h.holds.counted) in rw outside

abbrev pub bus_stamp : InterconnectMessage → InterconnectMessage
bus_stamp m = m

abbrev pub BusRefines : BusInterconnect → Mailboxes → Type 0
BusRefines s b = Agrees s.message_queues s.num_processors bus_stamp b

pub bus_send :
    (s : BusInterconnect) (b : Mailboxes) (message : InterconnectMessage)
    → BusRefines s b
    → BusRefines (Bus.send_message s message).0 (post b message)
unfolding Bus.send_message
bus_send s b message h = post-Agrees s.message_queues s.num_processors bus_stamp b h message

pub bus_receive :
    (s : BusInterconnect) (b : Mailboxes) (i : ℕ)
    → BusRefines s b
    → ((Bus.receive_message s i).0 ≡ (collect b i).0)
      × BusRefines (Bus.receive_message s i).1 (collect b i).1
unfolding Bus.receive_message
bus_receive s b i h = elim (Bool-cases (leb s.num_processors i)) [
  | inl out ↦ rw (out, collect-none s.message_queues s.num_processors bus_stamp b h i out) (refl, h)
  | inr here ↦ rw here (collect-Agrees s.message_queues s.num_processors bus_stamp b h i here)
]

pub bus_has :
    (s : BusInterconnect) (b : Mailboxes) (i : ℕ)
    → BusRefines s b
    → Bus.has_messages s i ≡ has_post b i
unfolding Bus.has_messages
bus_has s b i h = has_post_lem s.message_queues s.num_processors b h.holds i

abbrev pub bus_network : Network BusInterconnect
bus_network = record {
  send_message = Bus.send_message;
  receive_message = Bus.receive_message;
  has_messages = Bus.has_messages;
  Refines = BusRefines;
  send_lem = bus_send;
  receive_lem = bus_receive;
  has_lem = bus_has;
}

abbrev pub ring_stamp : RingInterconnect → InterconnectMessage → InterconnectMessage
ring_stamp s m = record m { hop_count = Ring.calculate_hops s.num_processors m.source_id m.dest_id }

abbrev pub RingRefines : RingInterconnect → Mailboxes → Type 0
RingRefines s b = Agrees s.routers s.num_processors (ring_stamp s) b

pub ring_send :
    (s : RingInterconnect) (b : Mailboxes) (message : InterconnectMessage)
    → RingRefines s b
    → RingRefines (Ring.send_message s message).0 (post b message)
unfolding Ring.send_message
ring_send s b message h = post-Agrees s.routers s.num_processors (ring_stamp s) b h message

pub ring_receive :
    (s : RingInterconnect) (b : Mailboxes) (i : ℕ)
    → RingRefines s b
    → ((Ring.receive_message s i).0 ≡ (collect b i).0)
      × RingRefines (Ring.receive_message s i).1 (collect b i).1
unfolding Ring.receive_message
ring_receive s b i h = elim (Bool-cases (leb s.num_processors i)) [
  | inl out ↦ rw (out, collect-none s.routers s.num_processors (ring_stamp s) b h i out) (refl, h)
  | inr here ↦ rw here (collect-Agrees s.routers s.num_processors (ring_stamp s) b h i here)
]

pub ring_has :
    (s : RingInterconnect) (b : Mailboxes) (i : ℕ)
    → RingRefines s b
    → Ring.has_messages s i ≡ has_post b i
unfolding Ring.has_messages
ring_has s b i h = has_post_lem s.routers s.num_processors b h.holds i

abbrev pub ring_network : Network RingInterconnect
ring_network = record {
  send_message = Ring.send_message;
  receive_message = Ring.receive_message;
  has_messages = Ring.has_messages;
  Refines = RingRefines;
  send_lem = ring_send;
  receive_lem = ring_receive;
  has_lem = ring_has;
}

abbrev pub torus_stamp : TorusInterconnect → InterconnectMessage → InterconnectMessage
torus_stamp s m = record m { hop_count = Torus.calculate_hops s m.source_id m.dest_id }

abbrev pub TorusRefines : TorusInterconnect → Mailboxes → Type 0
TorusRefines s b = Agrees s.routers s.num_processors (torus_stamp s) b

pub torus_send :
    (s : TorusInterconnect) (b : Mailboxes) (message : InterconnectMessage)
    → TorusRefines s b
    → TorusRefines (Torus.send_message s message).0 (post b message)
unfolding Torus.send_message Torus.calculate_hops
torus_send s b message h = post-Agrees s.routers s.num_processors (torus_stamp s) b h message

pub torus_receive :
    (s : TorusInterconnect) (b : Mailboxes) (i : ℕ)
    → TorusRefines s b
    → ((Torus.receive_message s i).0 ≡ (collect b i).0)
      × TorusRefines (Torus.receive_message s i).1 (collect b i).1
unfolding Torus.receive_message Torus.calculate_hops
torus_receive s b i h = elim (Bool-cases (leb s.num_processors i)) [
  | inl out ↦ rw (out, collect-none s.routers s.num_processors (torus_stamp s) b h i out) (refl, h)
  | inr here ↦ rw here (collect-Agrees s.routers s.num_processors (torus_stamp s) b h i here)
]

pub torus_has :
    (s : TorusInterconnect) (b : Mailboxes) (i : ℕ)
    → TorusRefines s b
    → Torus.has_messages s i ≡ has_post b i
unfolding Torus.has_messages
torus_has s b i h = has_post_lem s.routers s.num_processors b h.holds i

abbrev pub torus_network : Network TorusInterconnect
torus_network = record {
  send_message = Torus.send_message;
  receive_message = Torus.receive_message;
  has_messages = Torus.has_messages;
  Refines = TorusRefines;
  send_lem = torus_send;
  receive_lem = torus_receive;
  has_lem = torus_has;
}

-- A fresh bus, ring or torus of any size answers every sequence of sends, receives and tests as mailboxes
-- do that are first in first out: a message to a processor that is there is received there, once
-- and in the order of the sends, with its hops written in by the ring and the torus.
pub run-mailboxes :
    (n latency width : ℕ) (commands : List Command)
    → (run bus_network (Bus.create n latency width) commands
        ≡ run_mailboxes (empty_boxes n bus_stamp) commands)
      × (run ring_network (Ring.create n latency) commands
          ≡ run_mailboxes (empty_boxes n (ring_stamp (Ring.create n latency))) commands)
      × (run torus_network (Torus.create n latency) commands
          ≡ run_mailboxes (empty_boxes n (torus_stamp (Torus.create n latency))) commands)
unfolding Bus.create Ring.create Torus.create
run-mailboxes n latency width commands = (
  run-refines bus_network (Bus.create n latency width) (empty_boxes n bus_stamp) commands
      (new-Agrees n bus_stamp),
  run-refines ring_network (Ring.create n latency)
      (empty_boxes n (ring_stamp (Ring.create n latency))) commands
      (new-Agrees n (ring_stamp (Ring.create n latency))),
  run-refines torus_network (Torus.create n latency)
      (empty_boxes n (torus_stamp (Torus.create n latency))) commands
      (new-Agrees n (torus_stamp (Torus.create n latency))),
)
