-- ===== src/Broker/Registry/Subscribers.antt =====
-- Consumers that come and go, broadcasts and receives, in any order. Each of them is one step here,
-- so a broadcast is not interrupted.
pub mod Safety
use message_queue.Prelude.{
  ℕ, ◌≡◌, refl, sym, ap, ◌∙◌, inl, inr, Bool, true, false, Option, none, some, List, [], ◌∷◌, ◌++◌,
  append_assoc, append-nil, All, arith, ◌==◌, ◌⊎◌, ==_iff, ==_self, Bool-cases, Option-cases,
  if◌then◌else◌,
}
use message_queue.Prelude.Go.{Go, returns, panics, ◌>>=◌}
use message_queue.Prelude.Dict.{Dict, get, delete, HasNot}
use message_queue.Prelude.Sub.{Sub}
use message_queue.Prelude.Text.{Text}
use message_queue.Protocol.{Bytes}
use message_queue.Broker.Channel.{
  Chan, make_chan, Received, message, ended, nothing, await, with_waited,
}
use message_queue.Broker.Registry.{
  Ref, Store, update, Registry, channels, register_consumer, unregister_consumer, RegistryError,
  send_all,
}
use message_queue.Broker.Registry.Broadcast.{
  elem, IsDistinct, AreOpen, reached, appended, Broadcasts, send_all-Broadcasts, AreOpen-update,
}
use message_queue.Broker.Registry.Lifecycle.{
  IsValid, AreOpen-elem, shut_chan, register_consumer-IsValid, unregister_consumer-IsValid,
}

-- `taken` is what the handler of a channel has received, and `log` all messages broadcast.
pub record System : Type 0 where
  pub store : Store
  pub registry : Registry
  pub taken : Ref → List Bytes
  pub log : List Bytes

pub data Event : Type 0 where
  registers : Text → Ref → ℕ → Event
  unregisters : Text → Event
  broadcasts : List Ref → Bytes → Event
  takes : Ref → Event

abbrev pub set : (Ref → List Bytes) → Ref → List Bytes → Ref → List Bytes
set f r ms = λ x. if x == r then ms else f x

abbrev pub after_take : System → Ref → Received → System
after_take s ch (message m c) = record s {
  store = update s.store ch c;
  taken = set s.taken ch (s.taken ch ++ (m ∷ []));
}
after_take s ch ended = record s { store = update s.store ch (with_waited false (s.store ch)) }
after_take s ch nothing = record s { store = update s.store ch (with_waited true (s.store ch)) }

-- A consumer registers with a new channel; where a place in the store is used again, what was there
-- is gone.
unfoldable pub apply : System → Event → Go System
apply s (registers id ch n) = returns (record s {
  store = update s.store ch (make_chan n);
  registry = register_consumer s.registry id ch;
  taken = set s.taken ch [];
})
apply s (unregisters id) = unregister_consumer s.store s.registry id >>= λ r.
    returns (record s { store = r.0; registry = r.1 })
apply s (broadcasts order msg) = send_all s.store order msg >>= λ r.
    returns (record s { store = r.0; log = s.log ++ (msg ∷ []) })
apply s (takes ch) = returns (after_take s ch (await (s.store ch)))

-- What the code guarantees of its calls: identifiers and channels are fresh, and a broadcast reads
-- each channel of the map once at most.
abbrev pub Enabled : System → Event → Type 0
Enabled s (registers id ch n) = HasNot id s.registry × (elem ch (channels s.registry) ≡ false)
Enabled s (unregisters id) = Unit {0}
Enabled s (broadcasts order msg) =
    IsDistinct order × All (λ x. elem x (channels s.registry) ≡ true) order
Enabled s (takes ch) = Unit {0}

pub data Reaches (s : System) : System → Type 0 where
  here : Reaches s s
  step :
      (t u : System) (e : Event) → Reaches s t → Enabled t e → apply t e ≡ returns u → Reaches s u

pub record Ok (s : System) : Type 0 where
  pub valid : IsValid s.store s.registry
  pub in_order : (x : Ref) → Sub (s.taken x ++ (s.store x).buffer) s.log

-- A step does not panic and leads to such a state again.
pub record Steps (s : System) (e : Event) : Type 0 where
  pub after : System
  pub answer : apply s e ≡ returns after
  pub ok : Ok after
