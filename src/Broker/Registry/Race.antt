-- ===== src/Broker/Registry/Race.antt =====
-- The second phase of `BroadcastMessage` against `UnregisterConsumer`: the registry's lock is not
-- held while the message is sent.
use message_queue.Prelude.{◌≡◌, true, false, some, List, [], ◌∷◌, ◌++◌, arith, ==_self}
use message_queue.Prelude.Go.{returns, panics}
use message_queue.Prelude.Dict.{get, delete}
use message_queue.Prelude.Text.{Text}
use message_queue.Protocol.{Bytes}
use message_queue.Broker.Channel.{Chan, has_room, offer}
use message_queue.Broker.Registry.{Ref, Store, update, Registry, send_all, unregister_consumer}
use message_queue.Broker.Registry.Broadcast.{
  appended, elem, IsDistinct, AreOpen, AreOpen-update, offer-room,
}
use message_queue.Broker.Registry.Lifecycle.{IsValid, shut_chan, unregister_consumer-IsValid}

abbrev pub HaveRoom : Store → List Ref → Type 0
HaveRoom s [] = Unit {0}
HaveRoom s (r ∷ rs) = (has_room (s r) ≡ true) × HaveRoom s rs

HaveRoom-update :
    (s : Store) (r : Ref) (c : Chan) (rs : List Ref)
    → elem r rs ≡ false
    → HaveRoom s rs
    → HaveRoom (update s r c) rs
HaveRoom-update s r c [] h o = tt
HaveRoom-update s r c (x ∷ rs) h o = ground (arith, HaveRoom-update s r c rs)

offer-closed : (c : Chan) (msg : Bytes) → c.closed ≡ true → offer c msg ≡ panics
unfolding offer
offer-closed c msg h = ground arith

-- A closed channel among those to be sent to, with room in front of it.
send_all_closed :
    (s : Store) (front back : List Ref) (ch : Ref) (msg : Bytes)
    → (s ch).closed ≡ true
    → elem ch front ≡ false
    → IsDistinct front
    → AreOpen s front
    → HaveRoom s front
    → send_all s (front ++ (ch ∷ back)) msg ≡ panics
unfolding send_all
send_all_closed s [] back ch msg c n d o room = rw (offer-closed (s ch) msg c)
send_all_closed s (r ∷ front) back ch msg c n d o room =
    let s' : Store = update s r (appended (s r) msg) in
    let c' : (s' ch).closed ≡ true = ground arith in
    rw (offer-room (s r) msg o.0 room.0) (
      send_all_closed s' front back ch msg c' (ground arith) d.1
        (AreOpen-update s r (appended (s r) msg) front d.0 o.1)
        (HaveRoom-update s r (appended (s r) msg) front d.0 room.1))

-- The race of `BroadcastMessage`: its second phase runs without the lock. If a consumer of a valid
-- registry, whose channel was copied out of the map, unregisters in between, and the channels in
-- front of its own are open, listed once and have room, the send on the closed channel panics.
pub send_all_race :
    (s : Store) (reg : Registry) (id : Text) (ch : Ref) (front back : List Ref) (msg : Bytes)
    → IsValid s reg
    → get reg id ≡ some ch
    → elem ch front ≡ false
    → IsDistinct front
    → AreOpen s front
    → HaveRoom s front
    → (after : Store) × (rest : Registry) × (unregister_consumer s reg id ≡ returns (after, rest))
      × (send_all after (front ++ (ch ∷ back)) msg ≡ panics)
send_all_race s reg id ch front back msg v found n d o room =
    let s' : Store = update s ch (shut_chan (s ch)) in
    let closed : (s' ch).closed ≡ true = rw (==_self ch) in
    (
      s',
      delete reg id,
      (unregister_consumer-IsValid s reg id ch v found).0,
      send_all_closed s' front back ch msg closed n d
          (AreOpen-update s ch (shut_chan (s ch)) front n o)
          (HaveRoom-update s ch (shut_chan (s ch)) front n room),
    )
