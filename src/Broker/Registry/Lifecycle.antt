-- ===== src/Broker/Registry/Lifecycle.antt =====
-- Consumers that come and go: `RegisterConsumer`, `UnregisterConsumer` and `Close`.
use message_queue.Prelude.{
  ◌+◌, ◌≡◌, refl, ◌∙◌, inl, inr, true, false, ◌||◌, some, List, [], ◌∷◌, ◌++◌, length, arith, ◌==◌,
  ==_iff, ==_self, Bool-cases, if◌then◌else◌,
}
use message_queue.Prelude.Go.{returns}
use message_queue.Prelude.Dict.{
  get, put, delete, HasNot, IsDict, get-put_self, put-IsDict, delete-IsDict,
}
use message_queue.Prelude.Text.{Text}
use message_queue.Broker.Channel.{Chan, close_chan}
use message_queue.Broker.Registry.{
  Ref, Store, update, Registry, channels, register_consumer, unregister_consumer,
  get_consumer_count, close_all,
}
use message_queue.Broker.Registry.Broadcast.{elem, IsDistinct, AreOpen, AreOpen-update}

-- What the registry relies on: each consumer has a channel of its own, and it is open.
pub record IsValid (s : Store) (reg : Registry) : Type 0 where
  pub keys : IsDict reg
  pub distinct : IsDistinct (channels reg)
  pub live : AreOpen s (channels reg)

channels-put :
    (reg : Registry) (id : Text) (ch : Ref)
    → HasNot id reg
    → channels (put reg id ch) ≡ channels reg ++ (ch ∷ [])
unfolding put
channels-put [] id ch h = refl
channels-put ((j, c) ∷ reg) id ch h = ground (arith, channels-put reg id ch h.1)

length-put :
    (reg : Registry) (id : Text) (ch : Ref)
    → HasNot id reg
    → length (put reg id ch) ≡ length reg + 1
unfolding put
length-put [] id ch h = omega arith
length-put ((j, c) ∷ reg) id ch h = ground (arith, length-put reg id ch h.1)

IsDistinct-snoc :
    (rs : List Ref) (r : Ref) → IsDistinct rs → elem r rs ≡ false → IsDistinct (rs ++ (r ∷ []))
IsDistinct-snoc [] r d h = (refl, tt)
IsDistinct-snoc (x ∷ rs) r d h =
    ground (arith, IsDistinct-snoc rs r d.1, elem-snoc rs x r, ==_iff x r, ==_iff r x)
  where
    elem-snoc : (rs : List Ref) (x r : Ref) → elem x (rs ++ (r ∷ [])) ≡ (elem x rs || x == r)
    elem-snoc [] x r = ground arith
    elem-snoc (y ∷ rs) x r = ground (arith, elem-snoc rs x r)

AreOpen-snoc :
    (s : Store) (rs : List Ref) (r : Ref)
    → AreOpen s rs
    → (s r).closed ≡ false
    → AreOpen s (rs ++ (r ∷ []))
AreOpen-snoc s [] r o h = (h, tt)
AreOpen-snoc s (x ∷ rs) r o h = (o.0, AreOpen-snoc s rs r o.1 h)

-- Registering a fresh identifier with a fresh open channel keeps the registry valid, adds one to the
-- count, and the channel is found under the identifier.
pub register_consumer-IsValid :
    (s : Store) (reg : Registry) (id : Text) (ch : Ref)
    → IsValid s reg
    → HasNot id reg
    → elem ch (channels reg) ≡ false
    → (s ch).closed ≡ false
    → IsValid s (register_consumer reg id ch)
      × (get_consumer_count (register_consumer reg id ch) ≡ get_consumer_count reg + 1)
      × (get (register_consumer reg id ch) id ≡ some ch)
unfolding register_consumer get_consumer_count
register_consumer-IsValid s reg id ch v new_id new_ch live = (
  record {
    keys = put-IsDict reg id ch v.keys;
    distinct =
        rw (channels-put reg id ch new_id) (IsDistinct-snoc (channels reg) ch v.distinct new_ch);
    live = rw (channels-put reg id ch new_id) (AreOpen-snoc s (channels reg) ch v.live live);
  },
  length-put reg id ch new_id,
  get-put_self reg id ch,
)

elem-get :
    (reg : Registry) (id : Text) (ch : Ref) → get reg id ≡ some ch → elem ch (channels reg) ≡ true
unfolding get
elem-get [] id ch h = cc
elem-get ((j, c) ∷ reg) id ch h = ground (arith, elem-get reg id ch, ==_self ch)

pub AreOpen-elem :
    (s : Store) (rs : List Ref) (r : Ref) → elem r rs ≡ true → AreOpen s rs → (s r).closed ≡ false
AreOpen-elem s [] r h o = cc
AreOpen-elem s (x ∷ rs) r h o = elim (Bool-cases (r == x)) [
  | inl same ↦ let e : r ≡ x = (==_iff r x).0 same in rw e o.0
  | inr other ↦ AreOpen-elem s rs r (rw other at h) o.1
]

module _ (id : Text) where
  elem-delete :
      (reg : Registry) (r : Ref)
      → elem r (channels reg) ≡ false
      → elem r (channels (delete reg id)) ≡ false
  unfolding delete
  elem-delete [] r h = refl
  elem-delete ((j, c) ∷ reg) r h = ground (arith, elem-delete reg r)

  IsDistinct-delete :
      (reg : Registry) → IsDistinct (channels reg) → IsDistinct (channels (delete reg id))
  unfolding delete
  IsDistinct-delete [] d = tt
  IsDistinct-delete ((j, c) ∷ reg) d =
      ground (arith, IsDistinct-delete reg d.1, elem-delete reg c d.0)

  AreOpen-delete :
      (s : Store) (reg : Registry) → AreOpen s (channels reg) → AreOpen s (channels (delete reg id))
  unfolding delete
  AreOpen-delete s [] o = tt
  AreOpen-delete s ((j, c) ∷ reg) o = ground (arith, AreOpen-delete s reg o.1)

  deleted-elem :
      (reg : Registry) (ch : Ref)
      → IsDistinct (channels reg)
      → get reg id ≡ some ch
      → elem ch (channels (delete reg id)) ≡ false
  unfolding get delete
  deleted-elem [] ch d h = refl
  deleted-elem ((j, c) ∷ reg) ch d h =
      ground (arith, deleted-elem reg ch d.1, elem-get reg id ch, ==_iff ch c)

-- A channel that is closed; what is in its buffer can still be received.
abbrev pub shut_chan : Chan → Chan
shut_chan c = record c { closed = true }

-- Unregistering a consumer of a valid registry does not panic: it closes that consumer's channel and
-- no other, takes the identifier out, and keeps the registry valid.
pub unregister_consumer-IsValid :
    (s : Store) (reg : Registry) (id : Text) (ch : Ref)
    → IsValid s reg
    → get reg id ≡ some ch
    → (unregister_consumer s reg id ≡ returns (update s ch (shut_chan (s ch)), delete reg id))
      × IsValid (update s ch (shut_chan (s ch))) (delete reg id)
      × (elem ch (channels (delete reg id)) ≡ false)
unfolding unregister_consumer close_chan
unregister_consumer-IsValid s reg id ch v found =
    let open_ch = AreOpen-elem s (channels reg) ch (elem-get reg id ch found) v.live in
    let gone = deleted-elem id reg ch v.distinct found in
    (
      rw (found, unregister_consumer, open_ch),
      record {
        keys = delete-IsDict reg id v.keys;
        distinct = IsDistinct-delete id reg v.distinct;
        live =
            AreOpen-update s ch (shut_chan (s ch)) (channels (delete reg id)) gone
              (AreOpen-delete id s reg v.live);
      },
      gone,
    )

-- `Close` on a registry whose channels are open and different does not panic: it leaves the
-- registry empty, closes every channel that was registered, and touches no other.
pub close_all_lem :
    (s : Store) (reg : Registry)
    → IsDistinct (channels reg)
    → AreOpen s (channels reg)
    → (after : Store) × (close_all s reg ≡ returns (after, []))
      × ((x : Ref) → after x ≡ (if elem x (channels reg) then shut_chan (s x) else s x))
unfolding close_all close_chan
close_all_lem s [] d o = (s, refl, λ x. refl)
close_all_lem s ((id, ch) ∷ reg) d o =
    let s' : Store = update s ch (shut_chan (s ch)) in
    let (after, eq, effect) =
      close_all_lem s' reg d.1 (AreOpen-update s ch (shut_chan (s ch)) (channels reg) d.0 o.1) in
    (after, rw o.0 eq, λ x. effect x ∙ close_cons x)
  where
    close_cons :
        (x : Ref)
        → (if elem x (channels reg)
            then shut_chan (update s ch (shut_chan (s ch)) x)
            else update s ch (shut_chan (s ch)) x)
          ≡ (if elem x (ch ∷ channels reg) then shut_chan (s x) else s x)
    close_cons x = elim (Bool-cases (x == ch)) [
      | inl same ↦ let e : x ≡ ch = (==_iff x ch).0 same in rw (e, d.0, ==_self ch) refl
      | inr other ↦ rw other refl
    ]
