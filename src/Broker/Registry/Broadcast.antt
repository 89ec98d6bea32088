-- ===== src/Broker/Registry/Broadcast.antt =====
-- What `BroadcastMessage` does to the channels.
use message_queue.Prelude.{
  ◌≡◌, refl, ◌∙◌, inl, inr, Bool, true, false, ◌||◌, Option, none, some, List, [], ◌∷◌, ◌++◌, arith,
  ◌==◌, ==_iff, ==_self, Bool-cases, if◌then◌else◌,
}
use message_queue.Prelude.Go.{returns}
use message_queue.Protocol.{Bytes}
use message_queue.Broker.Channel.{Chan, has_room, offer}
use message_queue.Broker.Registry.{Ref, Store, update, RegistryError, channel_full, send_all}

abbrev pub appended : Chan → Bytes → Chan
appended c msg = record c { buffer = c.buffer ++ (msg ∷ []) }

abbrev pub elem : Ref → List Ref → Bool
elem x [] = false
elem x (r ∷ rs) = x == r || elem x rs

abbrev pub IsDistinct : List Ref → Type 0
IsDistinct [] = Unit {0}
IsDistinct (r ∷ rs) = (elem r rs ≡ false) × IsDistinct rs

abbrev pub AreOpen : Store → List Ref → Type 0
AreOpen s [] = Unit {0}
AreOpen s (r ∷ rs) = ((s r).closed ≡ false) × AreOpen s rs

-- The channels in front of the first full one.
unfoldable pub reached : Store → List Ref → List Ref
reached s [] = []
reached s (r ∷ rs) = if has_room (s r) then r ∷ reached s rs else []

-- Whether the loop meets a full channel.
pub meets_full : Store → List Ref → Bool
meets_full s [] = false
meets_full s (r ∷ rs) = if has_room (s r) then meets_full s rs else true

-- The specification: each channel in front of the first full one has the message, once and at its
-- end; no other channel changes; an error is answered exactly when there was a full one.
pub record Broadcasts (s : Store) (order : List Ref) (msg : Bytes) : Type 0 where
  pub after : Store
  pub error : Option RegistryError
  pub eq : send_all s order msg ≡ returns (after, error)
  pub error_eq : error ≡ (if meets_full s order then some channel_full else none)
  pub effect : (x : Ref) → after x ≡ (if elem x (reached s order) then appended (s x) msg else s x)

module _ (s : Store) (r : Ref) (c : Chan) where
  pub AreOpen-update :
      (rs : List Ref) → elem r rs ≡ false → AreOpen s rs → AreOpen (update s r c) rs
  AreOpen-update [] h o = tt
  AreOpen-update (x ∷ rs) h o = ground (arith, AreOpen-update rs)

  reached-update : (rs : List Ref) → elem r rs ≡ false → reached (update s r c) rs ≡ reached s rs
  unfolding reached
  reached-update [] h = refl
  reached-update (x ∷ rs) h = ground (arith, reached-update rs)

  meets_full-update :
      (rs : List Ref) → elem r rs ≡ false → meets_full (update s r c) rs ≡ meets_full s rs
  unfolding meets_full
  meets_full-update [] h = refl
  meets_full-update (x ∷ rs) h = ground (arith, meets_full-update rs)

elem-reached :
    (s : Store) (x : Ref) (rs : List Ref) → elem x rs ≡ false → elem x (reached s rs) ≡ false
unfolding reached
elem-reached s x [] h = refl
elem-reached s x (r ∷ rs) h = ground (arith, elem-reached s x rs)

pub offer-room :
    (c : Chan) (msg : Bytes)
    → c.closed ≡ false
    → has_room c ≡ true
    → offer c msg ≡ returns (some (appended c msg))
unfolding offer
offer-room c msg o h = ground arith

pub offer-full :
    (c : Chan) (msg : Bytes) → c.closed ≡ false → has_room c ≡ false → offer c msg ≡ returns none
unfolding offer
offer-full c msg o h = ground arith

-- Delivering to `r` first and to those reached behind it, or to all of them.
effect_cons :
    (s : Store) (r x : Ref) (rs : List Ref) (msg : Bytes)
    → elem r rs ≡ false
    → (if elem x rs
        then appended (update s r (appended (s r) msg) x) msg
        else update s r (appended (s r) msg) x)
      ≡ (if elem x (r ∷ rs) then appended (s x) msg else s x)
effect_cons s r x rs msg h = elim (Bool-cases (x == r)) [
  | inl same ↦ let e : x ≡ r = (==_iff x r).0 same in rw (e, h, ==_self r) refl
  | inr other ↦ rw other refl
]

pub send_all-Broadcasts :
    (s : Store) (order : List Ref) (msg : Bytes)
    → IsDistinct order
    → AreOpen s order
    → Broadcasts s order msg
unfolding send_all reached meets_full
send_all-Broadcasts s [] msg d o = record {
  after = s;
  error = none;
  eq = refl;
  error_eq = refl;
  effect = λ x. refl;
}
send_all-Broadcasts s (r ∷ rs) msg d o = elim (Bool-cases (has_room (s r))) [
  | inl room ↦
      let s' : Store = update s r (appended (s r) msg) in
      let ih =
        send_all-Broadcasts s' rs msg d.1 (AreOpen-update s r (appended (s r) msg) rs d.0 o.1) in
      record {
        after = ih.after;
        error = ih.error;
        eq = rw (offer-room (s r) msg o.0 room) ih.eq;
        error_eq = ih.error_eq ∙ rw (room, meets_full-update s r (appended (s r) msg) rs d.0);
        effect = λ x.
            ih.effect x
            ∙ rw (room, reached-update s r (appended (s r) msg) rs d.0)
                (effect_cons s r x (reached s rs) msg (elem-reached s r rs d.0));
      }
  | inr full ↦ record {
    after = s;
    error = some channel_full;
    eq = rw (offer-full (s r) msg o.0 full);
    error_eq = rw full;
    effect = λ x. rw full;
  }
]
