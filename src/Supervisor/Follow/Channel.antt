-- ===== src/Supervisor/Follow/Channel.antt =====
-- One channel among those of a log, and the queue that it is.
use gopm.Base.{
  ℕ, ◌≡◌, refl, ap, ◌∙◌, inl, inr, Option, none, some, List, [], ◌∷◌, map, arith, ltb, ◌==◌,
  if◌then◌else◌, Bool-cases, length, snoc,
}
use gopm.Logger.Registry.{LogEvent, EventChan, offer}
use gopm.Supervisor.Follow.{popped, take_from, sent_on}

-- A queue of lines; one that finds no room is lost.
pub record Queue : Type 0 where
  pub delivered : List LogEvent
  pub waiting : List LogEvent

abbrev pub put : ℕ → LogEvent → List LogEvent → List LogEvent
put room ev waiting = if ltb (length waiting) room then snoc waiting ev else waiting

abbrev pub deliver : List LogEvent → List LogEvent → Queue
deliver delivered [] = record { delivered = delivered; waiting = [] }
deliver delivered (ev ∷ waiting) = record { delivered = snoc delivered ev; waiting = waiting }

-- The first channel with a number.
abbrev pub find : ℕ → List EventChan → Option EventChan
find id [] = none
find id (ch ∷ chs) = let rest = find id chs in if ch.id == id then some ch else rest

-- The channel of the stream, with these events in it.
abbrev pub chan : ℕ → ℕ → List LogEvent → EventChan
chan room id queue = record { id = id; room = room; queue = queue }

id-offer : (ev : LogEvent) (ch : EventChan) → (offer ev ch).id ≡ ch.id
id-offer ev ch = elim (Bool-cases (ltb (length ch.queue) ch.room)) [
  | inl e ↦ rw e refl
  | inr e ↦ rw e refl
]

id-popped : (ch : EventChan) (queue : List LogEvent) → (popped ch queue).1.id ≡ ch.id
id-popped ch [] = refl
id-popped ch (ev ∷ queue) = refl

pub popped-chan :
    (room id : ℕ) (queue : List LogEvent)
    → (popped (chan room id queue) queue).1
      ≡ chan room id (popped (chan room id queue) queue).1.queue
popped-chan room id [] = refl
popped-chan room id (ev ∷ queue) = refl

-- The receipt is the delivery of the queue.
pub deliver-popped :
    (room id : ℕ) (delivered queue : List LogEvent)
    → let r = popped (chan room id queue) queue in
      deliver delivered queue ≡ record { delivered = sent_on delivered r.0; waiting = r.1.queue }
deliver-popped room id delivered [] = refl
deliver-popped room id delivered (ev ∷ queue) = refl

pub find-snoc :
    (room id : ℕ) (queue : List LogEvent) (chs : List EventChan)
    → find id chs ≡ none
    → find id (snoc chs (chan room id queue)) ≡ some (chan room id queue)
find-snoc room id queue [] h = ground arith
find-snoc room id queue (ch ∷ chs) h = elim (Bool-cases (ch.id == id)) [
  | inl e ↦ let k = rw e at h in absurd cc
  | inr e ↦ rw e (find-snoc room id queue chs (rw e at h))
]

offer-put :
    (room id : ℕ) (ev : LogEvent) (queue : List LogEvent)
    → offer ev (chan room id queue) ≡ chan room id (put room ev queue)
offer-put room id ev queue = elim (Bool-cases (ltb (length queue) room)) [
  | inl e ↦ rw e refl
  | inr e ↦ rw e refl
]

pub find-offer :
    (room id : ℕ) (ev : LogEvent) (queue : List LogEvent) (chs : List EventChan)
    → find id chs ≡ some (chan room id queue)
    → find id (map (offer ev) chs) ≡ some (chan room id (put room ev queue))
find-offer room id ev queue [] h = absurd cc
find-offer room id ev queue (ch ∷ chs) h = elim (Bool-cases (ch.id == id)) [
  | inl e ↦
      let k = rw e at h in
      let c : ch ≡ chan room id queue = cc in
      rw (id-offer ev ch, e) (ap some (ap (offer ev) c ∙ offer-put room id ev queue))
  | inr e ↦ rw (id-offer ev ch, e) (find-offer room id ev queue chs (rw e at h))
]

pub take_from-find :
    (room id : ℕ) (queue : List LogEvent) (chs : List EventChan)
    → find id chs ≡ some (chan room id queue)
    → let r = popped (chan room id queue) queue in
      ((take_from id chs).0 ≡ r.0) × (find id (take_from id chs).1 ≡ some r.1)
unfolding take_from
take_from-find room id queue [] h = absurd cc
take_from-find room id queue (ch ∷ chs) h = elim (Bool-cases (ch.id == id)) [
  | inl e ↦
      let k = rw e at h in
      let c : ch ≡ chan room id queue = cc in
      let p : popped ch ch.queue ≡ popped (chan room id queue) queue =
        ap (λ (z : EventChan). popped z z.queue) c in
      rw e (ap (λ r. r.0) p, rw (id-popped ch ch.queue, e) (ap (λ r. some r.1) p))
  | inr e ↦ rw (e, e) (take_from-find room id queue chs (rw e at h))
]
