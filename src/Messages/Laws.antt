-- ===== src/Messages/Laws.antt =====
-- What a message stream yields.
use mcap.Prelude.{
  ◌≡◌, refl, Bool-cases, inl, inr, Bool, true, false, Option, none, some, List, [], ◌∷◌,
  if◌then◌else◌,
}
use mathlib.Core.Path.{subst}
use mcap.Error.{Result, ok, err, panic, stuck}
use mcap.Records.{Record, schema, channel, message}
use mcap.HashMap
use mcap.Channels
use mcap.Channels.{ChannelAccumulator, Channel, add_schema, add_channel}
use mcap.Channels.Laws.{IsConsistent, add_schema-IsConsistent, add_channel-IsConsistent}
use mcap.Messages.{
  RawMessage, Message, RawMessageStream, Looped, next_loop, is_message, next_raw, with_channel,
  resolve, next,
}

abbrev loop_after_schema :
    List (Result Record) → ChannelAccumulator → Result ChannelAccumulator → Looped
loop_after_schema rest acc r = elim r [
  | ok acc' ↦ next_loop rest acc'
  | err e ↦ (some (err e), rest, acc)
  | panic ↦ (some panic, rest, acc)
  | stuck ↦ (some stuck, rest, acc)
]

after_add :
    (rest : List (Result Record)) (acc : ChannelAccumulator) (r : Result ChannelAccumulator)
    → IsConsistent acc
    → ((acc' : ChannelAccumulator) → r ≡ ok acc' → IsConsistent (next_loop rest acc').2)
    → IsConsistent (loop_after_schema rest acc r).2
after_add rest acc (ok acc') c k = k acc' refl
after_add rest acc (err e) c k = c
after_add rest acc panic c k = c
after_add rest acc stuck c k = c

next_loop-IsConsistent :
    (records : List (Result Record)) (acc : ChannelAccumulator)
    → IsConsistent acc
    → IsConsistent (next_loop records acc).2
unfolding next_loop
next_loop-IsConsistent [] acc c = c
next_loop-IsConsistent (ok (schema h bytes) ∷ rest) acc c =
    after_add rest acc (add_schema acc h bytes) c
      λ acc' e. next_loop-IsConsistent rest acc' (add_schema-IsConsistent acc h bytes e c)
next_loop-IsConsistent (ok (channel ch) ∷ rest) acc c =
    after_add rest acc (add_channel acc ch) c
      λ acc' e. next_loop-IsConsistent rest acc' (add_channel-IsConsistent acc ch e c)
next_loop-IsConsistent (ok (message h bytes) ∷ rest) acc c = c
next_loop-IsConsistent (ok _ ∷ rest) acc c = next_loop-IsConsistent rest acc c
next_loop-IsConsistent (err e ∷ rest) acc c = c
next_loop-IsConsistent (panic ∷ rest) acc c = c
next_loop-IsConsistent (stuck ∷ rest) acc c = c

pub next_raw-IsConsistent :
    (s : RawMessageStream) → IsConsistent s.channeler → IsConsistent (next_raw s).1.channeler
unfolding next_raw
next_raw-IsConsistent s c = elim (Bool-cases s.done) [
  | inl e ↦ simp e c
  | inr e ↦ simp e (next_loop-IsConsistent s.records s.channeler c)
]

resolve_state : (x : Option (Result RawMessage) × RawMessageStream) → (resolve x).1 ≡ x.1
unfolding resolve
resolve_state (some (ok m), s) = refl
resolve_state (some (err e), s) = refl
resolve_state (some panic, s) = refl
resolve_state (some stuck, s) = refl
resolve_state (none, s) = refl

-- `MessageStream` leaves the raw stream as its `next` leaves it.
next_state : (s : RawMessageStream) → (next s).1 ≡ (next_raw s).1
unfolding next
next_state s = resolve_state (next_raw s)

-- Each call of `next` keeps the stream's accumulator consistent, whatever records come.
pub next-IsConsistent :
    (s : RawMessageStream) → IsConsistent s.channeler → IsConsistent (next s).1.channeler
next-IsConsistent s c = rw next_state (next_raw-IsConsistent s c)

-- `m` is the raw message that was yielded, with the channel that is stored under its channel id.
pub record Resolved (x : Option (Result RawMessage) × RawMessageStream) (m : Message) : Type 0 where
  pub raw : RawMessage
  pub yielded : x.0 ≡ some (ok raw)
  pub stored : Channels.get x.1.channeler raw.header.channel_id ≡ some m.channel
  pub id : m.channel.id ≡ raw.header.channel_id
  pub sequence : m.sequence ≡ raw.header.sequence
  pub log_time : m.log_time ≡ raw.header.log_time
  pub publish_time : m.publish_time ≡ raw.header.publish_time
  pub body : m.body ≡ raw.body

some_ok_cong : {A : Type 0} {x y : A} → some (ok x) ≡ some (ok y) → x ≡ y
some_ok_cong e = cc

resolve-Resolved :
    (x : Option (Result RawMessage) × RawMessageStream) (m : Message)
    → IsConsistent x.1.channeler
    → (resolve x).0 ≡ some (ok m)
    → Resolved x m
unfolding resolve with_channel Channels.get
resolve-Resolved (some (ok r), s) m c h =
    go (HashMap.get r.header.channel_id s.channeler.channels) refl h
  where
    go :
        (o : Option Channel)
        → HashMap.get r.header.channel_id s.channeler.channels ≡ o
        → some (with_channel r o) ≡ some (ok m)
        → Resolved (some (ok r), s) m
    go none e k = absurd (cc k)
    go (some ch) e k =
        subst (λ (q : Message). Resolved (some (ok r), s) q) (some_ok_cong k)
          (record {
            raw = r;
            yielded = refl;
            stored = e;
            id = (c.channel_at r.header.channel_id ch e).0;
            sequence = refl;
            log_time = refl;
            publish_time = refl;
            body = refl;
          })
resolve-Resolved (some (err e), s) m c h = absurd (cc h)
resolve-Resolved (some panic, s) m c h = absurd (cc h)
resolve-Resolved (some stuck, s) m c h = absurd (cc h)
resolve-Resolved (none, s) m c h = absurd (cc h)

-- From a consistent state, a message that `next` yields is the raw message that the raw stream
-- yields, with its sequence, times and data, and its channel is the one stored under the channel
-- id of the raw message.
pub next-Resolved :
    (s : RawMessageStream) (m : Message)
    → IsConsistent s.channeler
    → (next s).0 ≡ some (ok m)
    → Resolved (next_raw s) m
next-Resolved s m c h =
    resolve-Resolved (next_raw s) m (next_raw-IsConsistent s c) (unfold next in h)

next_raw_done :
    (s : RawMessageStream) → is_message (next_raw s).0 ≡ false → (next_raw s).1.done ≡ true
unfolding next_raw
next_raw_done s h = elim (Bool-cases s.done) [
  | inl e ↦ simp e
  | inr e ↦ simp e (stopped (is_message (next_loop s.records s.channeler).0) (simp e at h))
]
  where
    stopped : (b : Bool) → b ≡ false → (if b then false else true) ≡ true
    stopped b k = rw k

next_after_done : (s : RawMessageStream) → s.done ≡ true → next s ≡ (none, s)
unfolding next next_raw
next_after_done s e = simp e

-- After a call whose raw stream yields no message, the next call yields nothing and changes
-- nothing.
pub next_fused :
    (s : RawMessageStream)
    → is_message (next_raw s).0 ≡ false
    → next (next s).1 ≡ (none, (next s).1)
next_fused s h = next_after_done (next s).1 (rw next_state (next_raw_done s h))
