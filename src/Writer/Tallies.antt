-- ===== src/Writer/Tallies.antt =====
-- The tables of `Writer` agree with the messages that it has written, after every operation.
use mcap.Prelude.{
  ℕ, ◌+◌, ◌≡◌, refl, ◌∙◌, Bool, true, false, Option, none, some, inl, inr, List, [], ◌∷◌, ◌++◌,
  append-nil, arith, length, length-append, Bool-cases, not, ltb, ◌==◌, ◌&&◌,
}
use mcap.Error.{
  Bytes, Result, ok, err, panic, stuck, too_many_schemas, too_many_channels, conflicting_schemas,
}
use mcap.BiMap.{BiMap}
use mcap.Registry
use mcap.Registry.{Registered, contains}
use mcap.Records.{Record, MessageHeader, message, unknown}
use mcap.Records.Maps.{nat_order}
use mcap.Channels.{Schema, Channel}
use mcap.Writer.{
  emit_in, emit, counted, Mode, open_, attaching, lost, finished, SchemaContent, ChannelContent,
  Message, Writer, new, widen, count_of, count_one, total, emit_if, schema_record, channel_record,
  schema_registered, channel_registered, add_schema, add_channel_unless, add_channel,
  write_to_known_channel, write_own_schema, write_own_channel, content_of, schema_content, write,
  write_private_record, statistics_of, bounds_or_zero,
}
use mcap.Writer
use mcap.Writer.Counts.{times, times-append, total-count_one, Spans, Spans-widen}

module _ (bs : BiMap SchemaContent) (bc : BiMap ChannelContent) (checks : Bool) where
  -- The tables of a writer with no attachment in progress agree with what it has written.
  pub record Tallies (w : Writer bs bc checks) : Type 0 where
    pub is_open : w.mode ≡ open_
    pub counted : total w.channel_message_counts ≡ length (times w.emitted)
    pub bounded : Spans w.message_bounds (times w.emitted)
    pub attached : w.attachment_count ≡ length w.attachments

  pub Tallies-new : Tallies (new bs bc checks)
  unfolding times total
  Tallies-new = record { is_open = refl; counted = refl; bounded = refl; attached = refl }

  times_quiet :
      (rs : List Record) (r : Record) → times (r ∷ []) ≡ [] → times (rs ++ (r ∷ [])) ≡ times rs
  times_quiet rs r e = times-append rs (r ∷ []) ∙ (rw e (append-nil (times rs)))

  -- a record that is no message
  Tallies-emit_in :
      (m : Mode) (r : Record) (w : Writer bs bc checks)
      → times (r ∷ []) ≡ []
      → Tallies w
      → Tallies (emit_in bs bc checks m r w).1
  unfolding emit_in
  Tallies-emit_in open_ r w e t = record {
    is_open = t.is_open;
    counted = rw (times_quiet w.emitted r e) t.counted;
    bounded = rw (times_quiet w.emitted r e) t.bounded;
    attached = t.attached;
  }
  Tallies-emit_in (attaching _ _ _) r w e t = t
  Tallies-emit_in lost r w e t = t
  Tallies-emit_in (finished _) r w e t = t

  pub Tallies-emit :
      (r : Record) (w : Writer bs bc checks)
      → times (r ∷ []) ≡ []
      → Tallies w
      → Tallies (emit bs bc checks r w).1
  unfolding emit
  Tallies-emit r w e t = Tallies-emit_in w.mode r w e t

  Tallies-emit_if :
      (b : Bool) (r : Record) (w : Writer bs bc checks)
      → times (r ∷ []) ≡ []
      → Tallies w
      → Tallies (emit_if bs bc checks b r w).1
  unfolding emit_if
  Tallies-emit_if true r w e t = Tallies-emit r w e t
  Tallies-emit_if false r w e t = t

  pub Tallies-bind :
      {A B : Type 0} (p : Result A × Writer bs bc checks)
      (f : A → Writer bs bc checks → Result B × Writer bs bc checks)
      → Tallies p.1
      → ((a : A) (w : Writer bs bc checks) → Tallies w → Tallies (f a w).1)
      → Tallies (Writer.◌>>=◌ bs bc checks p f).1
  unfolding Writer.◌>>=◌
  Tallies-bind (ok a, w) f t k = k a w t
  Tallies-bind (err e, w) f t k = t
  Tallies-bind (panic, w) f t k = t
  Tallies-bind (stuck, w) f t k = t

  Tallies-schema_registered :
      (s : SchemaContent) (r : Result (Registered bs)) (w : Writer bs bc checks)
      → Tallies w
      → Tallies (schema_registered bs bc checks s r w).1
  unfolding schema_registered times
  Tallies-schema_registered s (ok (id, fresh, r)) w t =
      Tallies-bind
        (emit_if bs bc checks fresh (schema_record bs bc checks id s) (record w { schemas = r }))
        (λ _ w'. (ok id, w'))
        (Tallies-emit_if fresh (schema_record bs bc checks id s) (record w { schemas = r }) refl
          (record {
            is_open = t.is_open;
            counted = t.counted;
            bounded = t.bounded;
            attached = t.attached;
          }))
        (λ _ w' t'. t')
  Tallies-schema_registered s (err e) w t = t
  Tallies-schema_registered s panic w t = t
  Tallies-schema_registered s stuck w t = t

  Tallies-channel_registered :
      (c : ChannelContent) (r : Result (Registered bc)) (w : Writer bs bc checks)
      → Tallies w
      → Tallies (channel_registered bs bc checks c r w).1
  unfolding channel_registered times
  Tallies-channel_registered c (ok (id, fresh, r)) w t =
      Tallies-bind
        (emit_if bs bc checks fresh (channel_record bs bc checks id c) (record w { channels = r }))
        (λ _ w'. (ok id, w'))
        (Tallies-emit_if fresh (channel_record bs bc checks id c) (record w { channels = r }) refl
          (record {
            is_open = t.is_open;
            counted = t.counted;
            bounded = t.bounded;
            attached = t.attached;
          }))
        (λ _ w' t'. t')
  Tallies-channel_registered c (err e) w t = t
  Tallies-channel_registered c panic w t = t
  Tallies-channel_registered c stuck w t = t

  pub Tallies-add_schema :
      (s : SchemaContent) (w : Writer bs bc checks)
      → Tallies w
      → Tallies (add_schema bs bc checks s w).1
  unfolding add_schema
  Tallies-add_schema s w t =
      Tallies-schema_registered s (Registry.add bs checks too_many_schemas w.schemas s)
        (record w {
          schemas =
              Registry.searched_to bs (Registry.add bs checks too_many_schemas w.schemas s)
                w.schemas;
        })
        (record {
          is_open = t.is_open;
          counted = t.counted;
          bounded = t.bounded;
          attached = t.attached;
        })

  Tallies-add_channel_unless :
      (c : ChannelContent) (o : Option ℕ) (w : Writer bs bc checks)
      → Tallies w
      → Tallies (add_channel_unless bs bc checks c o w).1
  unfolding add_channel_unless
  Tallies-add_channel_unless c (some id) w t = t
  Tallies-add_channel_unless c none w t =
      elim (Bool-cases (not (c.schema_id == 0) && not (contains c.schema_id w.schemas.ids))) [
        | inl e ↦ rw e t
        | inr e ↦ rw e (
            Tallies-channel_registered c
              (Registry.add_unless bc checks too_many_channels w.channels c none)
              (record w {
                channels =
                    Registry.searched_to bc
                      (Registry.add_unless bc checks too_many_channels w.channels c none)
                      w.channels;
              })
              (record {
                is_open = t.is_open;
                counted = t.counted;
                bounded = t.bounded;
                attached = t.attached;
              }))
      ]

  pub Tallies-add_channel :
      (c : ChannelContent) (w : Writer bs bc checks)
      → Tallies w
      → Tallies (add_channel bs bc checks c w).1
  unfolding add_channel
  Tallies-add_channel c w t =
      Tallies-add_channel_unless c (bc.get_by_left w.channels.canonical c) w t

  -- The message is counted already.
  Tallies-emit_message :
      (m : Mode) (h : MessageHeader) (bytes : Bytes) (w : Writer bs bc checks)
      → w.mode ≡ m
      → Tallies w
      → Tallies (emit_in bs bc checks m (message h bytes) (counted bs bc checks h w)).1
  unfolding emit_in counted times
  Tallies-emit_message open_ h bytes w e t = record {
    is_open = e;
    counted = total-count_one h.channel_id w.channel_message_counts ∙ one_more;
    bounded =
        rw (times-append w.emitted (message h bytes ∷ []))
          (Spans-widen w.message_bounds (times w.emitted) h.log_time t.bounded);
    attached = t.attached;
  }
    where
      one_more :
          total w.channel_message_counts + 1 ≡ length (times (w.emitted ++ (message h bytes ∷ [])))
      one_more =
          rw (times-append w.emitted (message h bytes ∷ []))
            (omega (arith, t.counted, length-append (times w.emitted) (h.log_time ∷ [])))
  Tallies-emit_message (attaching _ _ _) h bytes w e t = absurd (cc (e, t.is_open))
  Tallies-emit_message lost h bytes w e t = absurd (cc (e, t.is_open))
  Tallies-emit_message (finished _) h bytes w e t = absurd (cc (e, t.is_open))

  pub Tallies-write_to_known_channel :
      (h : MessageHeader) (bytes : Bytes) (w : Writer bs bc checks)
      → Tallies w
      → Tallies (write_to_known_channel bs bc checks h bytes w).1
  unfolding write_to_known_channel emit
  Tallies-write_to_known_channel h bytes w t =
      elim (Bool-cases (not (contains h.channel_id w.channels.ids))) [
        | inl e ↦ rw e t
        | inr e ↦ rw e (Tallies-emit_message w.mode h bytes w refl t)
      ]

  Tallies-write_own_schema :
      (o : Option Schema) (w : Writer bs bc checks)
      → Tallies w
      → Tallies (write_own_schema bs bc checks o w).1
  unfolding write_own_schema
  Tallies-write_own_schema none w t = t
  Tallies-write_own_schema (some s) w t =
      Tallies-bind {B = Unit {0}}
        (schema_registered bs bc checks (schema_content s)
          (Registry.enter bs (conflicting_schemas s.name) w.schemas s.id (schema_content s)) w)
        (λ _ w'. (ok tt, w'))
        (Tallies-schema_registered (schema_content s)
          (Registry.enter bs (conflicting_schemas s.name) w.schemas s.id (schema_content s)) w t)
        (λ _ w' t'. t')

  Tallies-write_own_channel :
      (c : Channel) (w : Writer bs bc checks)
      → Tallies w
      → Tallies (write_own_channel bs bc checks c w).1
  unfolding write_own_channel
  Tallies-write_own_channel c w t =
      Tallies-bind (channel_registered bs bc checks _ _ w) _ (Tallies-channel_registered _ _ w t)
        (λ _ w' t'. t')

  pub Tallies-write :
      (m : Message) (w : Writer bs bc checks) → Tallies w → Tallies (write bs bc checks m w).1
  unfolding write
  Tallies-write m w t =
      Tallies-bind (write_own_schema bs bc checks m.channel.schema w) _
        (Tallies-write_own_schema m.channel.schema w t)
        λ _ w' t'.
          Tallies-bind (write_own_channel bs bc checks m.channel w') _
            (Tallies-write_own_channel m.channel w' t')
            (λ _ w'' t''. Tallies-write_to_known_channel _ m.body w'' t'')

  pub Tallies-write_private_record :
      (op : ℕ) (bytes : Bytes) (w : Writer bs bc checks)
      → Tallies w
      → Tallies (write_private_record bs bc checks op bytes w).1
  unfolding write_private_record times
  Tallies-write_private_record op bytes w t = elim (Bool-cases (ltb op 0x80)) [
    | inl e ↦ rw e t
    | inr e ↦ rw e (Tallies-emit (unknown op bytes) w refl t)
  ]
