-- ===== src/Channels/Laws.antt =====
-- What the accumulator keeps.
use mcap.Prelude.{
  ℕ, ◌≡◌, ◌≢◌, ◌⊎◌, refl, ◌∙◌, ap, Bool, true, false, Option, none, some, List, arith, ◌==◌, ==→eq,
  if◌then◌else◌, inl, inr,
}
use mcap.Error.{Bytes, Result, ok, err, panic, stuck, invalid_schema_id, ◌>>=◌}
use mcap.HashMap
use mcap.HashMap.{
  get-insert, get-insert_fresh, get-insert_self, bytes_eq→eq, bytes_eq_refl, map_eq→eq, map_eq_refl,
  bytes_eq, map_eq,
}
use mcap.Records
use mcap.Records.{SchemaHeader}
use mcap.Channels.{
  Schema, Channel, ChannelAccumulator, no_channels, same_schema, enter_schema, add_schema,
  schema_id_of, same_channel, enter_channel, known_schema, find_schema, add_channel, get,
}

-- The schema of a channel is the one that is stored under its id.
abbrev pub IsStored : List (ℕ × Schema) → Option Schema → Type 0
IsStored m none = Unit
IsStored m (some s) = HashMap.get s.id m ≡ some s

pub record IsConsistent (acc : ChannelAccumulator) : Type 0 where
  pub schema_at : (k : ℕ) (s : Schema) → HashMap.get k acc.schemas ≡ some s → (s.id ≡ k) × (k ≢ 0)
  pub channel_at :
      (k : ℕ) (c : Channel)
      → HashMap.get k acc.channels ≡ some c
      → (c.id ≡ k) × IsStored acc.schemas c.schema

pub IsConsistent-empty : IsConsistent no_channels
unfolding HashMap.get
IsConsistent-empty = record { schema_at = λ k s h. cc; channel_at = λ k c h. cc }

-- What is stored stays as it is.
pub record Extends (acc acc' : ChannelAccumulator) : Type 0 where
  pub schemas :
      (k : ℕ) (s : Schema)
      → HashMap.get k acc.schemas ≡ some s
      → HashMap.get k acc'.schemas ≡ some s
  pub channels :
      (k : ℕ) (c : Channel)
      → HashMap.get k acc.channels ≡ some c
      → HashMap.get k acc'.channels ≡ some c

module _ (acc : ChannelAccumulator) (h : SchemaHeader) (bytes : Bytes) {acc' : ChannelAccumulator}
    (added : add_schema acc h bytes ≡ ok acc') where
  id_nonzero : h.id ≢ 0
  unfolding add_schema
  id_nonzero = ground arith

  abbrev new_schema : Schema
  new_schema = record { id = h.id; name = h.name; encoding = h.encoding; body = bytes }

  -- The schema was there already, or its id is new.
  abbrev SchemaOutcome : Type 0
  SchemaOutcome =
      ((s : Schema) × (HashMap.get h.id acc.schemas ≡ some s)
        × (same_schema s h bytes ≡ true)
        × (acc' ≡ acc))
      ⊎ ((HashMap.get h.id acc.schemas ≡ none)
          × (acc' ≡ record acc { schemas = HashMap.insert h.id new_schema acc.schemas }))

  schema_outcome : SchemaOutcome
  unfolding add_schema
  schema_outcome = go (HashMap.get h.id acc.schemas) refl added
    where
      go :
          (o : Option Schema)
          → HashMap.get h.id acc.schemas ≡ o
          → (if h.id == 0 then err invalid_schema_id else enter_schema acc h bytes o) ≡ ok acc'
          → SchemaOutcome
      go none e k = inr (e, ground arith)
      go (some s) e k = inl (s, e, ground arith, ground arith)

  stored :
      (o : Option Schema)
      → HashMap.get h.id acc.schemas ≡ none
      → IsStored acc.schemas o
      → IsStored (HashMap.insert h.id new_schema acc.schemas) o
  stored none fresh k = tt
  stored (some s) fresh k = get-insert_fresh h.id s.id new_schema s acc.schemas fresh k

  -- A schema record that is accepted keeps the accumulator consistent.
  pub add_schema-IsConsistent : IsConsistent acc → IsConsistent acc'
  add_schema-IsConsistent c = elim schema_outcome [
    | inl (s, _, _, e) ↦ rw e c
    | inr (fresh, e) ↦ rw e (record {
      schema_at = λ k s g.
          ground (arith, get-insert h.id k new_schema acc.schemas, c.schema_at k s, id_nonzero);
      channel_at =
          λ k ch g. ((c.channel_at k ch g).0, stored ch.schema fresh (c.channel_at k ch g).1);
    })
  ]

  pub add_schema-Extends : Extends acc acc'
  add_schema-Extends = elim schema_outcome [
    | inl (s, _, _, e) ↦ rw e (record { schemas = λ k s h. h; channels = λ k c h. h })
    | inr (fresh, e) ↦ rw e (record {
      schemas = λ k s g. get-insert_fresh h.id k new_schema s acc.schemas fresh g;
      channels = λ k c g. g;
    })
  ]

-- A stored channel has the content of the record.
pub record Holds (chan : Records.Channel) (ch : Channel) : Type 0 where
  pub id : ch.id ≡ chan.id
  pub topic : ch.topic ≡ chan.topic
  pub schema_id : schema_id_of ch.schema ≡ chan.schema_id
  pub message_encoding : ch.message_encoding ≡ chan.message_encoding
  pub metadata : ch.metadata ≡ chan.metadata

module _ (acc : ChannelAccumulator) (chan : Records.Channel) {acc' : ChannelAccumulator}
    (added : add_channel acc chan ≡ ok acc') where
  abbrev new_channel : Option Schema → Channel
  new_channel s = record {
    id = chan.id;
    topic = chan.topic;
    schema = s;
    message_encoding = chan.message_encoding;
    metadata = chan.metadata;
  }

  abbrev ChannelOutcome : Type 0
  ChannelOutcome =
      (s : Option Schema) × (find_schema acc chan ≡ ok s)
      × (((c : Channel) × (HashMap.get chan.id acc.channels ≡ some c)
            × (same_channel c chan ≡ true)
            × (acc' ≡ acc))
          ⊎ ((HashMap.get chan.id acc.channels ≡ none)
              × (acc'
                  ≡ record acc { channels = HashMap.insert chan.id (new_channel s) acc.channels })))

  channel_outcome : ChannelOutcome
  unfolding add_channel
  channel_outcome = go (find_schema acc chan) refl added
    where
      entered :
          (s : Option Schema) (o : Option Channel)
          → HashMap.get chan.id acc.channels ≡ o
          → find_schema acc chan ≡ ok s
          → enter_channel acc chan s o ≡ ok acc'
          → ChannelOutcome
      entered s none e f k = (s, f, inr (e, ground arith))
      entered s (some c) e f k = (s, f, inl (c, e, ground arith, ground arith))

      go :
          (r : Result (Option Schema))
          → find_schema acc chan ≡ r
          → (r >>= λ s. enter_channel acc chan s (HashMap.get chan.id acc.channels)) ≡ ok acc'
          → ChannelOutcome
      go (ok s) e k = entered s (HashMap.get chan.id acc.channels) refl e k
      go (err x) e k = cc
      go panic e k = cc
      go stuck e k = cc

  -- The schema that was found is the stored one, and has the id that the channel names.
  found_schema :
      (s : Option Schema)
      → IsConsistent acc
      → find_schema acc chan ≡ ok s
      → IsStored acc.schemas s × (schema_id_of s ≡ chan.schema_id)
  unfolding find_schema schema_id_of
  found_schema s c f = go s (HashMap.get chan.schema_id acc.schemas) refl f
    where
      go :
          (s : Option Schema) (o : Option Schema)
          → HashMap.get chan.schema_id acc.schemas ≡ o
          → (if chan.schema_id == 0 then ok none else known_schema chan o) ≡ ok s
          → IsStored acc.schemas s × (schema_id_of s ≡ chan.schema_id)
      go none none e k = (tt, ground arith)
      go none (some t) e k = (tt, ground arith)
      go (some s) none e k = absurd (ground arith)
      go (some s) (some t) e k =
          let at_id : HashMap.get chan.schema_id acc.schemas ≡ some s = ground arith in
          let same : s.id ≡ chan.schema_id = (c.schema_at chan.schema_id s at_id).0 in
          (ap (λ (n : ℕ). HashMap.get n acc.schemas) same ∙ at_id, same)

  -- When a channel record is accepted, every schema and channel that was stored stays as it was.
  pub add_channel-Extends : Extends acc acc'
  add_channel-Extends =
      let (s, f, outcome) = channel_outcome in
      elim outcome [
        | inl (c, _, _, e) ↦ rw e (record { schemas = λ k s h. h; channels = λ k c h. h })
        | inr (fresh, e) ↦ rw e (record {
          schemas = λ k s g. g;
          channels = λ k c g. get-insert_fresh chan.id k (new_channel s) c acc.channels fresh g;
        })
      ]

  channel_after :
      (c : IsConsistent acc) (s : Option Schema) (f : find_schema acc chan ≡ ok s) (k : ℕ)
      (ch : Channel) (b : Bool)
      → (chan.id == k) ≡ b
      → (if b then some (new_channel s) else HashMap.get k acc.channels) ≡ some ch
      → (ch.id ≡ k) × IsStored acc.schemas ch.schema
  channel_after c s f k ch true e g =
      let same : new_channel s ≡ ch = cc in rw (← same) (==→eq chan.id k e, (found_schema s c f).0)
  channel_after c s f k ch false e g = c.channel_at k ch g

  same_channel-Holds :
      (ch : Channel) → ch.id ≡ chan.id → same_channel ch chan ≡ true → Holds chan ch
  unfolding same_channel
  same_channel-Holds ch same h = record {
    id = same;
    topic = bytes_eq→eq ch.topic chan.topic (ground arith);
    schema_id = ground arith;
    message_encoding = bytes_eq→eq ch.message_encoding chan.message_encoding (ground arith);
    metadata = map_eq→eq ch.metadata chan.metadata (ground arith);
  }

  -- Once a consistent accumulator has accepted a channel record, `get` finds under its id a
  -- channel with the record's topic, schema id, encoding and metadata.
  pub add_channel-get :
      IsConsistent acc → (ch : Channel) × (get acc' chan.id ≡ some ch) × Holds chan ch
  unfolding get
  add_channel-get c =
      let (s, f, outcome) = channel_outcome in
      elim outcome [
        | inl (ch, e, same, unchanged) ↦
            (ch, rw unchanged e, same_channel-Holds ch (c.channel_at chan.id ch e).0 same)
        | inr (fresh, e) ↦ (
          new_channel s,
          rw e (get-insert_self chan.id (new_channel s) acc.channels),
          record {
            id = refl;
            topic = refl;
            schema_id = (found_schema s c f).1;
            message_encoding = refl;
            metadata = refl;
          },
        )
      ]

  -- A channel record that is accepted keeps the accumulator consistent: each schema and channel is
  -- stored under its own id, schema ids are not 0, and the schema of a channel is stored.
  pub add_channel-IsConsistent : IsConsistent acc → IsConsistent acc'
  add_channel-IsConsistent c =
      let (s, f, outcome) = channel_outcome in
      elim outcome [
        | inl (_, _, _, e) ↦ rw e c
        | inr (fresh, e) ↦ rw e (record {
          schema_at = c.schema_at;
          channel_at = λ k ch g. channel_after c s f k ch (chan.id == k) refl (rw get-insert at g);
        })
      ]

  Holds-same : (ch : Channel) → Holds chan ch → same_channel ch chan ≡ true
  unfolding same_channel
  Holds-same ch h =
      rw (h.topic, h.message_encoding, h.metadata)
        (ground (
          arith,
          bytes_eq_refl chan.topic,
          bytes_eq_refl chan.message_encoding,
          map_eq_refl chan.metadata,
          h.schema_id,
        ))

  find_after : (s : Option Schema) × (find_schema acc' chan ≡ ok s)
  unfolding find_schema
  find_after =
      let (s, f, outcome) = channel_outcome in
      elim outcome [ inl (_, _, _, e) ↦ (s, rw e f) | inr (_, e) ↦ (s, rw e f) ]

  -- A channel record that a consistent accumulator has accepted is accepted again, and changes
  -- nothing then.
  pub add_channel_again : IsConsistent acc → add_channel acc' chan ≡ ok acc'
  unfolding add_channel get
  add_channel_again c =
      let (s, f) = find_after in
      let (ch, at_id, h) = add_channel-get c in rw (f, at_id) (rw (Holds-same ch h, enter_channel))
