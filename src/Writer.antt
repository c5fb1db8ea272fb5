-- ===== src/Writer.antt =====
-- `Writer` of rust/mcap/src/write.rs: which schemas, channels, messages, attachments and metadata are
-- written, under which ids, what is counted, and in which mode the writer is.
--
-- `emitted` is the list of the records that go to the chunk or the file, in the order in which the
-- source hands them on; which of the two they go to is not modelled, and neither are the failures of
-- the stream below. The counters stay below their maximum. `AttachmentWriter` is modelled with its
-- bytes in Write.Attachment; here an attachment in progress is what its caller can tell of it.
pub mod Closing
pub mod Counts
pub mod Tallies
pub mod Runs
pub mod Failures
use mcap.Prelude.{
  ℕ, ◌+◌, ◌-◌, ◌%◌, ◌^◌, min, max, Bool, true, false, ◌&&◌, Option, none, some, List, [], ◌∷◌, ◌++◌,
  length, ltb, ◌==◌, not, if◌then◌else◌,
}
use mcap.Error.{
  Bytes, Result, McapError, ok, err, panic, stuck, too_many_schemas, too_many_channels,
  unknown_schema, unknown_channel, conflicting_schemas, conflicting_channels,
  private_record_opcode_is_reserved, attachment_not_in_progress, attachment_too_large,
  attachment_incomplete,
}
use mcap.BiMap.{BiMap}
use mcap.Registry
use mcap.Registry.{Registry, Registered, contains}
use mcap.Records
use mcap.Records.{
  StringMap, IntMap, Record, MessageHeader, Statistics, AttachmentHeader, Metadata, schema, channel,
  message, unknown, metadata,
}
use mcap.Records.Maps
use mcap.Records.Maps.{nat_order}
use mcap.Channels.{Schema, Channel, schema_id_of}

pub record SchemaContent : Type 0 where
  pub name : Bytes
  pub encoding : Bytes
  pub body : Bytes

pub record ChannelContent : Type 0 where
  pub topic : Bytes
  pub schema_id : ℕ
  pub message_encoding : Bytes
  pub metadata : StringMap

-- `Message` of lib.rs
pub record Message : Type 0 where
  pub channel : Channel
  pub sequence : ℕ
  pub log_time : ℕ
  pub publish_time : ℕ
  pub body : Bytes

-- `message_bounds` after a message at `t`
unfoldable pub widen : Option (ℕ × ℕ) → ℕ → ℕ × ℕ
widen none t = (t, t)
widen (some (start, end)) t = (min start t, max end t)

unfoldable pub count_of : ℕ → IntMap → ℕ
count_of k m = elim (Maps.lookup k m) [ none ↦ 0 | some n ↦ n ]

-- `*counts.entry(k).or_insert(0) += 1`
unfoldable pub count_one : ℕ → IntMap → IntMap
count_one k m = Maps.insert k (count_of k m + 1) m

-- `counts.values().sum()`
unfoldable pub total : IntMap → ℕ
total [] = 0
total ((_, n) ∷ m) = n + total m

unfoldable pub bounds_or_zero : Option (ℕ × ℕ) → ℕ × ℕ
bounds_or_zero none = (0, 0)
bounds_or_zero (some p) = p

abbrev pub schema_content : Schema → SchemaContent
schema_content s = record { name = s.name; encoding = s.encoding; body = s.body }

-- `WriteMode`, and whether `finish` was called. `open_` is a raw writer or a chunk.
pub data Mode : Type 0 where
  open_ : Mode
  -- an attachment in progress: its header, the length that was announced, and the bytes so far
  attaching : AttachmentHeader → ℕ → Bytes → Mode
  -- `self.writer` is `None`
  lost : Mode
  finished : Statistics → Mode

module _ (bs : BiMap SchemaContent) (bc : BiMap ChannelContent) (checks : Bool) where
  pub record Writer : Type 0 where
    pub schemas : Registry bs
    pub channels : Registry bc
    pub message_bounds : Option (ℕ × ℕ)
    pub channel_message_counts : IntMap
    pub attachment_count : ℕ
    pub metadata_count : ℕ
    pub chunk_count : ℕ
    pub emitted : List Record
    pub attachments : List (AttachmentHeader × Bytes)
    pub mode : Mode

  abbrev pub new : Writer
  new = record {
    schemas = Registry.new bs;
    channels = Registry.new bc;
    message_bounds = none;
    channel_message_counts = [];
    attachment_count = 0;
    metadata_count = 0;
    chunk_count = 0;
    emitted = [];
    attachments = [];
    mode = open_;
  }

  -- What was registered and written before an error stays.
  abbrev pub Call : Type 0 → Type 0
  Call A = Writer → Result A × Writer

  infixl 5 ◌>>=◌
  unfoldable pub ◌>>=◌ : {A B : Type 0} → Result A × Writer → (A → Call B) → Result B × Writer
  (ok a, w) >>= f = f a w
  (err e, w) >>= f = (err e, w)
  (panic, w) >>= f = (panic, w)
  (stuck, w) >>= f = (stuck, w)

  -- `start_chunk` or `finish_chunk`, then the record.
  unfoldable pub emit_in : Mode → Record → Call (Unit {0})
  emit_in open_ r w = (ok tt, record w { emitted = w.emitted ++ (r ∷ []) })
  emit_in (attaching _ _ _) r w = (err attachment_not_in_progress, w)
  emit_in lost r w = (panic, w)
  emit_in (finished _) r w = (panic, w)

  unfoldable pub emit : Record → Call (Unit {0})
  unfolding emit_in
  emit r w = emit_in w.mode r w

  -- A record is written if the registration says so.
  unfoldable pub emit_if : Bool → Record → Call (Unit {0})
  unfolding emit
  emit_if true r w = emit r w
  emit_if false r w = (ok tt, w)

  abbrev pub schema_record : ℕ → SchemaContent → Record
  schema_record id s = schema (record { id = id; name = s.name; encoding = s.encoding }) s.body

  abbrev pub channel_record : ℕ → ChannelContent → Record
  channel_record id c = channel (record {
    id = id;
    schema_id = c.schema_id;
    topic = c.topic;
    message_encoding = c.message_encoding;
    metadata = c.metadata;
  })

  unfoldable pub schema_registered : SchemaContent → Result (Registered bs) → Call ℕ
  unfolding emit_if ◌>>=◌
  schema_registered s (ok (id, fresh, r)) w =
      emit_if fresh (schema_record id s) (record w { schemas = r }) >>= λ _ w'. (ok id, w')
  schema_registered s (err e) w = (err e, w)
  schema_registered s panic w = (panic, w)
  schema_registered s stuck w = (stuck, w)

  unfoldable pub channel_registered : ChannelContent → Result (Registered bc) → Call ℕ
  unfolding emit_if ◌>>=◌
  channel_registered c (ok (id, fresh, r)) w =
      emit_if fresh (channel_record id c) (record w { channels = r }) >>= λ _ w'. (ok id, w')
  channel_registered c (err e) w = (err e, w)
  channel_registered c panic w = (panic, w)
  channel_registered c stuck w = (stuck, w)

  -- `Writer::add_schema`
  unfoldable pub add_schema : SchemaContent → Call ℕ
  unfolding schema_registered
  add_schema s w =
      let r = Registry.add bs checks too_many_schemas w.schemas s in
      schema_registered s r (record w { schemas = Registry.searched_to bs r w.schemas })

  unfoldable pub add_channel_unless : ChannelContent → Option ℕ → Call ℕ
  unfolding channel_registered
  add_channel_unless c (some id) w = (ok id, w)
  add_channel_unless c none w =
      if not (c.schema_id == 0) && not (contains c.schema_id w.schemas.ids)
      then (err (unknown_schema c.topic c.schema_id), w)
      else (let r = Registry.add_unless bc checks too_many_channels w.channels c none in
          channel_registered c r (record w { channels = Registry.searched_to bc r w.channels }))

  -- `Writer::add_channel`
  unfoldable pub add_channel : ChannelContent → Call ℕ
  unfolding add_channel_unless
  add_channel c w = add_channel_unless c (bc.get_by_left w.channels.canonical c) w

  -- The message is counted before it is written.
  unfoldable pub counted : MessageHeader → Writer → Writer
  unfolding widen count_one count_of
  counted h w = record w {
    message_bounds = some (widen w.message_bounds h.log_time);
    channel_message_counts = count_one h.channel_id w.channel_message_counts;
  }

  -- `Writer::write_to_known_channel`
  unfoldable pub write_to_known_channel : MessageHeader → Bytes → Call (Unit {0})
  unfolding counted emit
  write_to_known_channel h bytes w =
      if not (contains h.channel_id w.channels.ids)
      then (err (unknown_channel h.sequence h.channel_id), w)
      else emit (message h bytes) (counted h w)

  -- The first part of `Writer::write`: the schema of the message's channel, if it has one.
  unfoldable pub write_own_schema : Option Schema → Call (Unit {0})
  unfolding schema_registered ◌>>=◌
  write_own_schema none w = (ok tt, w)
  write_own_schema (some s) w =
      schema_registered (schema_content s)
        (Registry.enter bs (conflicting_schemas s.name) w.schemas s.id (schema_content s)) w
      >>= λ _ w'. (ok tt, w')

  abbrev pub content_of : Channel → ChannelContent
  content_of c = record {
    topic = c.topic;
    schema_id = schema_id_of c.schema;
    message_encoding = c.message_encoding;
    metadata = c.metadata;
  }

  unfoldable pub write_own_channel : Channel → Call (Unit {0})
  unfolding channel_registered ◌>>=◌
  write_own_channel c w =
      channel_registered (content_of c)
        (Registry.enter bc (conflicting_channels c.topic) w.channels c.id (content_of c)) w
      >>= λ _ w'. (ok tt, w')

  -- `Writer::write`
  unfoldable pub write : Message → Call (Unit {0})
  unfolding write_own_schema write_own_channel ◌>>=◌
  write m w =
      let h : MessageHeader = record {
        channel_id = m.channel.id;
        sequence = m.sequence;
        log_time = m.log_time;
        publish_time = m.publish_time;
      } in
      write_own_schema m.channel.schema w >>= λ _ w'.
      write_own_channel m.channel w' >>= λ _. write_to_known_channel h m.body

  -- `Writer::write_private_record`
  unfoldable pub write_private_record : ℕ → Bytes → Call (Unit {0})
  unfolding emit
  write_private_record op bytes w =
      if ltb op 0x80
      then (err (private_record_opcode_is_reserved op), w)
      else emit (unknown op bytes) w

  -- The statistics of `take_summary`.
  unfoldable pub statistics_of : Writer → Statistics
  unfolding bounds_or_zero
  statistics_of w = record {
    message_count = total w.channel_message_counts;
    schema_count = length w.schemas.ids % 2 ^ 16;
    channel_count = length w.channels.ids % 2 ^ 32;
    attachment_count = w.attachment_count;
    metadata_count = w.metadata_count;
    chunk_count = w.chunk_count;
    message_start_time = (bounds_or_zero w.message_bounds).0;
    message_end_time = (bounds_or_zero w.message_bounds).1;
    channel_message_counts = w.channel_message_counts;
  }
