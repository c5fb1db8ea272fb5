-- ===== src/Channels.antt =====
-- `ChannelAccumulator` of rust/mcap/src/read.rs: the schemas and channels met so far.
--
-- An `Arc` is its value: neither schemas nor channels change once they are stored. The methods change
-- nothing where they return an error, so they return the new accumulator or the error.
pub mod Laws
use mcap.Prelude.{ℕ, Bool, true, false, ◌&&◌, Option, none, some, List, [], ◌==◌, if◌then◌else◌}
use mcap.Error.{
  Bytes, Result, ok, err, ◌>>=◌, invalid_schema_id, conflicting_schemas, conflicting_channels,
  unknown_schema,
}
use mcap.HashMap
use mcap.HashMap.{bytes_eq, map_eq}
use mcap.Records
use mcap.Records.{StringMap, SchemaHeader}

-- `Schema` and `Channel` of lib.rs
pub record Schema : Type 0 where
  pub id : ℕ
  pub name : Bytes
  pub encoding : Bytes
  pub body : Bytes

pub record Channel : Type 0 where
  pub id : ℕ
  pub topic : Bytes
  pub schema : Option Schema
  pub message_encoding : Bytes
  pub metadata : StringMap

pub record ChannelAccumulator : Type 0 where
  pub schemas : List (ℕ × Schema)
  pub channels : List (ℕ × Channel)

abbrev pub no_channels : ChannelAccumulator
no_channels = record { schemas = []; channels = [] }

unfoldable pub same_schema : Schema → SchemaHeader → Bytes → Bool
same_schema s h bytes =
    bytes_eq s.name h.name && (bytes_eq s.encoding h.encoding && bytes_eq s.body bytes)

unfoldable pub enter_schema :
    ChannelAccumulator → SchemaHeader → Bytes → Option Schema → Result ChannelAccumulator
enter_schema acc h bytes (some s) =
    if same_schema s h bytes then ok acc else err (conflicting_schemas h.name)
enter_schema acc h bytes none = ok (record acc {
  schemas =
      HashMap.insert h.id (record { id = h.id; name = h.name; encoding = h.encoding; body = bytes })
        acc.schemas;
})

unfoldable pub add_schema : ChannelAccumulator → SchemaHeader → Bytes → Result ChannelAccumulator
unfolding enter_schema
add_schema acc h bytes =
    if h.id == 0
    then err invalid_schema_id
    else enter_schema acc h bytes (HashMap.get h.id acc.schemas)

-- `channel.schema.as_ref().map(|s| s.id).unwrap_or(0)`
unfoldable pub schema_id_of : Option Schema → ℕ
schema_id_of none = 0
schema_id_of (some s) = s.id

unfoldable pub same_channel : Channel → Records.Channel → Bool
unfolding schema_id_of
same_channel c chan =
    bytes_eq c.topic chan.topic
    && (schema_id_of c.schema == chan.schema_id
        && (bytes_eq c.message_encoding chan.message_encoding && map_eq c.metadata chan.metadata))

unfoldable pub enter_channel :
    ChannelAccumulator
    → Records.Channel
    → Option Schema
    → Option Channel
    → Result ChannelAccumulator
enter_channel acc chan s (some c) =
    if same_channel c chan then ok acc else err (conflicting_channels chan.topic)
enter_channel acc chan s none = ok (record acc {
  channels =
      HashMap.insert chan.id
        (record {
          id = chan.id;
          topic = chan.topic;
          schema = s;
          message_encoding = chan.message_encoding;
          metadata = chan.metadata;
        })
        acc.channels;
})

unfoldable pub known_schema : Records.Channel → Option Schema → Result (Option Schema)
known_schema chan (some s) = ok (some s)
known_schema chan none = err (unknown_schema chan.topic chan.schema_id)

-- The schema id can be 0 for "no schema", or must be that of a schema that was read before.
unfoldable pub find_schema : ChannelAccumulator → Records.Channel → Result (Option Schema)
unfolding known_schema
find_schema acc chan =
    if chan.schema_id == 0
    then ok none
    else known_schema chan (HashMap.get chan.schema_id acc.schemas)

unfoldable pub add_channel : ChannelAccumulator → Records.Channel → Result ChannelAccumulator
unfolding find_schema enter_channel
add_channel acc chan =
    find_schema acc chan >>= λ s. enter_channel acc chan s (HashMap.get chan.id acc.channels)

unfoldable pub get : ChannelAccumulator → ℕ → Option Channel
get acc chan_id = HashMap.get chan_id acc.channels
