-- ===== src/IndexedReader/Topics.antt =====
-- The topics of the options of an indexed reader, where no channel has one of them.
use mcap.Prelude.{◌≡◌, refl, none, List, []}
use mcap.Error.{Bytes}
use mcap.Summary.{Summary}
use mcap.IndexedReader.{
  IndexedReaderOptions, include_topics, included, channel_ids_of, new_with_options,
}

pub new_with_options-unknown_topics :
    (summary : Summary) (o : IndexedReaderOptions) (topics : List Bytes)
    → included topics summary.channels ≡ []
    → new_with_options summary (include_topics o topics)
      ≡ new_with_options summary (record o { include_topics = none })
unfolding new_with_options include_topics channel_ids_of
new_with_options-unknown_topics summary o topics h = rw h refl
