-- ===== src/Writer/Closing.antt =====
-- The calls of `Writer` (rust/mcap/src/write.rs) that need a raw writer: metadata, attachments, and
-- the end of the file.
use mcap.Prelude.{ℕ, ◌+◌, ◌-◌, Bool, [], ◌∷◌, ◌++◌, length, ltb, ◌==◌, not, if◌then◌else◌}
use mcap.Error.{
  Bytes, ok, err, panic, attachment_not_in_progress, attachment_too_large, attachment_incomplete,
}
use mcap.BiMap.{BiMap}
use mcap.Records.{Statistics, AttachmentHeader, Metadata, metadata}
use mcap.Writer
use mcap.Writer.{
  SchemaContent, ChannelContent, Writer, Mode, open_, attaching, lost, finished, Call, emit,
  statistics_of,
}

module _ (bs : BiMap SchemaContent) (bc : BiMap ChannelContent) (checks : Bool) where
  -- `Writer::write_metadata`
  unfoldable pub write_metadata : Metadata → Call bs bc checks (Unit {0})
  unfolding emit Writer.◌>>=◌
  write_metadata m w =
      Writer.◌>>=◌ bs bc checks (emit bs bc checks (metadata m) w)
        (λ _ w'. (ok tt, record w' { metadata_count = w'.metadata_count + 1 }))

  unfoldable pub start_in : Mode → ℕ → AttachmentHeader → Call bs bc checks (Unit {0})
  start_in open_ len h w = (ok tt, record w { mode = attaching h len [] })
  start_in (attaching _ _ _) len h w = (err attachment_not_in_progress, w)
  start_in lost len h w = (panic, w)
  start_in (finished _) len h w = (panic, w)

  -- `Writer::start_attachment`
  unfoldable pub start_attachment : ℕ → AttachmentHeader → Call bs bc checks (Unit {0})
  unfolding start_in
  start_attachment len h w = start_in w.mode len h w

  unfoldable pub put_in : Mode → Bytes → Call bs bc checks (Unit {0})
  put_in (attaching h len got) bytes w =
      if ltb (len - length got) (length bytes)
      then (err (attachment_too_large (length bytes - (len - length got)) len), w)
      else (ok tt, record w { mode = attaching h len (got ++ bytes) })
  put_in open_ bytes w = (err attachment_not_in_progress, w)
  put_in lost bytes w = (err attachment_not_in_progress, w)
  put_in (finished _) bytes w = (err attachment_not_in_progress, w)

  -- `Writer::put_attachment_bytes`
  unfoldable pub put_attachment_bytes : Bytes → Call bs bc checks (Unit {0})
  unfolding put_in
  put_attachment_bytes bytes w = put_in w.mode bytes w

  -- The writer was taken out of `self.writer`, and an error leaves nothing there.
  unfoldable pub finish_in : Mode → Call bs bc checks (Unit {0})
  finish_in (attaching h len got) w =
      if not (len == length got)
      then (err (attachment_incomplete (length got) len), record w { mode = lost })
      else (
        ok tt,
        record w {
          mode = open_;
          attachments = w.attachments ++ ((h, got) ∷ []);
          attachment_count = w.attachment_count + 1;
        },
      )
  finish_in open_ w = (err attachment_not_in_progress, w)
  finish_in lost w = (err attachment_not_in_progress, w)
  finish_in (finished _) w = (err attachment_not_in_progress, w)

  -- `Writer::finish_attachment`
  unfoldable pub finish_attachment : Call bs bc checks (Unit {0})
  unfolding finish_in
  finish_attachment w = finish_in w.mode w

  -- `Writer::attach`
  unfoldable pub attach : AttachmentHeader → Bytes → Call bs bc checks (Unit {0})
  unfolding start_attachment put_attachment_bytes finish_attachment Writer.◌>>=◌
  attach h bytes w = Writer.◌>>=◌ bs bc checks (start_attachment (length bytes) h w) λ _ w'.
      Writer.◌>>=◌ bs bc checks (put_attachment_bytes bytes w') (λ _ w''. finish_attachment w'')

  unfoldable pub end_in : Mode → Call bs bc checks Statistics
  unfolding statistics_of
  end_in open_ w = (
    ok (statistics_of bs bc checks w),
    record w { mode = finished (statistics_of bs bc checks w); channel_message_counts = [] },
  )
  end_in (attaching _ _ _) w = (err attachment_not_in_progress, w)
  end_in lost w = (panic, w)
  end_in (finished s) w = (ok s, w)

  -- The part of `Writer::finish` that returns the statistics.
  unfoldable pub finish : Call bs bc checks Statistics
  unfolding end_in
  finish w = end_in w.mode w
