-- ===== src/Writer/Failures.antt =====
-- What the errors of `Writer` leave behind while an attachment is in progress.
use mcap.Registry
use mcap.Writer
use mcap.Writer.Closing.{finish_attachment, finish_in, finish, end_in}
use mcap.Prelude.{ℕ, ◌+◌, ◌<◌, ◌≡◌, refl, sym, ap, ◌∙◌, Bool, true, false, arith, length, ◌==◌}
use mathlib.Core.Path.{subst}
use mcap.Error.{Bytes, Result, err, panic, attachment_not_in_progress, attachment_incomplete}
use mcap.BiMap.{BiMap}
use mcap.Registry.{contains}
use mcap.Records.{Record, MessageHeader, AttachmentHeader, message}
use mcap.Writer.{
  SchemaContent, ChannelContent, Writer, attaching, lost, emit, emit_in, counted,
  write_to_known_channel, statistics_of,
}
use mcap.Writer.Counts.{total-count_one}

module _ (bs : BiMap SchemaContent) (bc : BiMap ChannelContent) (checks : Bool) where
  -- What a call that fails leaves: one message more in the statistics, and none more in the file.
  pub record CountedOnly (w w' : Writer bs bc checks) : Type 0 where
    pub count :
        (statistics_of bs bc checks w').message_count
        ≡ (statistics_of bs bc checks w).message_count + 1
    pub emitted : w'.emitted ≡ w.emitted

  -- While an attachment is in progress, writing a message on a known channel fails with
  -- `AttachmentNotInProgress` and writes nothing, and the statistics count the message.
  pub write_to_known_channel-CountedOnly :
      (h : MessageHeader) (bytes : Bytes) (w : Writer bs bc checks) (a : AttachmentHeader) (len : ℕ)
      (got : Bytes)
      → w.mode ≡ attaching a len got
      → contains h.channel_id w.channels.ids ≡ true
      → ((write_to_known_channel bs bc checks h bytes w).0 ≡ err attachment_not_in_progress)
        × CountedOnly w (write_to_known_channel bs bc checks h bytes w).1
  unfolding write_to_known_channel emit emit_in counted statistics_of
  write_to_known_channel-CountedOnly h bytes w a len got e known = rw known (
    ap (λ (r : Result (Unit {0}) × Writer bs bc checks). r.0) fails,
    subst (CountedOnly w) (sym (ap (λ (r : Result (Unit {0}) × Writer bs bc checks). r.1) fails))
        (record { count = total-count_one h.channel_id w.channel_message_counts; emitted = refl }),
  )
    where
      fails :
          emit bs bc checks (message h bytes) (counted bs bc checks h w)
          ≡ (err attachment_not_in_progress, counted bs bc checks h w)
      fails = ap (λ m. emit_in bs bc checks m (message h bytes) (counted bs bc checks h w)) e

  -- An attachment that is finished with fewer bytes than announced fails with
  -- `AttachmentIncomplete`, and then the writer panics on every record and on `finish`.
  pub finish_attachment-lost :
      (w : Writer bs bc checks) (a : AttachmentHeader) (len : ℕ) (got : Bytes)
      → w.mode ≡ attaching a len got
      → length got < len
      → ((finish_attachment bs bc checks w).0 ≡ err (attachment_incomplete (length got) len))
        × ((r : Record) → (emit bs bc checks r (finish_attachment bs bc checks w).1).0 ≡ panic)
        × ((finish bs bc checks (finish_attachment bs bc checks w).1).0 ≡ panic)
  unfolding finish_attachment finish_in emit emit_in finish end_in
  finish_attachment-lost w a len got e short = (
    ap (λ (r : Result (Unit {0}) × Writer bs bc checks). r.0) gone,
    λ r. ap (λ (x : Result (Unit {0}) × Writer bs bc checks). (emit bs bc checks r x.1).0) gone,
    ap (λ (x : Result (Unit {0}) × Writer bs bc checks). (finish bs bc checks x.1).0) gone,
  )
    where
      different : (len == length got) ≡ false
      different = ground arith

      gone :
          finish_attachment bs bc checks w
          ≡ (err (attachment_incomplete (length got) len), record w { mode = lost })
      gone = ap (λ m. finish_in bs bc checks m w) e ∙ (rw different refl)
