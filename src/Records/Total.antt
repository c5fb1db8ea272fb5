-- ===== src/Records/Total.antt =====
-- The readers of the records return on every input, after at least as many bytes as the fixed part.
use mcap.Prelude.{arith}
use mcap.Bytes.Total.{Takes, Takes-bind, Takes-last, Takes-get_le, Takes-get_string}
use mcap.Records.Maps.Total.{Takes-parse_vec, Takes-parse_string_map, Takes-parse_int_map}
use mcap.Records.Decode.{
  get_header, get_footer, get_schema_header, get_channel, get_message_header, get_chunk_header,
  get_message_index_entry, get_message_index, get_chunk_index, get_attachment_header,
  get_attachment_index, get_statistics, get_metadata, get_metadata_index, get_summary_offset,
  get_data_end,
}

pub Takes-get_header : Takes 8 get_header
unfolding get_header
Takes-get_header = Takes-bind 4 4 _ Takes-get_string (λ _. Takes-last 4 _ Takes-get_string)

pub Takes-get_footer : Takes 20 get_footer
unfolding get_footer
Takes-get_footer =
    Takes-bind 8 12 _ (Takes-get_le 8)
      (λ _. Takes-bind 8 4 _ (Takes-get_le 8) (λ _. Takes-last 4 _ (Takes-get_le 4)))

pub Takes-get_schema_header : Takes 10 get_schema_header
unfolding get_schema_header
Takes-get_schema_header =
    Takes-bind 2 8 _ (Takes-get_le 2)
      (λ _. Takes-bind 4 4 _ Takes-get_string (λ _. Takes-last 4 _ Takes-get_string))

pub Takes-get_channel : Takes 16 get_channel
unfolding get_channel
Takes-get_channel = Takes-bind 2 14 _ (Takes-get_le 2) (λ _.
    Takes-bind 2 12 _ (Takes-get_le 2) (λ _.
      Takes-bind 4 8 _ Takes-get_string
        (λ _. Takes-bind 4 4 _ Takes-get_string (λ _. Takes-last 4 _ Takes-parse_string_map))))

pub Takes-get_message_header : Takes 22 get_message_header
unfolding get_message_header
Takes-get_message_header = Takes-bind 2 20 _ (Takes-get_le 2) (λ _.
    Takes-bind 4 16 _ (Takes-get_le 4)
      (λ _. Takes-bind 8 8 _ (Takes-get_le 8) (λ _. Takes-last 8 _ (Takes-get_le 8))))

pub Takes-get_chunk_header : Takes 40 get_chunk_header
unfolding get_chunk_header
Takes-get_chunk_header = Takes-bind 8 32 _ (Takes-get_le 8) (λ _.
    Takes-bind 8 24 _ (Takes-get_le 8) (λ _. Takes-bind 8 16 _ (Takes-get_le 8) (λ _.
      Takes-bind 4 12 _ (Takes-get_le 4)
        (λ _. Takes-bind 4 8 _ Takes-get_string (λ _. Takes-last 8 _ (Takes-get_le 8))))))

pub Takes-get_message_index_entry : Takes 16 get_message_index_entry
unfolding get_message_index_entry
Takes-get_message_index_entry =
    Takes-bind 8 8 _ (Takes-get_le 8) (λ _. Takes-last 8 _ (Takes-get_le 8))

pub Takes-get_message_index : Takes 6 get_message_index
unfolding get_message_index
Takes-get_message_index =
    Takes-bind 2 4 _ (Takes-get_le 2)
      (λ _. Takes-last 4 _ (Takes-parse_vec 15 Takes-get_message_index_entry))

pub Takes-get_chunk_index : Takes 64 get_chunk_index
unfolding get_chunk_index
Takes-get_chunk_index = Takes-bind 8 56 _ (Takes-get_le 8) (λ _.
    Takes-bind 8 48 _ (Takes-get_le 8) (λ _. Takes-bind 8 40 _ (Takes-get_le 8) (λ _.
      Takes-bind 8 32 _ (Takes-get_le 8) (λ _.
        Takes-bind 4 28 _ (Takes-parse_int_map 2 8 (omega arith)) (λ _.
          Takes-bind 8 20 _ (Takes-get_le 8) (λ _.
            Takes-bind 4 16 _ Takes-get_string
              (λ _. Takes-bind 8 8 _ (Takes-get_le 8) (λ _. Takes-last 8 _ (Takes-get_le 8)))))))))

pub Takes-get_attachment_header : Takes 24 get_attachment_header
unfolding get_attachment_header
Takes-get_attachment_header = Takes-bind 8 16 _ (Takes-get_le 8) (λ _.
    Takes-bind 8 8 _ (Takes-get_le 8)
      (λ _. Takes-bind 4 4 _ Takes-get_string (λ _. Takes-last 4 _ Takes-get_string)))

pub Takes-get_attachment_index : Takes 48 get_attachment_index
unfolding get_attachment_index
Takes-get_attachment_index = Takes-bind 8 40 _ (Takes-get_le 8) (λ _.
    Takes-bind 8 32 _ (Takes-get_le 8) (λ _. Takes-bind 8 24 _ (Takes-get_le 8) (λ _.
      Takes-bind 8 16 _ (Takes-get_le 8) (λ _.
        Takes-bind 8 8 _ (Takes-get_le 8)
          (λ _. Takes-bind 4 4 _ Takes-get_string (λ _. Takes-last 4 _ Takes-get_string))))))

pub Takes-get_statistics : Takes 46 get_statistics
unfolding get_statistics
Takes-get_statistics = Takes-bind 8 38 _ (Takes-get_le 8) (λ _.
    Takes-bind 2 36 _ (Takes-get_le 2) (λ _. Takes-bind 4 32 _ (Takes-get_le 4) (λ _.
      Takes-bind 4 28 _ (Takes-get_le 4) (λ _. Takes-bind 4 24 _ (Takes-get_le 4) (λ _.
        Takes-bind 4 20 _ (Takes-get_le 4) (λ _. Takes-bind 8 12 _ (Takes-get_le 8) (λ _.
          Takes-bind 8 4 _ (Takes-get_le 8)
            (λ _. Takes-last 4 _ (Takes-parse_int_map 2 8 (omega arith))))))))))

pub Takes-get_metadata : Takes 8 get_metadata
unfolding get_metadata
Takes-get_metadata = Takes-bind 4 4 _ Takes-get_string (λ _. Takes-last 4 _ Takes-parse_string_map)

pub Takes-get_metadata_index : Takes 20 get_metadata_index
unfolding get_metadata_index
Takes-get_metadata_index =
    Takes-bind 8 12 _ (Takes-get_le 8)
      (λ _. Takes-bind 8 4 _ (Takes-get_le 8) (λ _. Takes-last 4 _ Takes-get_string))

pub Takes-get_summary_offset : Takes 17 get_summary_offset
unfolding get_summary_offset
Takes-get_summary_offset =
    Takes-bind 1 16 _ (Takes-get_le 1)
      (λ _. Takes-bind 8 8 _ (Takes-get_le 8) (λ _. Takes-last 8 _ (Takes-get_le 8)))

pub Takes-get_data_end : Takes 4 get_data_end
unfolding get_data_end
Takes-get_data_end = Takes-last 4 _ (Takes-get_le 4)
