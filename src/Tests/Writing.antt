-- ===== src/Tests/Writing.antt =====
-- The theorems on the TLV writer (src-api/rfc5444/rfc5444_tlv_writer.c) at inputs.
use oonf_api.Base.{◌+◌, [], ◌∷◌, length, replicate, arith}
use oonf_api.Rfc5444.TlvWriter.Room.{IsTlvWriter, Put, tlv_writer_add-Put, tlv_writer_set-Put}
use oonf_api.Rfc5444.TlvWriter.{TlvWriterData, write_tlv, tlv_writer_add, tlv_writer_set}

-- Four bytes of header, three added, four allocated.
abbrev writer : TlvWriterData
writer = record { buffer = replicate 20 0; header = 4; added = 3; allocated = 4; set = 0; max = 18 }

writer-IsTlvWriter : IsTlvWriter writer
writer-IsTlvWriter = omega arith

tlv_writer_add-Put_example :
    Put writer 7 7
      (write_tlv 9 0 0 255 (1 ∷ 2 ∷ []))
      (λ mem. record writer { buffer = mem; added = 3 + length (write_tlv 9 0 0 255 (1 ∷ 2 ∷ [])) })
      (tlv_writer_add writer 9 0 (1 ∷ 2 ∷ []))
tlv_writer_add-Put_example = tlv_writer_add-Put writer writer-IsTlvWriter 9 0 (1 ∷ 2 ∷ [])

tlv_writer_set-Put_example :
    Put writer 7 4
      (write_tlv 9 0 0 255 (1 ∷ []))
      (λ mem. record writer { buffer = mem; set = 0 + length (write_tlv 9 0 0 255 (1 ∷ [])) })
      (tlv_writer_set writer 9 0 (1 ∷ []))
tlv_writer_set-Put_example = tlv_writer_set-Put writer writer-IsTlvWriter 9 0 (1 ∷ [])
