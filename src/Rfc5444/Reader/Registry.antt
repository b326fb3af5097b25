-- ===== src/Rfc5444/Reader/Registry.antt =====
-- The consumers of a reader (src-api/rfc5444/rfc5444_reader.c): adding and removing them. A consumer is
-- named by its place in the tree.
use oonf_api.Base.{ℕ, zero, suc, List, [], ◌∷◌}
use oonf_api.Rfc5444.Reader.Consumer.{Consumer, ConsumerEntry, add_consumer}
use oonf_api.Rfc5444.Reader.Message.{Reader}

-- `_free_consumer`; nothing happens if the consumer is not in the tree.
unfoldable pub free_consumer : {W : Type 0} → List (Consumer W) → ℕ → List (Consumer W)
free_consumer [] at = []
free_consumer (c ∷ consumers) zero = consumers
free_consumer (c ∷ consumers) (suc at) = c ∷ free_consumer consumers at

module _ {W : Type 0} where
  unfoldable pub rfc5444_reader_init : Reader W → Reader W
  rfc5444_reader_init r = record r { packet_consumer = []; message_consumer = [] }

  unfoldable pub rfc5444_reader_cleanup : Reader W → Reader W
  rfc5444_reader_cleanup r = record r { packet_consumer = []; message_consumer = [] }

  unfoldable pub rfc5444_reader_add_packet_consumer :
      Reader W → Consumer W → List ConsumerEntry → Reader W
  unfolding add_consumer
  rfc5444_reader_add_packet_consumer r c entries = record r {
    packet_consumer = add_consumer c r.packet_consumer entries;
  }

  unfoldable pub rfc5444_reader_add_message_consumer :
      Reader W → Consumer W → List ConsumerEntry → Reader W
  unfolding add_consumer
  rfc5444_reader_add_message_consumer r c entries = record r {
    message_consumer = add_consumer c r.message_consumer entries;
  }

  unfoldable pub rfc5444_reader_remove_packet_consumer : Reader W → ℕ → Reader W
  unfolding free_consumer
  rfc5444_reader_remove_packet_consumer r at = record r {
    packet_consumer = free_consumer r.packet_consumer at;
  }

  unfoldable pub rfc5444_reader_remove_message_consumer : Reader W → ℕ → Reader W
  unfolding free_consumer
  rfc5444_reader_remove_message_consumer r at = record r {
    message_consumer = free_consumer r.message_consumer at;
  }
