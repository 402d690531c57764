-- ===== src/Tests/Envelopes.antt =====
-- The attributes of an envelope with one extension, and the checks on names.
use sisa_messaging_rs.Prelude.{arith}
use sisa_messaging_rs.Prelude.Text.{is_control, is_whitespace}
use sisa_messaging_rs.Prelude.{◌≡◌, refl, false, [], ◌∷◌, some, ok, err}
use sisa_messaging_rs.Prelude.Lists.{All}
use sisa_messaging_rs.Prelude.Text.{codes, bytes}
use sisa_messaging_rs.Prelude.Maps
use sisa_messaging_rs.Core.MessageType
use sisa_messaging_rs.Core.Codec
use sisa_messaging_rs.Core.Envelope.Extensions
use sisa_messaging_rs.Core.Envelope.Extensions.{Extensions}
use sisa_messaging_rs.Core.Envelope.Extensions.Valid.{IsValid}
use sisa_messaging_rs.Core.Envelope.Extensions.Names.{
  IsExtensionName, Inserts, unreserved_name, insert-Inserts,
}
use sisa_messaging_rs.Core.Envelope.Attributes.{to_attributes, from_attributes}
use sisa_messaging_rs.Core.Envelope.Attributes.RoundTrip.{IsReadable, from_attributes-to_attributes}
use sisa_messaging_rs.Core.Envelope.Source
use sisa_messaging_rs.Core.Envelope.ContentType
use sisa_messaging_rs.Core.Envelope.Attributes.Fields.{fields}
use sisa_messaging_rs.Core.Envelope.Attributes.Written.{to_attributes-fields}
use sisa_messaging_rs.Tests.Sample.{uuid, order}

abbrev extensions : Extensions
extensions = record { entries = (codes "tenant", codes "a") ∷ [] }

extensions-IsValid : IsValid extensions
unfolding Extensions.check_name Extensions.is_reserved bytes
extensions-IsValid = record { names = (refl, tt); sorted = (tt, tt) }

to_attributes-fields_example :
    All (λ f. Maps.get f.0 (to_attributes uuid (order 7)) ≡ f.1) (fields uuid (order 7))
to_attributes-fields_example = to_attributes-fields uuid (order 7) extensions-IsValid

tenant_free : Extensions.is_reserved (codes "tenant") ≡ false
unfolding Extensions.is_reserved
tenant_free = refl

abbrev replaced : Extensions
replaced = record { entries = (codes "tenant", codes "b") ∷ [] }

test_insert :
    Extensions.insert extensions (codes "tenant") (codes "b") ≡ ok (replaced, some (codes "a"))
unfolding Extensions.insert Extensions.check_name Extensions.is_reserved bytes Maps.insert Maps.get
test_insert = refl

tenant-IsExtensionName : IsExtensionName (codes "tenant")
tenant-IsExtensionName = record {
  word = (cc, ground arith);
  short = omega arith;
  free = unreserved_name (codes "tenant") tenant_free;
}

insert-Inserts_example :
    Inserts extensions
      (codes "tenant")
      (codes "b")
      (Extensions.insert extensions (codes "tenant") (codes "b"))
insert-Inserts_example =
    insert-Inserts extensions (codes "tenant") (codes "b")
      (record { names = (tenant-IsExtensionName, tt); sorted = (tt, tt) })

test_message_type :
    (MessageType.check_message_type (codes "orders.order_placed.v1") ≡ ok tt)
    × (MessageType.check_message_type (codes "order_placed")
        ≡ err "needs at least two levels, such as `order_placed.v1`")
unfolding MessageType.check_message_type MessageType.split bytes
test_message_type = (refl, refl)

pub order-IsReadable : IsReadable (order 7)
unfolding Source.new MessageType.new MessageType.check_message_type MessageType.split
    MessageType.split_level ContentType.new is_control is_whitespace Codec.essence bytes
order-IsReadable = record {
  extensions = extensions-IsValid;
  source = refl;
  message_type = refl;
  content_type = refl;
  time = record { low = omega arith; high = omega arith; nanos = omega arith };
}

from_attributes-to_attributes_example :
    from_attributes uuid (to_attributes uuid (order 7)) (order 7).body ≡ ok (order 7)
from_attributes-to_attributes_example =
    from_attributes-to_attributes uuid (order 7) order-IsReadable
