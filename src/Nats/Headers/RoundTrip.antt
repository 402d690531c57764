-- ===== src/Nats/Headers/RoundTrip.antt =====
-- crates/nats/src/subscribe.rs: `read` undoes `headers`.
use sisa_messaging_rs.Prelude.{
  ℕ, ◌-◌, ◌^◌, ◌≡◌, refl, ap, ◌∙◌, [], ◌∷◌, ◌++◌, Option, none, some, ok, inl, inr, min,
}
use sisa_messaging_rs.Prelude.Lists.{All}
use sisa_messaging_rs.Prelude.Text.{Text}
use sisa_messaging_rs.Prelude.Maps
use sisa_messaging_rs.Prelude.Maps.{IsSorted}
use sisa_messaging_rs.Prelude.Maps.Laws.{Map-ext}
use sisa_messaging_rs.Core.Error.{EnvelopeError}
use sisa_messaging_rs.Core.MessageId
use sisa_messaging_rs.Core.MessageId.{UuidText}
use sisa_messaging_rs.Core.Envelope.Defs.{Envelope}
use sisa_messaging_rs.Core.Envelope.Attributes.{Attributes, to_attributes}
use sisa_messaging_rs.Core.Envelope.Attributes.RoundTrip.{
  IsReadable, written-IsSorted, from_attributes-to_attributes,
}
use sisa_messaging_rs.Nats.{HeaderMaps, ce, msg_id, headers, read, read_headers}
use sisa_messaging_rs.Nats.Headers.{
  IsLine, HeaderLaws, first, or_else, inserted, insert_parsed_lem, inserted-get, insert-NamesAre,
  inserted-NamesAre, new-NamesAre,
}
use sisa_messaging_rs.Nats.Headers.Collected.{
  IsPlain, ArePlain, get-read_headers, read_headers-IsSorted,
}
use sisa_messaging_rs.Nats.Headers.Names.{AreLower, to_attributes-AreLower}

names-IsPlain : (a : Attributes) → AreLower a → All (λ p. IsPlain (ce ++ p.0)) a
names-IsPlain [] l = tt
names-IsPlain ((k, v) ∷ a) (l, ls) = (inr (k, refl, l), names-IsPlain a ls)

or_else-none : (o : Option Text) → or_else o none ≡ o
or_else-none none = refl
or_else-none (some v) = refl

module _ {H : Type 0} (maps : HeaderMaps H) (laws : HeaderLaws maps) (uuid : UuidText) where
  abbrev built : Attributes → Text → H
  built a id = maps.insert msg_id id (inserted maps laws uuid a maps.new)

  built-ArePlain : (a : Attributes) (id : Text) → AreLower a → ArePlain (maps.iter (built a id))
  built-ArePlain a id l =
      insert-NamesAre maps laws uuid IsPlain msg_id id (inserted maps laws uuid a maps.new)
        (inl refl)
        (inserted-NamesAre maps laws uuid IsPlain a maps.new (names-IsPlain a l)
          (new-NamesAre maps laws uuid IsPlain))

  built-get :
      (a : Attributes) (id k : Text)
      → IsSorted a
      → first (Maps.get (ce ++ k) (maps.iter (built a id))) ≡ Maps.get k a
  unfolding Maps.get
  built-get a id k s =
      ap first (laws.iter-insert msg_id id (ce ++ k) (inserted maps laws uuid a maps.new))
      ∙ inserted-get maps laws uuid a k maps.new s
      ∙ (rw laws.iter-new (or_else-none (Maps.get k a)))

  built-read :
      (a : Attributes) (id : Text)
      → IsSorted a
      → AreLower a
      → read_headers maps uuid (maps.iter (built a id)) [] ≡ a
  unfolding Maps.get
  built-read a id s l =
      Map-ext (read_headers maps uuid (maps.iter (built a id)) []) a
        (read_headers-IsSorted maps uuid (maps.iter (built a id)) [] tt) s
        (λ k.
          get-read_headers maps uuid (maps.iter (built a id)) k [] (laws.iter-IsUnique (built a id))
            (built-ArePlain a id l)
          ∙ or_else-none (first (Maps.get (ce ++ k) (maps.iter (built a id))))
          ∙ built-get a id k s)

  -- An envelope whose attributes have no line break is written as headers without an error, and a
  -- message with these headers, its body and a delivery count is read back as the same envelope,
  -- with the count, at most 2 ^ 32 - 1, as the attempt.
  pub read-headers :
      (e : Envelope) (show : EnvelopeError → Text) (delivered : ℕ)
      → IsReadable e
      → All (λ p. IsLine p.1) (to_attributes uuid e)
      → (h : H) × (headers maps uuid e ≡ ok h)
        × (read maps uuid show
              (record { headers = some h; payload = e.body; delivered = ok delivered })
            ≡ ok (e, min delivered (2 ^ 32 - 1)))
  unfolding headers read
  read-headers e show delivered readable lines =
      let a = to_attributes uuid e in
      let id = MessageId.to_string uuid e.id in
      let h = built a id in
      (
        h,
        (rw (insert_parsed_lem maps laws uuid a maps.new lines) refl),
        rw
            (
              built-read a id (written-IsSorted uuid e readable)
                  (to_attributes-AreLower uuid e readable.extensions),
              from_attributes-to_attributes uuid e readable,
            )
            refl,
      )
