-- ===== src/Core/Envelope/Extensions/Valid.antt =====
-- crates/core/src/envelope.rs: what every `Extensions` holds, however it was made.
use sisa_messaging_rs.Prelude.{◌≡◌, [], ◌∷◌, ok, arith}
use sisa_messaging_rs.Prelude.Lists.{All}
use sisa_messaging_rs.Prelude.Text.{Text}
use sisa_messaging_rs.Prelude.Maps
use sisa_messaging_rs.Prelude.Maps.{Map, IsSorted}
use sisa_messaging_rs.Prelude.Maps.Laws.{remove-IsSorted}
use sisa_messaging_rs.Core.Envelope.Extensions.{Extensions, check_name, remove}

abbrev pub IsName : Text × Text → Type 0
IsName entry = check_name entry.0 ≡ ok tt

-- Every name follows the rules, and the map is one.
pub record IsValid (e : Extensions) : Type 0 where
  pub names : All IsName e.entries
  pub sorted : IsSorted e.entries

remove-names : (k : Text) (m : Map Text) → All IsName m → All IsName (Maps.remove k m)
unfolding Maps.remove
remove-names k [] a = tt
remove-names k ((j, w) ∷ m) a = ground (arith, remove-names k m a.1)

pub remove-IsValid : (e : Extensions) (name : Text) → IsValid e → IsValid (remove e name).0
unfolding remove
remove-IsValid e name valid = record {
  names = remove-names name e.entries valid.names;
  sorted = remove-IsSorted name e.entries valid.sorted;
}
