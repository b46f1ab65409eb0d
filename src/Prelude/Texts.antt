-- ===== src/Prelude/Texts.antt =====
-- Lists of texts: membership, and `dict.fromkeys`.
use mathlib.Core.Bool.{Bool}
use mathlib.Core.List.{List, [], ◌∷◌}
use Prim.Native.String.{String}
use text.Mathlib.Text.{◌==◌ as str_eq}
use infra_sentinel.Prelude.Tests.{if◌then◌else◌}
use infra_sentinel.Prelude.Lists.{any}

abbrev pub has : String → List String → Bool
has text texts = any (str_eq text) texts

-- `tuple(dict.fromkeys(texts))`: each text once, where it stood first.
unfoldable pub unique_texts : List String → List String → List String
unique_texts seen [] = []
unique_texts seen (t ∷ rest) =
    let later = unique_texts (if has t seen then seen else t ∷ seen) rest in
    if has t seen then later else t ∷ later
