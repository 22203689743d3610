-- ===== src/Proposer/Inlets.antt =====
-- Plugs as capability labels (proposer/forward_proposer.py: `_connector`, `_accepted_inlets`,
-- `_capability` and its two inverses). A frozenset of texts is the list of its members, each once.
pub mod Laws
use otto_q_core.Base.Ascii.{upper, strip}
use otto_q_core.Base.Sort.{sort}
use Prim.Native.String.{◌++◌ as str_append}
use otto_q_core.Base.{
  String, Option, none, some, List, [], ◌∷◌, str_eq, str_le, if◌then◌else◌, set_of,
}
use otto_q_core.Base.Split.{join, split, before_sep, after_sep}
use otto_q_core.Proposer.Frame.{Stall}

-- `_connector`
unfoldable pub connector : Option String → Option String
connector none = none
connector (some value) =
    let text = upper (strip value) in if str_eq text "" then none else some text

-- `filter(None, (_connector(i) for i in supported))`
pub stated : List (Option String) → List String
unfolding connector
stated [] = []
stated (i ∷ is) = elim (connector i) [ none ↦ stated is | some c ↦ c ∷ stated is ]

-- `_accepted_inlets`
unfoldable pub accepted_inlets : Stall → List String
unfolding connector stated
accepted_inlets st = elim (connector st.connector_type) [
  | none ↦ []
  | some conn ↦ if str_eq conn "MULTI" then set_of (stated st.supported_inlet_types) else conn ∷ []
]

-- `INLET_SEP.join(sorted(inlets))`
pub inlet_list : List String → String
inlet_list inlets = join "+" (sort str_le inlets)

-- `_capability`
unfoldable pub capability : String → List String → String
unfolding inlet_list
capability kind inlets = str_append kind (String.◌∷◌ "@" (inlet_list inlets))

-- `_capability_kind`
unfoldable pub capability_kind : String → String
unfolding before_sep
capability_kind cap = before_sep b'@' cap

-- `_capability_inlets`, as the parts in order.
unfoldable pub capability_inlets : String → List String
unfolding after_sep split
capability_inlets cap = split b'+' (after_sep b'@' cap)
