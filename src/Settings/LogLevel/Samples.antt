-- ===== src/Settings/LogLevel/Samples.antt =====
-- A settings file with a section for the log.
use warpbox_custom.Prelude.{
  ◌≡◌, refl, sym, ap, subst, true, none, some, [], Text, codes, text_eq, ok,
}
use warpbox_custom.Settings.LogLevel.{
  mapping_node, Node, node, Nodes, nil, cons, text_node, find_value, File,
}
use warpbox_custom.Settings.LogLevel.Pairs.{IsMapping, get, is_text}
use warpbox_custom.Settings.LogLevel.Updated.{IsLogged}

abbrev pub entry : Text → Text → Nodes → Nodes
entry key val rest = cons (text_node key []) (cons (text_node val []) rest)

abbrev pub logging : Node
logging =
    node mapping_node (codes "!!map") [] []
      (entry (codes "format") (codes "json") (entry (codes "level") (codes "info") nil))

abbrev pub settings : Node
settings =
    node mapping_node (codes "!!map") [] [] (
      entry (codes "version") (codes "1")
        (cons (text_node (codes "logging") []) (cons logging nil)))

abbrev pub file : File
file = record { tree = ok settings; write_error = none }

pub settings-IsMapping : IsMapping settings
settings-IsMapping = record { kind = refl; pairs = tt }

pub settings-IsLogged : IsLogged settings
unfolding get find_value text_eq is_text
settings-IsLogged section h =
    let e : logging ≡ section = cc (h) in
    subst
      (λ m. IsMapping m × ((val : Node) → get (codes "level") m ≡ some val → is_text val ≡ true)) e
      (record { kind = refl; pairs = tt }, info_text)
  where
    info_text : (val : Node) → get (codes "level") logging ≡ some val → is_text val ≡ true
    info_text val g = let same : text_node (codes "info") [] ≡ val = cc (g) in ap is_text (sym same)
